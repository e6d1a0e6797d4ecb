-- ===== src/Run/Conflicts/Laws.antt =====
-- internal/app/sync/conflict.go: what a resolved plan keeps.
use mathlib.Core.Path.{subst}
use ocis_cli.Base.{All-mono}
use ocis_cli.Base.{String, Bool, true, false, not, ◌||◌, List, [], ◌∷◌, ◌++◌, ◌==◌}
use ocis_cli.Base.{if◌then◌else◌, str_eq, ◌≡◌, refl, inl, inr, arith, All, count_if, Bool-cases}
use ocis_cli.Base.Map.{has}
use ocis_cli.Base.Result.{Result, ok, err, ◌>>=◌, ◌>>◌}
use ocis_cli.Sync.Platform.{Platform}
use ocis_cli.Sync.Entry.{Snapshot}
use ocis_cli.Sync.Action.{Action, Plan, local, remote, is_conflict, tally_all, new_plan}
use ocis_cli.Sync.Action.Laws.{tally_all-Counts}
use ocis_cli.Run.Conflicts.{
  Printer, ResolveError, not_ordinary, losing_copy_path, prefer_one, Resolution, ensure_available,
  resolve_conflict, resolve_actions, resolve_bidirectional_conflicts,
}
use ocis_cli.Run.Conflicts.Outcomes.{
  losing_side, winning_side, losing_entry, winning_entry, Preserves, keep_both-Preserves, Outcome,
  stays, preserved, Outcome-front, Outcome-back, Resolved,
}

-- What the successful results of a call satisfy.
abbrev OnOk : {A : Type 0} → (A → Type 0) → Result ResolveError A → Type 0
OnOk {A} Q m = (v : A) → m ≡ ok v → Q v

module _ {A : Type 0} (Q : A → Type 0) where
  if-OnOk :
      (test : Bool) {x y : Result ResolveError A}
      → (test ≡ true → OnOk Q x)
      → (test ≡ false → OnOk Q y)
      → OnOk Q (if test then x else y)
  if-OnOk true h k = h refl
  if-OnOk false h k = k refl

  bind-OnOk :
      {B : Type 0} (m : Result ResolveError B) (f : B → Result ResolveError A)
      → ((b : B) → m ≡ ok b → OnOk Q (f b))
      → OnOk Q (m >>= f)
  bind-OnOk (err e) f h v p = cc
  bind-OnOk (ok b) f h v p = h b refl v p

  ok-OnOk : (x : A) → Q x → OnOk Q (ok x)
  ok-OnOk x q v p = let e : x ≡ v = cc in subst Q e q

  err-OnOk : (e : ResolveError) → OnOk Q (err e)
  err-OnOk e v p = cc

append-All :
    (xs ys : List Action)
    → All (λ (b : Action). is_conflict b.action ≡ false) xs
    → All (λ (b : Action). is_conflict b.action ≡ false) ys
    → All (λ (b : Action). is_conflict b.action ≡ false) (xs ++ ys)
append-All [] ys h k = k
append-All (x ∷ xs) ys h k = (h.0, append-All xs ys h.1 k)

module _ (H : Printer) (P : Platform) (l r : Snapshot) (request : Resolution) where
  ensure_available-ok :
      (path : String)
      → ensure_available H P l r request path ≡ ok tt
      → (has path l ≡ false) × (has path r ≡ false)
  unfolding ensure_available
  ensure_available-ok path h = ground arith

  prefer_one-Preserves :
      (path : String) (a : Action)
      → has path l ≡ false
      → has path r ≡ false
      → Preserves l r
          (losing_side request)
          (winning_side request)
          (losing_entry request a)
          (winning_entry request a)
          a
          (prefer_one H P l r request path a)
  unfolding prefer_one
  prefer_one-Preserves path a h k = elim (Bool-cases (str_eq request.prefer "local")) [
    | inl e ↦ rw e (keep_both-Preserves l r H remote local path a a.destination a.source h k)
    | inr e ↦ rw e (keep_both-Preserves l r H local remote path a a.source a.destination h k)
  ]

  prefer_one-Resolved :
      (path : String) (a : Action)
      → is_conflict a.action ≡ true
      → has path l ≡ false
      → has path r ≡ false
      → Resolved l r request a (prefer_one H P l r request path a)
  prefer_one-Resolved path a c h k =
      let (x, (y, (z, e, p))) = prefer_one-Preserves path a h k in
      (
        rw (e, p.copies.0, p.shares.0, p.replaces.0) (refl, (refl, (refl, tt))),
        preserved x y z c p ([], ([], e)),
      )

  conflict-Resolved :
      (a : Action)
      → is_conflict a.action ≡ true
      → OnOk (Resolved l r request a) (resolve_conflict H P l r request a)
  unfolding resolve_conflict
  conflict-Resolved a c =
      let Q = Resolved l r request a in
      let path = losing_copy_path H P l r request a in
      let kept = ok (prefer_one H P l r request path a) in
      if-OnOk Q
        (str_eq a.path ""
          || not (str_eq a.source.type "file")
          || not (str_eq a.destination.type "file"))
        {x = err (not_ordinary a.path)} {y = ensure_available H P l r request path >> kept}
        (λ _. err-OnOk Q (not_ordinary a.path))
        (λ _.
          bind-OnOk Q (ensure_available H P l r request path) (λ _. kept)
            (λ _ e.
              let free = ensure_available-ok path e in
              ok-OnOk Q (prefer_one H P l r request path a)
                (prefer_one-Resolved path a c free.0 free.1)))

  one-Resolved :
      (a : Action)
      → OnOk
          (Resolved l r request a)
          (if is_conflict a.action then resolve_conflict H P l r request a else ok (a ∷ []))
  one-Resolved a =
      if-OnOk (Resolved l r request a) (is_conflict a.action) (conflict-Resolved a)
        (λ c. ok-OnOk (Resolved l r request a) (a ∷ []) ((c, tt), stays c ([], ([], refl))))

  -- What the resolution of a list of actions gives.
  abbrev pub AllResolved : List Action → List Action → Type 0
  AllResolved actions xs =
      All (λ (b : Action). is_conflict b.action ≡ false) xs
      × All (λ a. Outcome l r request a xs) actions

  append-AllResolved :
      (a : Action) (later xs more : List Action)
      → Resolved l r request a xs
      → AllResolved later more
      → AllResolved (a ∷ later) (xs ++ more)
  append-AllResolved a later xs more (h, k) (hs, ks) = (
    append-All xs more h hs,
    (
      Outcome-back l r request a xs more k,
      All-mono (λ b. Outcome l r request b more) (λ b. Outcome l r request b (xs ++ more)) later
          (λ b x. Outcome-front l r request b xs more x) ks,
    ),
  )

  actions-AllResolved :
      (actions : List Action) → OnOk (AllResolved actions) (resolve_actions H P l r request actions)
  unfolding resolve_actions
  actions-AllResolved [] = ok-OnOk (AllResolved []) [] (tt, tt)
  actions-AllResolved (a ∷ later) = bind-OnOk (AllResolved (a ∷ later)) _ _ (λ xs e.
      bind-OnOk (AllResolved (a ∷ later)) (resolve_actions H P l r request later) _ (λ more f.
        ok-OnOk (AllResolved (a ∷ later)) (xs ++ more) (
          append-AllResolved a later xs more (one-Resolved a xs e)
            (actions-AllResolved later more f))))

  count_if-no_conflict :
      (xs : List Action)
      → All (λ (b : Action). is_conflict b.action ≡ false) xs
      → count_if (λ (b : Action). is_conflict b.action) xs ≡ 0
  count_if-no_conflict [] h = refl
  count_if-no_conflict (x ∷ xs) h = ground (arith, h.0, count_if-no_conflict xs h.1)

  -- Where conflicts are resolved, the plan has some, and the resolution succeeds, the plan that
  -- results has no conflict left and keeps every other action. For each conflict it has three actions
  -- in a row: the losing version, which is the remote one if local is preferred and the local one
  -- otherwise, is copied on its own side to a path that neither tree has; the copy is sent to the
  -- winning side; and the winning version replaces the losing one.
  pub resolve_bidirectional_conflicts_keeps :
      (plan : Plan) {resolved : Plan}
      → str_eq request.conflict_strategy "" ≡ false
      → str_eq request.conflict_strategy "abort" ≡ false
      → (plan.conflicts == 0) ≡ false
      → resolve_bidirectional_conflicts H P l r request plan ≡ ok resolved
      → (resolved.conflicts ≡ 0)
        × (resolved.direction ≡ plan.direction)
        × AllResolved plan.actions resolved.actions
  unfolding resolve_bidirectional_conflicts new_plan
  resolve_bidirectional_conflicts_keeps plan {resolved} s t n h =
      bind-OnOk Q (resolve_actions H P l r request plan.actions) _
        (λ xs e. ok-OnOk Q _ (made xs (actions-AllResolved plan.actions xs e))) resolved
        (rw (s, t, n) at h)
    where
      Q : Plan → Type 0
      Q p = (p.conflicts ≡ 0) × (p.direction ≡ plan.direction) × AllResolved plan.actions p.actions

      made :
          (xs : List Action)
          → AllResolved plan.actions xs
          → Q (tally_all xs (new_plan plan.direction xs))
      made xs (h, k) =
          let c = tally_all-Counts xs (new_plan plan.direction xs) in
          (ground (arith, c, count_if-no_conflict xs h), ground (arith, c), rw c.0 (h, k))

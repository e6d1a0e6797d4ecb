-- ===== src/Sync/TwoWay/MoveSafety.antt =====
-- internal/sync/bidirectional.go: a detected rename touches nothing that has changed.
use mathlib.Core.Path.{subst}
use mathlib.Core.Option.{some-injective}
use ocis_cli.Base.{ℕ, zero, suc, ◌-◌, ◌≤◌, Bool, true, false, List, [], ◌∷◌}
use ocis_cli.Base.{some, ◌≡◌, refl, arith, inl, inr}
use ocis_cli.Base.{Bool-cases, Option-cases, All, keep, All-mono}
use ocis_cli.Base.Map.{Map, lookup, has}
use ocis_cli.Sync.Platform.{Platform}
use ocis_cli.Sync.Entry.{Entry, Snapshot, Record}
use ocis_cli.Sync.Action.{Action, Side}
use ocis_cli.Sync.TwoWay.Subtrees.{saved_or_zero}
use ocis_cli.Sync.TwoWay.Moves.{
  MoveCandidate, action_at, update_at, is_removed, is_added, removed_from, added_from, renamed,
  handled, matches_other_addition, take_move, removed_entry,
}
use ocis_cli.Sync.TwoWay.MoveLaws.{
  PathKept, IsSafe, current, Becomes, same, moved, taken, AllBecome, Becomes-path, AllBecome-at,
  AllBecome-update,
}

minus_zero : (n : ℕ) → n - 0 ≡ n
minus_zero n = omega arith

-- A candidate stands for an action of the list, from an index on, that passes the test.
abbrev pub Found : (Action → Bool) → ℕ → List Action → MoveCandidate → Type 0
Found test i actions c =
    (i ≤ c.index) × (o : Action) × (action_at (c.index - i) actions ≡ some o) × (test o ≡ true)

Found-later :
    (test : Action → Bool) (i : ℕ) (a : Action) (rest : List Action) (c : MoveCandidate)
    → Found test (suc i) rest c
    → Found test i (a ∷ rest) c
Found-later test i a rest c (h, o, p, t) =
    let e : c.index - i ≡ suc (c.index - suc i) = omega arith in (omega arith, o, rw e p, t)

Found-here :
    (test : Action → Bool) (i : ℕ) (a : Action) (rest : List Action) (e : Entry)
    → test a ≡ true
    → Found test i (a ∷ rest) (record { index = i; entry = e })
Found-here test i a rest e t = let z : i - i ≡ 0 = omega arith in (omega arith, a, rw z refl, t)

module _ (target : Side) (saved : Map Record) where
  pub removed_from-Found :
      (i : ℕ) (actions : List Action)
      → All (Found (is_removed target saved) i actions) (removed_from target saved i actions)
  unfolding removed_from
  removed_from-Found i [] = tt
  removed_from-Found i (a ∷ rest) =
      let test = is_removed target saved in
      let later =
        All-mono (Found test (suc i) rest) (Found test i (a ∷ rest))
          (removed_from target saved (suc i) rest) (Found-later test i a rest)
          (removed_from-Found (suc i) rest) in
      elim (Bool-cases (is_removed target saved a)) [
        | inl e ↦ rw e (
          Found-here test i a rest (removed_entry target (saved_or_zero (lookup a.path saved))) e,
          later,
        )
        | inr e ↦ rw e later
      ]

  pub added_from-Found :
      (i : ℕ) (actions : List Action)
      → All (Found (is_added target) i actions) (added_from target i actions)
  unfolding added_from
  added_from-Found i [] = tt
  added_from-Found i (a ∷ rest) =
      let test = is_added target in
      let later =
        All-mono (Found test (suc i) rest) (Found test i (a ∷ rest))
          (added_from target (suc i) rest) (Found-later test i a rest)
          (added_from-Found (suc i) rest) in
      elim (Bool-cases (is_added target a)) [
        | inl e ↦ rw e (Found-here test i a rest a.source e, later)
        | inr e ↦ rw e later
      ]

pub keep-All {κ} :
    (Q : MoveCandidate → Type κ) (test : MoveCandidate → Bool) (cs : List MoveCandidate)
    → All Q cs
    → All Q (keep test cs)
keep-All Q test [] h = tt
keep-All Q test (c ∷ cs) h = elim (Bool-cases (test c)) [
  | inl e ↦ rw e (h.0, keep-All Q test cs h.1)
  | inr e ↦ rw e (keep-All Q test cs h.1)
]

module _ (P : Platform) (l r : Snapshot) (saved : Map Record) (target : Side) (os : List Action)
    (safe : All (IsSafe P l r saved) os) where
  -- The actions that a pass starts with, and what it has made of them.
  abbrev pub Rel : List Action → Type 0
  Rel = AllBecome P l r saved target os

  Becomes-replace : {o c : Action} → Becomes P l r saved target o c → c.replace ≡ o.replace
  Becomes-replace same = refl
  Becomes-replace (moved _ _ _ _ e _ _) = e
  Becomes-replace (taken _ _ _ e _) = e

  added_not_removed : (o : Action) → is_added target o ≡ true → is_removed target saved o ≡ true → ⊥
  unfolding is_added is_removed
  added_not_removed o h k = ground arith

  Becomes-target :
      {o c : Action}
      → is_added target o ≡ true
      → Becomes P l r saved target o c
      → c.target ≡ o.target
  Becomes-target a same = refl
  Becomes-target a (moved _ _ _ e _ _ _) = e
  Becomes-target {o} a (taken d _ _ _ _) = absurd (added_not_removed o a d)

  pub removed-target : (o : Action) → is_removed target saved o ≡ true → o.target ≡ target
  unfolding is_removed
  removed-target o h = ground arith

  IsSafe-at :
      (i : ℕ) (os : List Action) {o : Action}
      → All (IsSafe P l r saved) os
      → action_at i os ≡ some o
      → IsSafe P l r saved o
  IsSafe-at i [] h e = absurd (ground arith)
  IsSafe-at zero (o ∷ os) h e = rw (← some-injective _ _ e) h.0
  IsSafe-at (suc i) (o ∷ os) h e = IsSafe-at i os h.1 e

  -- The two assignments of a detected rename.
  move_applied :
      (i j : ℕ) (cs : List Action) {to_o from_o to from : Action}
      → action_at i os ≡ some to_o
      → action_at j os ≡ some from_o
      → is_added target to_o ≡ true
      → is_removed target saved from_o ≡ true
      → Rel cs
      → action_at i cs ≡ some to
      → action_at j cs ≡ some from
      → has to.path (current P l r saved target) ≡ false
      → Rel (update_at j (handled to) (update_at i (renamed from) cs))
  move_applied i j cs {to_o} {from_o} {to} {from} at_i at_j added removed h to_at from_at free =
      AllBecome-update P l r saved target j (handled to) os (update_at i (renamed from) cs)
        renamed_list at_j
        (λ c e.
          let b =
            AllBecome-at P l r saved target j os (update_at i (renamed from) cs) renamed_list at_j
              e in
          taken removed (Becomes-path P l r saved target b) refl (Becomes-replace b) refl)
    where
      to_path : to.path ≡ to_o.path
      to_path =
          Becomes-path P l r saved target (AllBecome-at P l r saved target i os cs h at_i to_at)

      from_path : from.path ≡ from_o.path
      from_path =
          Becomes-path P l r saved target (AllBecome-at P l r saved target j os cs h at_j from_at)

      from_kept : PathKept P l r saved target from.path
      from_kept = rw from_path (
          subst (λ t. PathKept P l r saved t from_o.path) (removed-target from_o removed)
            (IsSafe-at j os safe at_j).kept)

      renamed_list : Rel (update_at i (renamed from) cs)
      renamed_list = AllBecome-update P l r saved target i (renamed from) os cs h at_i (λ c e.
          let b = AllBecome-at P l r saved target i os cs h at_i e in
          moved added (subst (λ p. has p (current P l r saved target) ≡ false) to_path free)
            (Becomes-path P l r saved target b) (Becomes-target added b) (Becomes-replace b) refl
            from_kept)

  pub take_move-Rel :
      (added : List MoveCandidate) (destination source : MoveCandidate) (cs : List Action)
      → Found (is_added target) 0 os destination
      → Found (is_removed target saved) 0 os source
      → Rel cs
      → Rel (take_move P (current P l r saved target) added destination source cs)
  unfolding take_move
  take_move-Rel added destination source cs (_, to_o, to_at, to_is) (_, from_o, from_at, from_is)
        h =
      elim (Bool-cases (matches_other_addition P added source.entry)) [
        | inl e ↦ rw e h
        | inr e ↦ rw e (elim (Option-cases (action_at source.index cs)) [
          | inl p ↦ rw p h
          | inr (from, p) ↦ rw p (elim (Option-cases (action_at destination.index cs)) [
            | inl q ↦ rw q h
            | inr (to, q) ↦ rw q (elim (Bool-cases (has to.path (current P l r saved target))) [
              | inl f ↦ rw f h
              | inr f ↦ rw f (
                  move_applied destination.index source.index cs (rw minus_zero at to_at)
                    (rw minus_zero at from_at) to_is from_is h q p f)
            ])
          ])
        ])
      ]

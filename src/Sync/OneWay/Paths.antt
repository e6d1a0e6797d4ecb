-- ===== src/Sync/OneWay/Paths.antt =====
-- internal/sync/model.go: what the loop of `Build` makes of its paths.
use ocis_cli.Base.{String, true, ◌||◌, List, [], ◌∷◌, Option, none, some, All}
use ocis_cli.Base.{◌≡◌, refl, arith, str_eq, count_if, inl, inr, Option-cases, is_some}
use mathlib.Core.Path.{subst}
use ocis_cli.Base.Map.{Map, lookup, has}
use ocis_cli.Base.Result.{ok, >>=-eq-ok}
use ocis_cli.Sync.Platform.{Platform}
use ocis_cli.Sync.Errors.{Direction}
use ocis_cli.Sync.Entry.{Entry, Snapshot, Record}
use ocis_cli.Sync.Pattern.{filter_snapshot}
use ocis_cli.Sync.State.{State, union_paths, saved_entries}
use ocis_cli.Sync.Action.{Action, Plan, Options, sort_actions, tally_all, new_plan}
use ocis_cli.Sync.OneWay.{
  plan_path, plan_paths, plan_missing, plan_extra, plan_both, build, build_checked,
}

module _ (P : Platform) where
  plan_both-path :
      (r : String) (s d : Entry) (b : Option Record) (o : Options)
      → (plan_both P r s d b o).path ≡ r
  unfolding plan_both
  plan_both-path r s d none o = ground arith
  plan_both-path r s d (some b) o = ground arith

  plan_path-path :
      (r : String) (s d : Option Entry) (b : Option Record) (o : Options) {a : Action}
      → plan_path P r s d b o ≡ some a
      → a.path ≡ r
  unfolding plan_path
  plan_path-path r (some s) none b o h = ground arith
  plan_path-path r none (some d) b o h = ground arith
  plan_path-path r (some s) (some d) b o h = ground (arith, plan_both-path r s d b o)
  plan_path-path r none none b o h = absurd (ground arith)

  plan_path-some :
      (r : String) (s d : Option Entry) (b : Option Record) (o : Options)
      → (is_some s || is_some d) ≡ true
      → (a : Action) × (plan_path P r s d b o ≡ some a)
  unfolding plan_path
  plan_path-some r (some s) none b o h = (plan_missing r s b o, refl)
  plan_path-some r none (some d) b o h = (plan_extra P r d b o, refl)
  plan_path-some r (some s) (some d) b o h = (plan_both P r s d b o, refl)
  plan_path-some r none none b o h = absurd (ground arith)

  module _ (source destination : Snapshot) (saved : Map Record) (o : Options) where
    -- An action is the one that `planPath` gives for its own path.
    abbrev pub IsPlanned : Action → Type 0
    IsPlanned a =
        plan_path P a.path (lookup a.path source) (lookup a.path destination) (lookup a.path saved)
          o
        ≡ some a

    plan_paths-cons :
        (k : String) (ks : List String) {actions : List Action}
        → plan_paths P source destination saved o (k ∷ ks) ≡ ok actions
        → (a : Action) × (rest : List Action) × (plan_path P k
              (lookup k source)
              (lookup k destination)
              (lookup k saved)
              o
            ≡ some a)
          × (plan_paths P source destination saved o ks ≡ ok rest)
          × (actions ≡ a ∷ rest)
    unfolding plan_paths
    plan_paths-cons k ks {actions} h =
        elim (Option-cases
          (plan_path P k (lookup k source) (lookup k destination) (lookup k saved) o)) [
            | inl e ↦ absurd (ground arith)
            | inr (a, e) ↦
                let (rest, p, q) =
                  >>=-eq-ok (plan_paths P source destination saved o ks) (λ rest. ok (a ∷ rest))
                    {result = actions} (ground arith) in
                (a, rest, e, p, ground arith)
          ]

    plan_paths-nil :
        {actions : List Action}
        → plan_paths P source destination saved o [] ≡ ok actions
        → [] ≡ actions
    unfolding plan_paths
    plan_paths-nil h = ground arith

    pub plan_paths-IsPlanned :
        (ks : List String) (actions : List Action)
        → plan_paths P source destination saved o ks ≡ ok actions
        → All IsPlanned actions
    plan_paths-IsPlanned [] actions h = subst (All IsPlanned) (plan_paths-nil h) tt
    plan_paths-IsPlanned (k ∷ ks) actions h =
        let (a, rest, e, p, q) = plan_paths-cons k ks h in
        let same : a.path ≡ k =
          plan_path-path k (lookup k source) (lookup k destination) (lookup k saved) o e in
        rw q (rw same e, plan_paths-IsPlanned ks rest p)

    pub plan_paths-count_if :
        (k : String) (ks : List String) (actions : List Action)
        → plan_paths P source destination saved o ks ≡ ok actions
        → count_if (λ a. str_eq k a.path) actions ≡ count_if (str_eq k) ks
    plan_paths-count_if k [] actions h = rw (← plan_paths-nil h)
    plan_paths-count_if k (x ∷ ks) actions h =
        let (a, rest, e, p, q) = plan_paths-cons x ks h in
        let same : a.path ≡ x =
          plan_path-path x (lookup x source) (lookup x destination) (lookup x saved) o e in
        rw q (rw same (rw (plan_paths-count_if k ks rest p)))

    plan_path_total :
        (k : String)
        → (has k source || has k destination) ≡ true
        → (a : Action) × (plan_path P k (lookup k source) (lookup k destination) (lookup k saved) o
            ≡ some a)
    plan_path_total k h =
        plan_path-some k (lookup k source) (lookup k destination) (lookup k saved) o h

    -- Paths of which each exists on a side are planned without the panic.
    pub plan_paths_total :
        (ks : List String)
        → All (λ k. (has k source || has k destination) ≡ true) ks
        → (actions : List Action) × (plan_paths P source destination saved o ks ≡ ok actions)
    unfolding plan_paths
    plan_paths_total [] h = ([], refl)
    plan_paths_total (k ∷ ks) h =
        let (a, e) = plan_path_total k h.0 in
        let (rest, p) = plan_paths_total ks h.1 in (a ∷ rest, ground (arith, e, p))

  -- What a plan that `Build` returns is made of.
  pub build-eq-ok :
      (direction : Direction) (s d : Snapshot) (previous : Option State) (o : Options) {plan : Plan}
      → build P direction s d previous o ≡ ok plan
      → (s' : Snapshot) × (d' : Snapshot) × (actions : List Action) × (filter_snapshot P s
            o.includes o.excludes
          ≡ ok s')
        × (filter_snapshot P d o.includes o.excludes ≡ ok d')
        × (plan_paths P s' d' (saved_entries previous) o (union_paths s' d') ≡ ok actions)
        × (plan ≡ tally_all (sort_actions actions) (new_plan direction (sort_actions actions)))
  unfolding build build_checked
  build-eq-ok direction s d previous o {plan} h =
      let checked : build_checked P direction s d previous o ≡ ok plan = ground arith in
      let (s', p, h₁) =
        >>=-eq-ok (filter_snapshot P s o.includes o.excludes) _ {result = plan} checked in
      let (d', q, h₂) =
        >>=-eq-ok (filter_snapshot P d o.includes o.excludes) _ {result = plan} h₁ in
      let (actions, r, h₃) =
        >>=-eq-ok (plan_paths P s' d' (saved_entries previous) o (union_paths s' d')) _
          {result = plan} h₂ in
      (s', d', actions, p, q, r, ground arith)

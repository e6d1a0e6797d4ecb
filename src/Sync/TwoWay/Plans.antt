-- ===== src/Sync/TwoWay/Plans.antt =====
-- internal/sync/bidirectional.go: what the plans of `BuildBidirectional` promise.
use ocis_cli.Base.{◌+◌, String, false, ◌||◌, List, [], ◌∷◌, ◌++◌, Option, none, some, map}
use ocis_cli.Base.{
  ◌≡◌, refl, ◌∙◌, sym, ap, arith, inl, inr, ◌⊎◌, if◌then◌else◌, str_eq, count_if, All,
}
use ocis_cli.Base.{All-mono, All-map, All-of_All, count_if-map}
use ocis_cli.Base.Map.{Map, lookup, has, keys, contains-append, contains-keys}
use ocis_cli.Base.Sets.{count_if-sorted_set}
use ocis_cli.Base.Result.{ok, err}
use ocis_cli.Sync.Platform.{Platform}
use ocis_cli.Sync.Errors.{bidirectional, unsafe_path_identity}
use ocis_cli.Sync.Entry.{Snapshot, Record}
use ocis_cli.Sync.Pattern.{filter_snapshot}
use ocis_cli.Sync.Identity.Laws.{validate_path_identity_lem, AreConfused}
use ocis_cli.Sync.State.{State, saved_entries}
use ocis_cli.Sync.Action.{
  Action, Plan, Options, sort_actions, new_plan, is_delete, is_move, is_conflict, is_transfer,
}
use ocis_cli.Sync.Action.Laws.{
  sort_actions-All, sort_actions-count_if, InOrder, sort_actions-InOrder,
}
use ocis_cli.Sync.TwoWay.{
  bidirectional_paths, bidirectional_actions, build_bidirectional, tally_bidirectional,
  tally_bidirectional_all,
}
use ocis_cli.Sync.TwoWay.Paths.{plan_bidirectional_path}
use ocis_cli.Sync.TwoWay.Subtrees.{protect_changed_subtrees, is_blocked, is_destructive_directory}
use ocis_cli.Sync.TwoWay.Moves.{detect_file_moves}
use ocis_cli.Sync.TwoWay.PathLaws.{plan_fresh, plan-PlannedWell}
use ocis_cli.Sync.TwoWay.SubtreeLaws.{PlannedAt, IsProtected, protect-All, protect-paths}
use ocis_cli.Sync.TwoWay.MoveLaws.{IsSafe}
use ocis_cli.Sync.TwoWay.MovePass.{detect-IsSafe, detect-paths}

module _ (P : Platform) (l r : Snapshot) where
  plan_one : Map Record → String → Action
  plan_one saved k = plan_bidirectional_path P k (lookup k l) (lookup k r) (lookup k saved)

  protected-IsSafe :
      (saved : Map Record) (a : Action) → IsProtected P l r saved a → IsSafe P l r saved a
  protected-IsSafe saved a ((path, kept, not_move, replaces, deletes), protected) = record {
    kept = kept;
    kept_from = inl not_move;
    replaces = replaces;
    deletes = deletes;
    protected = protected;
  }

  one-PlannedAt : (saved : Map Record) (k : String) → PlannedAt P l r saved (plan_one saved k)
  unfolding plan_one
  one-PlannedAt saved k =
      let w = plan-PlannedWell P k (lookup k l) (lookup k r) (lookup k saved) in
      (refl, rw w.0 w.1, w.2, rw w.0 w.3, w.4)

  -- With no baseline nothing is deleted or replaced.
  fresh-unblocked : (k : String) → is_blocked P l r [] (plan_one [] k) ≡ false
  unfolding plan_one is_blocked
  fresh-unblocked k =
      let gentle = plan_fresh P k (lookup k l) (lookup k r) in
      let calm : is_destructive_directory (plan_one [] k) ≡ false =
        unfold is_destructive_directory in ground (arith, gentle.0, gentle.1) in
      rw calm

  pub actions-IsSafe :
      (previous : Option State)
      → All (IsSafe P l r (saved_entries previous)) (bidirectional_actions P l r previous)
  unfolding bidirectional_actions detect_file_moves protect_changed_subtrees plan_one
  actions-IsSafe none = All-map (IsSafe P l r []) (plan_one []) (bidirectional_paths l r none) (
      All-of_All (λ k. IsSafe P l r [] (plan_one [] k)) (bidirectional_paths l r none)
        (λ k. protected-IsSafe [] (plan_one [] k) (one-PlannedAt [] k, fresh-unblocked k)))
  actions-IsSafe (some previous) =
      let saved = previous.entries in
      let paths = bidirectional_paths l r (some previous) in
      let planned = map (plan_one saved) paths in
      let well =
        All-map (PlannedAt P l r saved) (plan_one saved) paths (
          All-of_All (λ k. PlannedAt P l r saved (plan_one saved k)) paths (one-PlannedAt saved)) in
      let protected =
        All-mono (IsProtected P l r saved) (IsSafe P l r saved) _ (protected-IsSafe saved)
          (protect-All P l r previous planned well) in
      detect-IsSafe P l r previous (protect_changed_subtrees P planned l r (some previous))
        protected

  map-plan_one-paths :
      (saved : Map Record) (ks : List String)
      → map (λ (a : Action). a.path) (map (plan_one saved) ks) ≡ ks
  unfolding plan_one
  map-plan_one-paths saved [] = refl
  map-plan_one-paths saved (k ∷ ks) = cc (
    (plan-PlannedWell P k (lookup k l) (lookup k r) (lookup k saved)).0,
    map-plan_one-paths saved ks,
  )

  -- Protection and renames change no path.
  pub actions-paths :
      (previous : Option State)
      → map (λ (a : Action). a.path) (bidirectional_actions P l r previous)
        ≡ bidirectional_paths l r previous
  unfolding bidirectional_actions detect_file_moves protect_changed_subtrees plan_one
  actions-paths none = map-plan_one-paths [] (bidirectional_paths l r none)
  actions-paths (some previous) =
      let saved = previous.entries in
      let paths = bidirectional_paths l r (some previous) in
      let planned = map (plan_one saved) paths in
      let well =
        All-map (PlannedAt P l r saved) (plan_one saved) paths (
          All-of_All (λ k. PlannedAt P l r saved (plan_one saved k)) paths (one-PlannedAt saved)) in
      let protected =
        All-mono (IsProtected P l r saved) (IsSafe P l r saved) _ (protected-IsSafe saved)
          (protect-All P l r previous planned well) in
      detect-paths P l r previous (protect_changed_subtrees P planned l r (some previous)) protected
      ∙ protect-paths P l r previous planned
      ∙ map-plan_one-paths saved paths

  pub count_if-bidirectional_paths :
      (previous : Option State) (k : String)
      → count_if (str_eq k) (bidirectional_paths l r previous)
        ≡ (if has k l || has k r || has k (saved_entries previous) then 1 else 0)
  unfolding bidirectional_paths
  count_if-bidirectional_paths previous k =
      let saved = saved_entries previous in
      ground (
        arith,
        count_if-sorted_set k ((keys l ++ keys r) ++ keys saved),
        contains-append k (keys l ++ keys r) (keys saved),
        contains-append k (keys l) (keys r),
        contains-keys k l,
        contains-keys k r,
        contains-keys k saved,
      )

-- The counters, after the loop that counts.
abbrev CountsTo : Plan → List Action → Plan → Type 0
CountsTo before xs after =
    (after.actions ≡ before.actions)
    × (after.direction ≡ before.direction)
    × (after.conflicts ≡ before.conflicts + count_if (λ a. is_conflict a.action) xs)
    × (after.transfers ≡ before.transfers + count_if (λ a. is_transfer a.action) xs)
    × (after.moves ≡ before.moves + count_if (λ a. is_move a.action) xs)
    × (after.deletions ≡ before.deletions + count_if (λ a. is_delete a.action) xs)

tally-CountsTo :
    (xs : List Action) (plan : Plan) → CountsTo plan xs (tally_bidirectional_all xs plan)
unfolding tally_bidirectional_all
tally-CountsTo [] plan = ground arith
tally-CountsTo (a ∷ rest) plan = ground (arith, tally-CountsTo rest (tally_bidirectional a plan))

module _ (P : Platform) (local remote : Snapshot) (previous : Option State) (o : Options)
    {l r : Snapshot} {plan : Plan}
    (filtered_local : filter_snapshot P local o.includes o.excludes ≡ ok l)
    (filtered_remote : filter_snapshot P remote o.includes o.excludes ≡ ok r)
    (built : build_bidirectional P local remote previous o ≡ ok plan) where
  sorted : List Action
  sorted = sort_actions (bidirectional_actions P l r previous)

  plan_eq : plan ≡ tally_bidirectional_all sorted (new_plan bidirectional sorted)
  unfolding build_bidirectional sorted
  plan_eq = ground arith

  actions_eq : plan.actions ≡ sort_actions (bidirectional_actions P l r previous)
  unfolding new_plan sorted
  actions_eq = ground (arith, plan_eq, tally-CountsTo sorted (new_plan bidirectional sorted))

  -- Every action of a bidirectional plan is safe for its target side, as far as the two trees
  -- that the patterns leave go; what they leave out is not looked at. In these filtered trees:
  -- the entry that the target side has at the path, and for a rename also at the path renamed
  -- from, is missing or equals the one in the baseline; an entry is replaced by another type
  -- only where one exists; and no directory is removed or replaced below which the target side
  -- differs from the baseline.
  pub build_bidirectional-IsSafe : All (IsSafe P l r (saved_entries previous)) plan.actions
  build_bidirectional-IsSafe = rw actions_eq (
      sort_actions-All (IsSafe P l r (saved_entries previous))
        (bidirectional_actions P l r previous) (actions-IsSafe P l r previous))

  -- A bidirectional plan has exactly one action for each path that the filtered local tree, the
  -- filtered remote tree or the baseline has, and none for any other path.
  pub build_bidirectional_covers :
      (k : String)
      → count_if (λ a. str_eq k a.path) plan.actions
        ≡ (if has k l || has k r || has k (saved_entries previous) then 1 else 0)
  build_bidirectional_covers k = rw actions_eq (
      sort_actions-count_if (λ a. str_eq k a.path) (bidirectional_actions P l r previous)
      ∙ sym
          (count_if-map (str_eq k) (λ (a : Action). a.path) (bidirectional_actions P l r previous))
      ∙ ap (count_if (str_eq k)) (actions-paths P l r previous)
      ∙ count_if-bidirectional_paths P l r previous k)

  -- The counters of a bidirectional plan are the numbers of its actions of each kind.
  pub build_bidirectional_counts :
      (plan.direction ≡ bidirectional)
      × (plan.conflicts ≡ count_if (λ a. is_conflict a.action) plan.actions)
      × (plan.transfers ≡ count_if (λ a. is_transfer a.action) plan.actions)
      × (plan.moves ≡ count_if (λ a. is_move a.action) plan.actions)
      × (plan.deletions ≡ count_if (λ a. is_delete a.action) plan.actions)
  unfolding new_plan sorted
  build_bidirectional_counts =
      rw actions_eq (ground (arith, plan_eq, tally-CountsTo sorted (new_plan bidirectional sorted)))

  -- A bidirectional plan lists conflicts first, then deletions, then new directories, then
  -- transfers and renames, and then what is skipped. Among deletions a path with more slashes
  -- comes first, and among the other actions of one of these groups a path with fewer; of paths
  -- with as many slashes the smaller text comes first, so that the root precedes all paths with
  -- no slash, among deletions too.
  pub build_bidirectional-InOrder : InOrder plan.actions
  build_bidirectional-InOrder =
      rw actions_eq (sort_actions-InOrder (bidirectional_actions P l r previous))

module _ (P : Platform) (local remote : Snapshot) (previous : Option State) (o : Options)
    {l r : Snapshot} where
  -- When both filters accept the patterns, `BuildBidirectional` returns a plan, or an error that
  -- names two distinct paths of the filtered trees with one folded and normalized form.
  pub build_bidirectional_total :
      filter_snapshot P local o.includes o.excludes ≡ ok l
      → filter_snapshot P remote o.includes o.excludes ≡ ok r
      → ((plan : Plan) × (build_bidirectional P local remote previous o ≡ ok plan))
        ⊎ ((first : String) × (second : String) × (build_bidirectional P local remote previous o
              ≡ err (unsafe_path_identity first second))
            × AreConfused P (keys l ++ keys r) first second)
  unfolding build_bidirectional
  build_bidirectional_total p q =
      let sorted = sort_actions (bidirectional_actions P l r previous) in
      elim (validate_path_identity_lem P l r) [
        | inl (v, _) ↦
            inl (tally_bidirectional_all sorted (new_plan bidirectional sorted), ground arith)
        | inr (first, second, e, confused) ↦ inr (first, second, ground arith, confused)
      ]

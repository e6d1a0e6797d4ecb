-- ===== src/Sync/OneWay/Plans.antt =====
-- internal/sync/model.go: what the plans of `Build` promise.
use ocis_cli.Base.{String, true, false, ◌||◌, List, Option}
use ocis_cli.Base.{◌≡◌, ◌∙◌, sym, arith, str_eq, count_if, if◌then◌else◌, ◌⊎◌}
use ocis_cli.Base.{All, All-mono}
use ocis_cli.Base.Map.{lookup, has, All-of_contains}
use ocis_cli.Base.Result.{ok}
use ocis_cli.Sync.Platform.{Platform}
use ocis_cli.Sync.Errors.{Direction}
use ocis_cli.Sync.Entry.{Snapshot}
use ocis_cli.Sync.Pattern.{filter_snapshot}
use ocis_cli.Sync.State.{State, union_paths, saved_entries}
use ocis_cli.Sync.State.Laws.{count_if-union_paths, contains-union_paths}
use ocis_cli.Sync.Action.{
  Action, Plan, Options, sort_actions, tally_all, new_plan, is_delete, is_skip, is_conflict,
  is_transfer, is_move, is_copy,
}
use ocis_cli.Sync.Action.Laws.{
  sort_actions-All, sort_actions-count_if, tally_all-Counts, InOrder, sort_actions-InOrder,
}
use ocis_cli.Sync.OneWay.{build, build_checked, plan_paths, is_one_way}
use ocis_cli.Sync.OneWay.Paths.{
  build-eq-ok, IsPlanned, plan_paths-IsPlanned, plan_paths-count_if, plan_paths_total,
}
use ocis_cli.Sync.OneWay.Safety.{delete_extra, IsCareful, careful, IsSettled, skip_reason}

module _ (P : Platform) (direction : Direction) (source destination : Snapshot)
    (previous : Option State) (o : Options) {s d : Snapshot} {plan : Plan}
    (filtered_source : filter_snapshot P source o.includes o.excludes ≡ ok s)
    (filtered_destination : filter_snapshot P destination o.includes o.excludes ≡ ok d)
    (built : build P direction source destination previous o ≡ ok plan) where
  planned :
      (actions : List Action) × (plan_paths P s d (saved_entries previous) o (union_paths s d)
        ≡ ok actions)
      × (plan ≡ tally_all (sort_actions actions) (new_plan direction (sort_actions actions)))
  planned =
      let (s', d', actions, p, q, r, e) =
        build-eq-ok P direction source destination previous o built in
      let same_s : s' ≡ s = cc in
      let same_d : d' ≡ d = cc in (actions, rw same_s at (rw same_d at r), e)

  actions_eq : plan.actions ≡ sort_actions planned.0
  unfolding new_plan
  actions_eq =
      let e = planned.2 in
      ground (
        arith,
        tally_all-Counts (sort_actions planned.0) (new_plan direction (sort_actions planned.0)),
      )

  -- Each action of the plan is the one that `planPath` gives for its path.
  pub build-IsPlanned : All (IsPlanned P s d (saved_entries previous) o) plan.actions
  build-IsPlanned = rw actions_eq (
      sort_actions-All (IsPlanned P s d (saved_entries previous) o) planned.0 (
        plan_paths-IsPlanned P s d (saved_entries previous) o (union_paths s d) planned.0
          planned.1))

  -- A plan has exactly one action for each path that either filtered tree has, and none for any
  -- other path.
  pub build_covers :
      (k : String)
      → count_if (λ a. str_eq k a.path) plan.actions ≡ (if has k s || has k d then 1 else 0)
  build_covers k = rw actions_eq (
      sort_actions-count_if (λ a. str_eq k a.path) planned.0
      ∙ plan_paths-count_if P s d (saved_entries previous) o k (union_paths s d) planned.0 planned.1
      ∙ count_if-union_paths s d k)

  -- The counters of a plan are the numbers of its actions of each kind, and it has the direction
  -- that was asked for.
  pub build_counts :
      (plan.direction ≡ direction)
      × (plan.conflicts ≡ count_if (λ a. is_conflict a.action) plan.actions)
      × (plan.transfers ≡ count_if (λ a. is_transfer a.action) plan.actions)
      × (plan.moves ≡ count_if (λ a. is_move a.action) plan.actions)
      × (plan.copies ≡ count_if (λ a. is_copy a.action) plan.actions)
      × (plan.deletions ≡ count_if (λ a. is_delete a.action) plan.actions)
  unfolding new_plan
  build_counts =
      let e = planned.2 in
      rw actions_eq (
        ground (
          arith,
          tally_all-Counts (sort_actions planned.0) (new_plan direction (sort_actions planned.0)),
        ))

  -- Every deletion of a plan was asked for by --delete, and its path is in the filtered
  -- destination and not in the filtered source; the source may have it where the patterns leave
  -- it out.
  pub build_deletes_extra :
      All
        (λ a.
          (is_delete a.action ≡ false)
          ⊎ ((o.delete ≡ true) × (has a.path s ≡ false) × (has a.path d ≡ true)))
        plan.actions
  build_deletes_extra =
      All-mono (IsPlanned P s d (saved_entries previous) o) _ plan.actions
        (λ a e.
          delete_extra P a.path (lookup a.path s) (lookup a.path d)
            (lookup a.path (saved_entries previous)) o e)
        build-IsPlanned

  -- Without --overwrite, and for the source and the destination that the patterns leave: a plan
  -- replaces no entry by another type, and it writes over or deletes an existing destination
  -- entry only if that entry equals the one saved by the last successful run, or if no run saved
  -- the path, the filtered source lacks it and --delete is given. What the patterns leave out is
  -- not looked at.
  pub build-IsCareful :
      o.overwrite ≡ false
      → All
          (λ a.
            IsCareful P
              (lookup a.path s)
              (lookup a.path d)
              (lookup a.path (saved_entries previous))
              o
              a)
          plan.actions
  build-IsCareful k =
      All-mono (IsPlanned P s d (saved_entries previous) o) _ plan.actions
        (λ a e.
          careful P a.path (lookup a.path s) (lookup a.path d)
            (lookup a.path (saved_entries previous)) o k e)
        build-IsPlanned

  -- For the trees that the patterns leave: a plan has a skip for a path only if both sides are
  -- equal there, or if the destination alone has it and --delete is not given.
  pub build_skips :
      All
        (λ a. (is_skip a.action ≡ false) ⊎ IsSettled P (lookup a.path s) (lookup a.path d) o)
        plan.actions
  build_skips =
      All-mono (IsPlanned P s d (saved_entries previous) o) _ plan.actions
        (λ a e.
          skip_reason P a.path (lookup a.path s) (lookup a.path d)
            (lookup a.path (saved_entries previous)) o e)
        build-IsPlanned

  -- A plan lists conflicts first, then deletions, then new directories, then transfers, and then
  -- what is skipped. Among deletions a path with more slashes comes first, and among the other
  -- actions of one of these groups a path with fewer; of paths with as many slashes the smaller
  -- text comes first, so that the root precedes all paths with no slash, among deletions too.
  pub build-InOrder : InOrder plan.actions
  build-InOrder = rw actions_eq (sort_actions-InOrder planned.0)

module _ (P : Platform) (direction : Direction) (source destination : Snapshot)
    (previous : Option State) (o : Options) where
  union_present : (s d : Snapshot) → All (λ k. (has k s || has k d) ≡ true) (union_paths s d)
  union_present s d =
      All-of_contains (λ k. (has k s || has k d) ≡ true) (union_paths s d)
        (λ k h. sym (contains-union_paths s d k) ∙ h)

  -- `Build` returns a plan whenever the direction is push or pull and both filters accept the
  -- patterns: the panic of `planPath` is never reached.
  pub build_total :
      {s d : Snapshot}
      → is_one_way direction ≡ true
      → filter_snapshot P source o.includes o.excludes ≡ ok s
      → filter_snapshot P destination o.includes o.excludes ≡ ok d
      → (plan : Plan) × (build P direction source destination previous o ≡ ok plan)
  unfolding build build_checked
  build_total {s} {d} one p q =
      let (actions, r) =
        plan_paths_total P s d (saved_entries previous) o (union_paths s d) (union_present s d) in
      let sorted = sort_actions actions in
      (tally_all sorted (new_plan direction sorted), ground (arith, r))

-- ===== src/Tests/OneWay.antt =====
-- One-way plans.
use ocis_cli.Base.{String, true, false, [], ◌∷◌, none, some, ◌≡◌, refl, str_eq, str_lt}
use ocis_cli.Base.{count_if, map, All, ◌⊎◌}
use ocis_cli.Base.Result.{Result, ok, err}
use ocis_cli.Base.Map.{lookup, has, SameMap}
use ocis_cli.Base.Sets.{sorted_set, set_of, sort_strings}
use ocis_cli.Base.Sort.{sort_stable}
use ocis_cli.Sync.Errors.{push, PlanError}
use ocis_cli.Sync.Entry.{Snapshot, equal}
use ocis_cli.Sync.Pattern.{
  filter_snapshot, validate_patterns, keeps, selected, excluded, matches_any, matches,
}
use ocis_cli.GoPath.{ancestors, dir, join_slash, split_slash}
use ocis_cli.Sync.State.{union_paths}
use ocis_cli.Sync.Action.{
  Action, ActionKind, conflict, delete, transfer, skip, Plan, tally_all, new_plan, sort_actions,
  action_less, same_rank_less, action_rank, path_depth, Options,
}
use ocis_cli.Sync.OneWay.{build, build_checked, plan_paths, plan_path}
use ocis_cli.Sync.Action.{is_delete, is_skip}
use ocis_cli.Sync.Action.Laws.{InOrder}
use ocis_cli.Sync.OneWay.Safety.{IsCareful, IsSettled}
use ocis_cli.Sync.OneWay.Plans.{
  build_covers, build_deletes_extra, build-IsCareful, build_skips, build-InOrder, build_total,
}
use ocis_cli.Sync.OneWay.Determinism.{build_deterministic}
use ocis_cli.Base.{arith, str_eq_iff}
use ocis_cli.Tests.Samples.{
  file, directory, plain, source_tree, destination_tree, saved_state, careful_delete,
}

abbrev plan_of : Result PlanError Plan → Plan
plan_of (ok plan) = plan
plan_of (err e) = new_plan push []

run_plan : Plan
unfolding build build_checked plan_paths plan_path filter_snapshot validate_patterns keeps selected
    excluded matches_any matches ancestors dir join_slash split_slash union_paths sorted_set set_of
    sort_strings sort_stable tally_all new_plan sort_actions action_less same_rank_less action_rank
    path_depth equal str_eq str_lt
run_plan = plan_of (build plain push source_tree destination_tree (some saved_state) careful_delete)

run_plan_actions :
    map {B = String × ActionKind} (λ (a : Action). (a.path, a.action)) run_plan.actions
    ≡ ("both", conflict)
      ∷ ("gone/x", delete)
      ∷ ("gone", delete)
      ∷ ("kept", transfer)
      ∷ ("new", transfer)
      ∷ ("", skip)
      ∷ []
unfolding run_plan
run_plan_actions = refl

filtered_source : filter_snapshot plain source_tree [] [] ≡ ok source_tree
unfolding run_plan
filtered_source = refl

filtered_destination : filter_snapshot plain destination_tree [] [] ≡ ok destination_tree
unfolding run_plan
filtered_destination = refl

built :
    build plain push source_tree destination_tree (some saved_state) careful_delete ≡ ok run_plan
unfolding run_plan
built = refl

build_covers_example : count_if (λ a. str_eq "gone/x" a.path) run_plan.actions ≡ 1
unfolding str_eq
build_covers_example =
    build_covers plain push source_tree destination_tree (some saved_state) careful_delete
      filtered_source filtered_destination built "gone/x"

build_deletes_extra_example :
    All
      (λ a.
        (is_delete a.action ≡ false)
        ⊎ ((true ≡ true) × (has a.path source_tree ≡ false) × (has a.path destination_tree ≡ true)))
      run_plan.actions
build_deletes_extra_example =
    build_deletes_extra plain push source_tree destination_tree (some saved_state) careful_delete
      filtered_source filtered_destination built

build-IsCareful_example :
    All
      (λ a.
        IsCareful plain
          (lookup a.path source_tree)
          (lookup a.path destination_tree)
          (lookup a.path saved_state.entries)
          careful_delete
          a)
      run_plan.actions
build-IsCareful_example =
    build-IsCareful plain push source_tree destination_tree (some saved_state) careful_delete
      filtered_source filtered_destination built refl

build_skips_example :
    All
      (λ a.
        (is_skip a.action ≡ false)
        ⊎ IsSettled plain
            (lookup a.path source_tree)
            (lookup a.path destination_tree)
            careful_delete)
      run_plan.actions
build_skips_example =
    build_skips plain push source_tree destination_tree (some saved_state) careful_delete
      filtered_source filtered_destination built

build-InOrder_example : InOrder run_plan.actions
build-InOrder_example =
    build-InOrder plain push source_tree destination_tree (some saved_state) careful_delete
      filtered_source filtered_destination built

build_total_example :
    (plan : Plan) × (build plain push source_tree destination_tree (some saved_state) careful_delete
      ≡ ok plan)
build_total_example =
    build_total plain push source_tree destination_tree (some saved_state) careful_delete refl
      filtered_source filtered_destination

abbrev two_files : Snapshot
two_files = ("a", file "a" "1") ∷ ("b", file "b" "2") ∷ []

abbrev two_files_again : Snapshot
two_files_again = ("b", file "b" "2") ∷ ("a", file "a" "1") ∷ []

a_not_b : str_eq "a" "b" ≡ false
unfolding str_eq
a_not_b = refl

two_files-same : SameMap two_files two_files_again
two_files-same k = ground (arith, str_eq_iff k "a", str_eq_iff k "b", a_not_b)

build_deterministic_example :
    build plain push two_files destination_tree (some saved_state) careful_delete
    ≡ build plain push two_files_again destination_tree (some saved_state) careful_delete
build_deterministic_example =
    build_deterministic plain push two_files two_files_again destination_tree destination_tree
      (some saved_state) (some saved_state) careful_delete two_files-same (λ k. refl) (λ k. refl)

-- Only "x.txt" and "b.txt" are included; "a" is a directory on both sides.
abbrev some_files : Options
some_files = record {
  delete = true;
  overwrite = false;
  includes = "x.txt" ∷ "b.txt" ∷ [];
  excludes = [];
}

partial_plan : Plan
unfolding run_plan
partial_plan = plan_of (
    build plain push (("", directory "") ∷ ("a", directory "a") ∷ ("b.txt", file "b.txt" "b1") ∷ [])
      (("", directory "")
        ∷ ("a", directory "a")
        ∷ ("a/x.txt", file "a/x.txt" "x1")
        ∷ ("a/y.md", file "a/y.md" "y1")
        ∷ ("b.txt", file "b.txt" "b1")
        ∷ [])
      none some_files)

-- The directory is deleted with what the patterns leave out.
partial_plan_actions :
    map {B = String × ActionKind} (λ (a : Action). (a.path, a.action)) partial_plan.actions
    ≡ ("a/x.txt", delete) ∷ ("a", delete) ∷ ("", skip) ∷ ("b.txt", skip) ∷ []
unfolding run_plan partial_plan ocis_cli.Sync.Pattern.is_blank ocis_cli.Sync.Pattern.contains_slash
    ocis_cli.GoPath.base ocis_cli.Sync.Pattern.selected_by
partial_plan_actions = refl

-- The source has nothing that is included.
rootless_plan : Plan
unfolding run_plan
rootless_plan = plan_of (
    build plain push (("", directory "") ∷ [])
      (("", directory "") ∷ ("x.txt", file "x.txt" "x1") ∷ []) none some_files)

-- The root is deleted, and before the file in it.
rootless_plan_actions :
    map {B = String × ActionKind} (λ (a : Action). (a.path, a.action)) rootless_plan.actions
    ≡ ("", delete) ∷ ("x.txt", delete) ∷ []
unfolding run_plan rootless_plan ocis_cli.Sync.Pattern.is_blank ocis_cli.Sync.Pattern.contains_slash
    ocis_cli.GoPath.base ocis_cli.Sync.Pattern.selected_by
rootless_plan_actions = refl

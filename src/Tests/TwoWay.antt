-- ===== src/Tests/TwoWay.antt =====
-- Bidirectional plans.
use ocis_cli.Base.{String, true, false, List, [], ◌∷◌, ◌++◌, none, some, ◌≡◌, refl, ◌⊎◌}
use ocis_cli.Base.{map, any, All, count_if, str_eq, str_lt, ◌&&◌}
use ocis_cli.Base.Result.{Result, ok, err}
use ocis_cli.Base.Map.{lookup, keys}
use ocis_cli.Base.Sets.{sorted_set, set_of, sort_strings}
use ocis_cli.Base.Sort.{sort_stable}
use ocis_cli.GoPath.{ancestors, dir, join_slash, split_slash}
use ocis_cli.Sync.Errors.{push, bidirectional, PlanError, unsafe_path_identity}
use ocis_cli.Sync.Entry.{Snapshot, equal}
use ocis_cli.Sync.Pattern.{
  filter_snapshot, validate_patterns, keeps, selected, excluded, matches_any, matches,
}
use ocis_cli.Sync.State.{State}
use ocis_cli.Sync.Identity.{validate_path_identity, check_identities, spellings}
use ocis_cli.Sync.Identity.Laws.{AreConfused}
use ocis_cli.Sync.Action.{
  Action, ActionKind, conflict, delete, move, skip, Plan, new_plan, sort_actions, action_less,
  same_rank_less, action_rank, path_depth, Options, is_conflict, is_skip,
}
use ocis_cli.Sync.Action.Laws.{InOrder}
use ocis_cli.Sync.TwoWay.{
  bidirectional_paths, bidirectional_actions, build_bidirectional, tally_bidirectional,
  tally_bidirectional_all,
}
use ocis_cli.Sync.TwoWay.Paths.{
  plan_bidirectional_path, plan_root, plan_initial, plan_saved, propagate_change, matches_baseline,
  entries_match, opposite_side, bidirectional_action,
}
use ocis_cli.Sync.TwoWay.Subtrees.{
  protect_changed_subtrees, subtree_changed, is_blocked, is_destructive_directory, block, shield,
  conflict_parents, find_first, is_descendant, extends, after_prefix,
}
use ocis_cli.Sync.TwoWay.Moves.{
  detect_file_moves, detect_for, take_moves, take_move, removed_from, added_from, is_removed,
  is_added, matches_other_addition,
}
use ocis_cli.Sync.TwoWay.PathLaws.{plan-IsMirror, IsMirror}
use ocis_cli.Sync.TwoWay.SubtreeLaws.{protect_below}
use ocis_cli.Sync.TwoWay.MoveLaws.{IsSafe}
use ocis_cli.Sync.TwoWay.Plans.{
  build_bidirectional-IsSafe, build_bidirectional_covers, build_bidirectional-InOrder,
  build_bidirectional_total,
}
use ocis_cli.Tests.Samples.{file, directory, saved, plain, binding}

abbrev everything : Options
everything = record { delete = false; overwrite = false; includes = []; excludes = [] }

-- "old" was renamed to "new" here, "docs" was removed, and "same" is as it was.
abbrev local_tree : Snapshot
local_tree = ("", directory "") ∷ ("new", file "new" "o1") ∷ ("same", file "same" "s1") ∷ []

-- "docs/b" was added there.
abbrev remote_tree : Snapshot
remote_tree =
    ("", directory "")
    ∷ ("old", file "old" "o1")
    ∷ ("same", file "same" "s1")
    ∷ ("docs", directory "docs")
    ∷ ("docs/a", file "docs/a" "a1")
    ∷ ("docs/b", file "docs/b" "b1")
    ∷ []

abbrev baseline : State
baseline = record {
  version = 2;
  binding = binding bidirectional;
  entries =
      ("", saved (directory "") (directory ""))
      ∷ ("old", saved (file "old" "o1") (file "old" "o1"))
      ∷ ("same", saved (file "same" "s1") (file "same" "s1"))
      ∷ ("docs", saved (directory "docs") (directory "docs"))
      ∷ ("docs/a", saved (file "docs/a" "a1") (file "docs/a" "a1"))
      ∷ [];
}

abbrev plan_of : Result PlanError Plan → Plan
plan_of (ok plan) = plan
plan_of (err e) = new_plan push []

run_plan_both : Plan
unfolding build_bidirectional bidirectional_paths bidirectional_actions tally_bidirectional_all
    tally_bidirectional plan_bidirectional_path plan_root plan_initial plan_saved propagate_change
    matches_baseline entries_match opposite_side bidirectional_action protect_changed_subtrees
    subtree_changed is_blocked is_destructive_directory block shield conflict_parents find_first
    is_descendant extends after_prefix detect_file_moves detect_for take_moves take_move
    removed_from added_from is_removed is_added matches_other_addition filter_snapshot
    validate_patterns keeps selected excluded matches_any matches ancestors dir join_slash
    split_slash validate_path_identity check_identities spellings sorted_set set_of sort_strings
    sort_stable new_plan sort_actions action_less same_rank_less action_rank path_depth equal str_eq
    str_lt
run_plan_both =
    plan_of (build_bidirectional plain local_tree remote_tree (some baseline) everything)

run_plan_both_actions :
    map {B = String × ActionKind} (λ (a : Action). (a.path, a.action)) run_plan_both.actions
    ≡ ("docs", conflict)
      ∷ ("new", move)
      ∷ ("", skip)
      ∷ ("old", skip)
      ∷ ("same", skip)
      ∷ ("docs/a", skip)
      ∷ ("docs/b", skip)
      ∷ []
unfolding run_plan_both
run_plan_both_actions = refl

filtered_local : filter_snapshot plain local_tree [] [] ≡ ok local_tree
unfolding run_plan_both
filtered_local = refl

filtered_remote : filter_snapshot plain remote_tree [] [] ≡ ok remote_tree
unfolding run_plan_both
filtered_remote = refl

built_both :
    build_bidirectional plain local_tree remote_tree (some baseline) everything ≡ ok run_plan_both
unfolding run_plan_both
built_both = refl

build_bidirectional-IsSafe_example :
    All (IsSafe plain local_tree remote_tree baseline.entries) run_plan_both.actions
build_bidirectional-IsSafe_example =
    build_bidirectional-IsSafe plain local_tree remote_tree (some baseline) everything
      filtered_local filtered_remote built_both

build_bidirectional_covers_example :
    count_if (λ a. str_eq "docs/a" a.path) run_plan_both.actions ≡ 1
unfolding str_eq
build_bidirectional_covers_example =
    build_bidirectional_covers plain local_tree remote_tree (some baseline) everything
      filtered_local filtered_remote built_both "docs/a"

build_bidirectional-InOrder_example : InOrder run_plan_both.actions
build_bidirectional-InOrder_example =
    build_bidirectional-InOrder plain local_tree remote_tree (some baseline) everything
      filtered_local filtered_remote built_both

build_bidirectional_total_example :
    ((plan : Plan) × (build_bidirectional plain local_tree remote_tree (some baseline) everything
        ≡ ok plan))
    ⊎ ((first : String) × (second : String) × (build_bidirectional plain local_tree remote_tree
            (some baseline)
            everything
          ≡ err (unsafe_path_identity first second))
        × AreConfused plain (keys local_tree ++ keys remote_tree) first second)
build_bidirectional_total_example =
    build_bidirectional_total plain local_tree remote_tree (some baseline) everything filtered_local
      filtered_remote

plan-IsMirror_example :
    IsMirror plain
      (plan_bidirectional_path plain "a"
        (some (file "a" "2"))
        none
        (some (saved (file "a" "1") (file "a" "1"))))
      (plan_bidirectional_path plain "a" none
        (some (file "a" "2"))
        (some (saved (file "a" "1") (file "a" "1"))))
unfolding entries_match
plan-IsMirror_example =
    plan-IsMirror plain "a" (some (file "a" "2")) none (some (saved (file "a" "1") (file "a" "1")))
      refl

abbrev planned : List Action
planned =
    map
      (λ k.
        plan_bidirectional_path plain k (lookup k local_tree) (lookup k remote_tree)
          (lookup k baseline.entries))
      ("docs" ∷ "docs/a" ∷ [])

docs_blocked :
    any
      (λ (a : Action).
        is_blocked plain local_tree remote_tree baseline.entries a && str_eq "docs" a.path)
      planned
    ≡ true
unfolding run_plan_both
docs_blocked = refl

protect_below_example :
    All
      (λ c.
        (is_descendant c.path "docs" ≡ false)
        ⊎ (is_conflict c.action ≡ true)
        ⊎ (is_skip c.action ≡ true))
      (protect_changed_subtrees plain planned local_tree remote_tree (some baseline))
protect_below_example =
    protect_below plain local_tree remote_tree baseline planned "docs" docs_blocked

-- Only "x.txt" and "b.txt" are included. "a/x.txt" was removed here; "a/y.md" is there, and no run saved
-- it.
abbrev some_files : Options
some_files = record {
  delete = false;
  overwrite = false;
  includes = "x.txt" ∷ "b.txt" ∷ [];
  excludes = [];
}

abbrev local_part : Snapshot
local_part = ("", directory "") ∷ ("a", directory "a") ∷ ("b.txt", file "b.txt" "b1") ∷ []

abbrev remote_part : Snapshot
remote_part =
    ("", directory "")
    ∷ ("a", directory "a")
    ∷ ("a/x.txt", file "a/x.txt" "x1")
    ∷ ("a/y.md", file "a/y.md" "y1")
    ∷ ("b.txt", file "b.txt" "b1")
    ∷ []

abbrev saved_part : State
saved_part = record {
  version = 2;
  binding = binding bidirectional;
  entries =
      ("", saved (directory "") (directory ""))
      ∷ ("a", saved (directory "a") (directory "a"))
      ∷ ("a/x.txt", saved (file "a/x.txt" "x1") (file "a/x.txt" "x1"))
      ∷ ("b.txt", saved (file "b.txt" "b1") (file "b.txt" "b1"))
      ∷ [];
}

partial_plan : Plan
unfolding run_plan_both
partial_plan =
    plan_of (build_bidirectional plain local_part remote_part (some saved_part) some_files)

-- The directory "a" is deleted there, with what the patterns leave out.
partial_plan_actions :
    map {B = String × ActionKind} (λ (a : Action). (a.path, a.action)) partial_plan.actions
    ≡ ("a/x.txt", delete) ∷ ("a", delete) ∷ ("", skip) ∷ ("b.txt", skip) ∷ []
unfolding run_plan_both partial_plan ocis_cli.Sync.Pattern.is_blank
    ocis_cli.Sync.Pattern.contains_slash ocis_cli.GoPath.base ocis_cli.Sync.Pattern.selected_by
partial_plan_actions = refl

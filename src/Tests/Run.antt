-- ===== src/Tests/Run.antt =====
-- Carrying plans out.
use ocis_cli.Base.{
  String, ◌<>◌, true, false, List, [], ◌∷◌, none, some, ◌≡◌, ◌≢◌, refl, ◌⊎◌, ◌↔◌, inl,
}
use ocis_cli.Base.{All, map, if◌then◌else◌, str_eq}
use ocis_cli.Base.{arith}
use ocis_cli.Base.Int.{pos}
use ocis_cli.Base.Result.{Result, ok, err}
use ocis_cli.Sync.Errors.{push, bidirectional}
use ocis_cli.Sync.Entry.{Entry, entry_present, equal, no_entry}
use ocis_cli.Sync.Pattern.{
  filter_snapshot, validate_patterns, keeps, selected, excluded, matches_any, matches,
}
use ocis_cli.Sync.Action.{
  Action, ActionKind, delete, conflict, transfer, copy, Side, no_side, remote, Plan, new_plan,
  tally_all,
}
use ocis_cli.Sync.Action.Laws.{InOrder}
use ocis_cli.Run.Trees.{Trees, Call, changes_remote, missing}
use ocis_cli.Run.Names.{join_names, clean}
use ocis_cli.Run.Verify.{verify_remote_sync_entry, verify_remote_sync_entry_iff}
use ocis_cli.Run.Apply.{apply_sync_action, apply_sync_plan}
use ocis_cli.Run.Plans.{apply_sync_action_guarded, check_destination}
use ocis_cli.Run.Frame.{apply_sync_plan_frame, apply_sync_plan_refused}
use ocis_cli.Run.Journal.{Journal, Recoveries, new_journal, apply_bidirectional_sync_plan}
use ocis_cli.Run.Journal.Laws.{Progress, apply_bidirectional_sync_plan_recorded}
use ocis_cli.Run.Difference.{
  first_sync_snapshot_difference, differs_at, first_sync_snapshot_difference_iff,
}
use ocis_cli.Run.Conflicts.{
  Printer, Resolution, ResolveError, resolve_bidirectional_conflicts, resolve_actions,
  resolve_conflict, ensure_available, prefer_one, keep_both, losing_copy_path,
  sync_conflict_copy_path, last_dot, extension, stem,
}
use ocis_cli.GoPath.{clean_parts, is_rooted, split_slash, join_slash, ancestors, dir}
use ocis_cli.Run.Conflicts.Laws.{AllResolved, resolve_bidirectional_conflicts_keeps}
use ocis_cli.Tests.Samples.{file, plain, source_tree, destination_tree, binding}

-- A world that is the list of the calls made, the last one first. The remote tree has "old" only.
abbrev logging : Trees (List Call)
logging = record {
  remote_entry =
      λ w name relative. if str_eq name "/notes/old" then ok (file relative "o1") else err missing;
  local_entry = λ w name relative. err missing;
  perform = λ c w. (c ∷ w, ok tt);
  is_canceled = λ w. false;
  join_local = λ root relative. root <> "/" <> relative;
  relative_to = λ root target. some target;
  separator = "/";
}

abbrev planned : ActionKind → Side → String → Entry → Entry → Action
planned kind target path source destination = record {
  action = kind;
  path = path;
  from_path = "";
  target = target;
  type = "file";
  reason = "";
  replace = false;
  source = source;
  destination = destination;
}

abbrev delete_old : Action
delete_old = planned delete remote "old" no_entry (file "old" "o1")

abbrev conflict_a : Action
conflict_a = planned conflict no_side "a" (file "a" "1") (file "a" "2")

verify_remote_sync_entry_iff_example :
    (verify_remote_sync_entry plain logging [] "/notes/old" (file "old" "o1") "destination" ≡ ok tt)
    ↔ (((entry_present (file "old" "o1") ≡ true)
          × ((current : Entry) × (logging.remote_entry [] "/notes/old" "old" ≡ ok current)
              × (equal plain current (file "old" "o1") ≡ true)))
        ⊎ ((entry_present (file "old" "o1") ≡ false)
            × (logging.remote_entry [] "/notes/old" "old" ≡ err missing)))
verify_remote_sync_entry_iff_example =
    verify_remote_sync_entry_iff plain logging [] "/notes/old" (file "old" "o1") "destination"

apply_sync_action_guarded_example :
    ((apply_sync_action plain logging push "/home" "/notes" delete_old []).0 ≡ [])
    ⊎ (check_destination plain logging push "/home" "/notes" delete_old [] ≡ ok tt)
apply_sync_action_guarded_example =
    apply_sync_action_guarded plain logging push "/home" "/notes" delete_old []

apply_sync_plan_frame_example :
    All
      (λ c. changes_remote c ≡ true)
      (apply_sync_plan plain logging push "/home" "/notes" (delete_old ∷ []) []).0
apply_sync_plan_frame_example =
    apply_sync_plan_frame plain logging push "/home" "/notes" (All (λ c. changes_remote c ≡ true))
      (λ c w e q. (e, q)) (delete_old ∷ []) [] tt

conflict_plan-InOrder : InOrder (conflict_a ∷ delete_old ∷ [])
conflict_plan-InOrder = ((inl (omega arith), tt), (tt, tt))

apply_sync_plan_refused_example :
    ((apply_sync_plan plain logging push "/home" "/notes" (conflict_a ∷ delete_old ∷ []) []).0 ≡ [])
    × ((apply_sync_plan plain logging push "/home" "/notes" (conflict_a ∷ delete_old ∷ []) []).1
        ≢ ok tt)
apply_sync_plan_refused_example =
    apply_sync_plan_refused plain logging push "/home" "/notes" (conflict_a ∷ delete_old ∷ []) []
      conflict_plan-InOrder refl

first_sync_snapshot_difference_iff_example :
    (first_sync_snapshot_difference plain source_tree [] ≡ "") ↔ (
      (differs_at plain source_tree [] "" ≡ true)
      ⊎ ((k : String) → differs_at plain source_tree [] k ≡ false))
first_sync_snapshot_difference_iff_example = first_sync_snapshot_difference_iff plain source_tree []

abbrev recoveries : Recoveries (List Call)
recoveries = record { now = λ w. 0; key = λ b. "key"; save = λ j w. (w, ok tt) }

abbrev pub journal : Journal
journal = record {
  version = 1;
  id = "key";
  binding = binding bidirectional;
  max_entries = pos 10;
  started_at = 0;
  updated_at = 0;
  status = ocis_cli.Run.Journal.running;
  plan = new_plan bidirectional (delete_old ∷ []);
  completed = [];
  current = none;
  failure = "";
}

apply_bidirectional_sync_plan_recorded_example : Progress (delete_old ∷ []) [] (
    apply_bidirectional_sync_plan plain logging recoveries "/home" "/notes"
      (delete_old ∷ [])
      ([], journal))
apply_bidirectional_sync_plan_recorded_example =
    apply_bidirectional_sync_plan_recorded plain logging recoveries "/home" "/notes"
      (delete_old ∷ []) ([], journal)

abbrev pub printer : Printer
printer = record { short_hash = λ s. "0a1b2c3d"; decimal = λ n. "0" }

abbrev keep_remote : Resolution
keep_remote = record {
  conflict_strategy = "keep-both";
  prefer = "remote";
  includes = [];
  excludes = [];
}

abbrev one_conflict : Plan
one_conflict = record (new_plan bidirectional (conflict_a ∷ [])) { conflicts = 1 }

abbrev plan_of : Result ResolveError Plan → Plan
plan_of (ok plan) = plan
plan_of (err e) = new_plan push []

resolved_plan : Plan
unfolding resolve_bidirectional_conflicts resolve_actions resolve_conflict ensure_available
    prefer_one keep_both losing_copy_path sync_conflict_copy_path last_dot extension stem join_names
    clean clean_parts is_rooted split_slash join_slash filter_snapshot validate_patterns keeps
    selected excluded matches_any matches ancestors dir tally_all new_plan str_eq
resolved_plan = plan_of (
    resolve_bidirectional_conflicts printer plain source_tree destination_tree keep_remote
      one_conflict)

resolved_plan_actions :
    map {B = String × ActionKind} (λ (a : Action). (a.path, a.action)) resolved_plan.actions
    ≡ ("a.conflict-local-0a1b2c3d", copy)
      ∷ ("a.conflict-local-0a1b2c3d", transfer)
      ∷ ("a", transfer)
      ∷ []
unfolding resolved_plan
resolved_plan_actions = refl

resolved :
    resolve_bidirectional_conflicts printer plain source_tree destination_tree keep_remote
      one_conflict
    ≡ ok resolved_plan
unfolding resolved_plan
resolved = refl

resolve_bidirectional_conflicts_keeps_example :
    (resolved_plan.conflicts ≡ 0)
    × (resolved_plan.direction ≡ bidirectional)
    × AllResolved printer plain source_tree destination_tree keep_remote one_conflict.actions
        resolved_plan.actions
unfolding str_eq new_plan
resolve_bidirectional_conflicts_keeps_example =
    resolve_bidirectional_conflicts_keeps printer plain source_tree destination_tree keep_remote
      one_conflict refl refl refl resolved

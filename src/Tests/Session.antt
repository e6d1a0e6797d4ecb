-- ===== src/Tests/Session.antt =====
-- Whole runs, and the snapshots they take.
use ocis_cli.Base.{
  ◌<>◌, true, false, List, [], ◌∷◌, none, some, ◌≡◌, refl, sym, ap, ◌∙◌, arith, ◌⊎◌, ◌↔◌,
}
use ocis_cli.Base.{str_eq, str_lt}
use ocis_cli.Base.Int.{pos, ◌≤ℤ◌}
use ocis_cli.Base.Result.{ok, err}
use ocis_cli.Base.Sort.{sort_stable}
use ocis_cli.Base.Sets.{sorted_set, sort_strings, set_of}
use ocis_cli.Sync.TwoWay.Subtrees.{find_first}
use ocis_cli.GoPath.{split_slash, ancestors, dir}
use ocis_cli.Sync.Errors.{bidirectional}
use ocis_cli.Sync.Entry.{Snapshot, converged}
use ocis_cli.Sync.State.{State, union_paths}
use ocis_cli.Sync.Pattern.{
  is_blank, filter_snapshot, validate_patterns, keeps, selected, excluded, matches_any,
}
use ocis_cli.Run.Trees.{Trees, missing}
use ocis_cli.Run.Journal.{Recoveries}
use ocis_cli.Run.Difference.{first_sync_snapshot_difference}
use ocis_cli.Run.Request.{Request, Prepared, validate_sync_request}
use ocis_cli.Run.Request.Laws.{validate_sync_request_iff, IsOneWayPolicy, IsTwoWayPolicy}
use ocis_cli.Run.Snapshots.Laws.{IsBounded, snapshot_remote-IsBounded, snapshot_local-IsBounded}
use ocis_cli.Run.Snapshots.{
  LocalVisit, visited, LocalItem, local_directory, local_regular, RemoteItem, RemoteNode, node,
  listed, no_nodes, RemoteText, snapshot_local, snapshot_remote, put, run_visits, remote_sync_entry,
}
use ocis_cli.Run.Session.Collect.{
  Session, collect_two_way, filter_both, local_snapshot, remote_snapshot,
}
use ocis_cli.Run.Session.{run_prepared_sync}
use ocis_cli.Run.Session.TwoWay.{run_two_way}
use ocis_cli.Run.Session.Laws.{Baseline, run_two_way-saves_converged}
use ocis_cli.Run.Session.Dry.{run_prepared_sync-dry}
use ocis_cli.Tests.Samples.{file, plain, directory}
use ocis_cli.Tests.Run.{printer}

-- A world that is the list of the states saved. Its trees never change: "a" stands in the local one,
-- and nothing in the remote one.
abbrev pub unchanging : Trees (List State)
unchanging = record {
  remote_entry = λ w name relative. err missing;
  local_entry = λ w name relative. ok (file "a" "1");
  perform = λ c w. (w, ok tt);
  is_canceled = λ w. false;
  join_local = λ root relative. root <> "/" <> relative;
  relative_to = λ root target. some target;
  separator = "/";
}

abbrev pub recoveries : Recoveries (List State)
recoveries = record { now = λ w. 0; key = λ b. "key"; save = λ j w. (w, ok tt) }

abbrev folder : LocalItem
folder = record {
  relative = ".";
  modified = "";
  kind = local_directory;
  size = pos 0;
  checksum = ok "";
}

abbrev local_a : LocalItem
local_a = record {
  relative = "a";
  modified = "";
  kind = local_regular;
  size = pos 3;
  checksum = ok "1";
}

abbrev visits : List LocalVisit
visits = visited folder ∷ visited local_a ∷ []

abbrev remote_folder : RemoteItem
remote_folder = record {
  name = "notes";
  type = "directory";
  size = pos 0;
  last_modified = "";
  etag = "";
  checksums = [];
}

abbrev remote_node : RemoteNode
remote_node = node remote_folder (listed no_nodes)

abbrev text : RemoteText
text = record { to_lower = λ s. s; http_modified = λ s. none }

abbrev pub session : Session (List State)
session = record {
  profile_name = "default";
  account_id = "ada";
  space_id = "";
  load_state = λ w key. ok none;
  save_state = λ key s w. (s ∷ w, ok tt);
  delete_journal = λ key w. (w, ok tt);
  local_root = λ w name. ok true;
  local_visits = λ w name. visits;
  remote_root = λ w name. ok remote_node;
  text = text;
}

abbrev request : Request
request = record {
  direction = bidirectional;
  local_root = "/home/ada/notes";
  remote_root = "/notes";
  includes = [];
  excludes = [];
  delete = false;
  overwrite = false;
  dry_run = false;
  max_entries = pos 10;
  conflict_strategy = "";
  prefer = "";
}

abbrev prepared : Prepared
prepared = record {
  request = request;
  direction = bidirectional;
  local_root = "/home/ada/notes";
  remote_root = "/notes";
}

abbrev dry : Prepared
dry = record prepared { request = record request { dry_run = true } }

abbrev trees : Snapshot × Snapshot
trees = ((("", directory "") ∷ ("a", file "a" "1") ∷ []), ("", directory "") ∷ [])

collected :
    (w : List State)
    → collect_two_way plain unchanging session "/home/ada/notes" "/notes" (pos 10) w ≡ ok trees
unfolding collect_two_way local_snapshot remote_snapshot snapshot_local snapshot_remote str_eq put
    run_visits sort_stable remote_sync_entry
collected w = refl

filtered : filter_both plain unchanging session request trees ≡ ok trees
unfolding filter_both filter_snapshot validate_patterns keeps selected excluded str_eq ancestors
    matches_any split_slash dir
filtered = refl

differ : first_sync_snapshot_difference plain trees.0 trees.1 ≡ "a"
unfolding first_sync_snapshot_difference str_eq find_first union_paths sorted_set sort_strings
    sort_stable set_of str_lt converged
differ = refl

never_equal :
    (l r : Snapshot) (w : List State) → Baseline plain unchanging session prepared w l r → ⊥
never_equal l r w b =
    let e : b.after ≡ trees = cc (b.collected, collected w) in
    let f : (l, r) ≡ trees = cc (rw e at b.filtered, filtered) in
    let d : "" ≡ "a" =
      sym b.equal
      ∙ ap (λ ((x, y) : Snapshot × Snapshot). first_sync_snapshot_difference plain x y) f
      ∙ differ in
    cc d

run_two_way-saves_converged_example :
    (run_two_way plain unchanging recoveries session printer prepared []).0 ≡ []
run_two_way-saves_converged_example =
    run_two_way-saves_converged plain unchanging recoveries session printer prepared (λ w. w ≡ [])
      (λ c w q. q) (λ j w q. q) (λ id w q. q) (λ l r w b q. absurd (never_equal l r w b)) [] refl

run_prepared_sync-dry_example :
    (run_prepared_sync plain unchanging recoveries session printer dry []).0 ≡ []
run_prepared_sync-dry_example =
    run_prepared_sync-dry plain unchanging recoveries session printer dry refl []

validate_sync_request_iff_example : (validate_sync_request request ≡ ok bidirectional) ↔ (
    (is_blank "/home/ada/notes" ≡ false)
    × (is_blank "/notes" ≡ false)
    × (pos 1 ≤ℤ pos 10)
    × (IsOneWayPolicy request ⊎ IsTwoWayPolicy request))
validate_sync_request_iff_example = validate_sync_request_iff request

ten : pos 1 ≤ℤ pos 10
ten = omega arith

remote_taken :
    snapshot_remote plain text false (pos 10) (ok remote_node) "/notes" true
    ≡ ok (("", directory "") ∷ [])
unfolding snapshot_remote str_eq put run_visits sort_stable remote_sync_entry
remote_taken = refl

snapshot_remote-IsBounded_example : IsBounded (pos 10) (("", directory "") ∷ [])
snapshot_remote-IsBounded_example =
    snapshot_remote-IsBounded (pos 10) plain text false (ok remote_node) "/notes" true ten
      remote_taken

local_taken : snapshot_local false (ok true) visits "/home/ada/notes" true (pos 10) ≡ ok trees.0
unfolding snapshot_local str_eq put
local_taken = refl

snapshot_local-IsBounded_example : IsBounded (pos 10) trees.0
snapshot_local-IsBounded_example =
    snapshot_local-IsBounded (pos 10) false (ok true) visits "/home/ada/notes" true ten local_taken

-- ===== src/Tests/Jobs.antt =====
-- Named jobs, and the identifiers of states.
use ocis_cli.Base.{
  String, true, false, List, [], ◌∷◌, some, ◌≡◌, refl, ◌∙◌, str_eq, Bool-cases, inl, inr,
}
use ocis_cli.Base.Int.{pos}
use ocis_cli.Base.Map.{lookup}
use ocis_cli.Base.Result.{ok, err}
use ocis_cli.Sync.Errors.{push}
use ocis_cli.Sync.State.{State}
use ocis_cli.Run.Trees.{call_failed}
use ocis_cli.Run.Names.{trim, clean_remote}
use ocis_cli.GoPath.{clean_parts, is_rooted, split_slash}
use ocis_cli.Sync.Pattern.{is_space, is_blank, normalize_patterns, validate_patterns, sorted_unique}
use ocis_cli.Base.Sets.{sort_strings}
use ocis_cli.Base.Sort.{sort_stable}
use ocis_cli.Run.Snapshots.{put}
use ocis_cli.Run.Request.{prepare_sync_request, Prepared, is_bidirectional}
use ocis_cli.Run.Session.Collect.{Session, reading}
use ocis_cli.Run.Session.{run_prepared_sync}
use ocis_cli.Run.Session.OneWay.{run_one_way}
use ocis_cli.Run.Session.TwoWay.{run_two_way}
use ocis_cli.Run.Ids.{resolve_sync_state_id, unique_sync_state_id, is_key, byte_length, trims_away}
use ocis_cli.Run.Ids.Laws.{resolve_sync_state_id_unique}
use ocis_cli.Run.Jobs.Store.{Job, check_store, load_jobs, empty_store}
use ocis_cli.Run.Jobs.Commands.{
  calling, checking, JobRequest, Services, add_sync_job, find_sync_job, with_job, execute_sync_job,
}
use ocis_cli.Run.Jobs.Laws.{add_sync_job-find}
use ocis_cli.Run.Jobs.Guards.{execute_sync_job-bound}
use ocis_cli.Run.Recovery.{Journals, remove_sync_recovery}
use ocis_cli.Run.Recovery.Laws.{Removes, remove_sync_recovery-Removes}
use ocis_cli.Sync.TwoWay.Subtrees.{after_prefix}
use ocis_cli.Tests.Samples.{plain}
use ocis_cli.Tests.Run.{printer, journal}
use ocis_cli.Tests.Session.{unchanging, recoveries, session}

abbrev first_key : String
first_key = "0123456789abcdef0123456789abcdef0123456789abcdef0123456789abcdef"

-- It has the first 12 digits of the other.
abbrev second_key : String
second_key = "0123456789ab0000000000000000000000000000000000000000000000000000"

abbrev both_keys : List String
both_keys = first_key ∷ second_key ∷ []

first-IsKey : is_key first_key ≡ true
unfolding is_key byte_length trims_away trim str_eq
first-IsKey = refl

second-IsKey : is_key second_key ≡ true
unfolding is_key byte_length trims_away trim str_eq
second-IsKey = refl

resolve_sync_state_id_unique_example :
    resolve_sync_state_id (λ s. s) (ok both_keys) (unique_sync_state_id first_key both_keys)
    ≡ ok first_key
unfolding str_eq
resolve_sync_state_id_unique_example =
    resolve_sync_state_id_unique (λ s. s) (λ s h. refl) first_key both_keys
      (first-IsKey, (second-IsKey, tt)) first-IsKey refl refl

-- The store of the states cannot be read.
abbrev broken : Session (List State)
broken = record session { load_state = λ w key. err (call_failed "read") }

abbrev services : Services (List State)
services = record {
  connect =
      λ profile w. (w, ok (record { profile_name = profile; account_id = "ada"; space_id = "" }));
  select_space = λ client space w. (w, ok space);
  write = λ store w. (w, ok tt);
  absolute = λ name. ok name;
  is_absolute = λ name. true;
  trees = λ client. unchanging;
  session = λ client. broken;
}

abbrev photos : JobRequest
photos = record {
  name = "photos";
  profile = "default";
  space = "";
  direction = push;
  local_root = "/home/ada/photos";
  remote_root = "/photos";
  includes = [];
  excludes = [];
  delete_destination = true;
  overwrite = false;
  max_entries = pos 1000;
  confirmed = false;
  dry_run = false;
}

abbrev photos_job : Job
photos_job = record {
  name = "photos";
  profile = "default";
  account_id = "ada";
  space_id = "";
  direction = push;
  local_root = "/home/ada/photos";
  remote_root = "/photos";
  includes = [];
  excludes = [];
  delete = true;
  overwrite = false;
  max_entries = pos 1000;
}

empty-checked : check_store plain (λ name. true) empty_store ≡ ok tt
unfolding check_store empty_store
empty-checked = refl

photos_added : (add_sync_job plain services photos empty_store []).1 ≡ ok photos_job
unfolding add_sync_job empty_store checking prepare_sync_request is_blank str_eq normalize_patterns
    validate_patterns calling clean_remote clean_parts is_rooted split_slash sorted_unique
    sort_strings sort_stable put
photos_added = refl

add_sync_job-find_example :
    ((w₀ : List State) × ((add_sync_job plain services photos empty_store []).0
        ≡ (services.write (with_job photos_job empty_store) w₀).0))
    × (load_jobs plain (λ name. true) (ok (some (with_job photos_job empty_store)))
        ≡ ok (with_job photos_job empty_store))
    × (find_sync_job "photos" (with_job photos_job empty_store) ≡ ok photos_job)
    × ((k : String)
        → str_eq k "photos" ≡ false
        → lookup k (with_job photos_job empty_store).jobs ≡ lookup k empty_store.jobs)
add_sync_job-find_example =
    add_sync_job-find plain services photos empty_store [] empty-checked photos_added

run_stops :
    (prepared : Prepared) (w : List State)
    → (run_prepared_sync plain unchanging recoveries broken printer prepared w).0 ≡ w
unfolding run_prepared_sync run_one_way run_two_way str_eq reading
run_stops prepared w = elim (Bool-cases (is_bidirectional prepared.direction)) [
  | inl e ↦ rw (e, run_prepared_sync) refl
  | inr e ↦ rw (e, run_prepared_sync) refl
]

execute_sync_job-bound_example :
    (execute_sync_job plain services recoveries printer photos photos_job []).0 ≡ []
execute_sync_job-bound_example =
    execute_sync_job-bound plain services recoveries printer photos_job (λ w. w ≡ [])
      (λ profile w q. q) (λ client space w q. q)
      (λ prepared client w a s q. run_stops prepared w ∙ q) photos [] refl

-- The world is the list of the journals deleted; the one journal there is is kept under the first key.
abbrev one_journal : Journals (List String)
one_journal = record {
  list_keys = λ w. ok both_keys;
  load = λ w key. ok (some (record journal { id = key }));
  delete = λ key w. (key ∷ w, ok true);
}

remove_sync_recovery-Removes_example :
    Removes
      (λ s. s)
      one_journal
      "0123456789abcd"
      true
      false
      []
      (remove_sync_recovery (λ s. s) one_journal "0123456789abcd" true false [])
remove_sync_recovery-Removes_example =
    remove_sync_recovery-Removes (λ s. s) one_journal "0123456789abcd" true false []

journal_removed :
    (remove_sync_recovery (λ s. s) one_journal "0123456789abcd" true false []).0 ≡ first_key ∷ []
unfolding remove_sync_recovery str_eq ocis_cli.Run.Recovery.checking is_space after_prefix
    ocis_cli.Run.Recovery.calling
journal_removed = refl

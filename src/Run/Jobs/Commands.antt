-- ===== src/Run/Jobs/Commands.antt =====
-- internal/app/sync/job.go: adding, finding, running and removing a job.
use ocis_cli.Base.{String, Bool, true, false, not, ◌&&◌, List, none, some, if◌then◌else◌, str_eq}
use ocis_cli.Base.Int.{ℤ}
use ocis_cli.Base.Map.{lookup, has, keep_keys}
use ocis_cli.Base.Result.{Result, ok, err, map_err}
use ocis_cli.Sync.Platform.{Platform}
use ocis_cli.Sync.Errors.{Direction}
use ocis_cli.Run.Trees.{Trees, Failure, Outcome}
use ocis_cli.Run.Journal.{Recoveries}
use ocis_cli.Run.Conflicts.{Printer}
use ocis_cli.Run.Snapshots.{put}
use ocis_cli.Run.Request.{Request, RequestError, Prepared, prepare_sync_request}
use ocis_cli.Run.Session.Collect.{Session, RunError, SyncResult}
use ocis_cli.Run.Session.{run_prepared_sync}
use ocis_cli.Run.Jobs.Store.{
  Job, JobStore, JobFault, bad_name, is_valid_name, validate_job, save_jobs,
}

pub record JobRequest : Type 0 where
  pub name : String
  pub profile : String
  pub space : String
  pub direction : Direction
  pub local_root : String
  pub remote_root : String
  pub includes : List String
  pub excludes : List String
  pub delete_destination : Bool
  pub overwrite : Bool
  pub max_entries : ℤ
  pub confirmed : Bool
  pub dry_run : Bool

-- A client that is signed in, with the Space that is selected.
pub record Client : Type 0 where
  pub profile_name : String
  pub account_id : String
  pub space_id : String

pub data JobError : Type 0 where
  refused : JobFault → JobError
  exists_already unknown_job : String → JobError
  request_refused : RequestError → JobError
  client_failed space_unavailable : Failure → JobError
  not_signed_in other_profile space_given other_account other_space unconfirmed : JobError
  run_failed : RunError → JobError

-- Signing in and selecting a Space, which can change the world, the file of the jobs, `filepath.Abs` and
-- `filepath.IsAbs`, and what a run with a client works on.
pub record Services (World : Type 0) : Type 0 where
  pub connect : String → World → World × Result Failure Client
  -- The identifier of the Space that the client has selected then.
  pub select_space : Client → String → World → World × Result Failure String
  pub write : JobStore → World → Outcome World
  pub absolute : String → Result Failure String
  pub is_absolute : String → Bool
  pub trees : Client → Trees World
  pub session : Client → Session World

-- `if err != nil { return err }` behind a call, and behind a check.
unfoldable pub calling :
    {World E A B : Type 0}
    → World × Result E A
    → (E → JobError)
    → (World → A → World × Result JobError B)
    → World × Result JobError B
calling (w, err e) wrap next = (w, err (wrap e))
calling (w, ok a) wrap next = next w a

unfoldable pub checking :
    {World A B : Type 0}
    → Result JobError A
    → World
    → (A → World × Result JobError B)
    → World × Result JobError B
checking (err e) w next = (w, err e)
checking (ok a) w next = next a

-- `findSyncJob`
unfoldable pub find_sync_job : String → JobStore → Result JobError Job
unfolding is_valid_name
find_sync_job name store =
    if not (is_valid_name name)
    then err (refused bad_name)
    else elim (lookup name store.jobs) [ none ↦ err (unknown_job name) | some job ↦ ok job ]

-- `store.Jobs[job.Name] = job` and `delete(store.Jobs, job.Name)`, on a copy.
abbrev pub with_job : Job → JobStore → JobStore
with_job job store = record store { jobs = put job.name job store.jobs }

abbrev pub without_job : String → JobStore → JobStore
without_job name store = record store { jobs = keep_keys (λ k. not (str_eq k name)) store.jobs }

-- The request that adds a job, and the one that runs it.
abbrev pub request_to_add : JobRequest → Request
request_to_add r = record {
  direction = r.direction;
  local_root = r.local_root;
  remote_root = r.remote_root;
  includes = r.includes;
  excludes = r.excludes;
  delete = r.delete_destination;
  overwrite = r.overwrite;
  dry_run = false;
  max_entries = r.max_entries;
  conflict_strategy = "";
  prefer = "";
}

abbrev pub request_to_run : Bool → Job → Request
request_to_run dry_run job = record {
  direction = job.direction;
  local_root = job.local_root;
  remote_root = job.remote_root;
  includes = job.includes;
  excludes = job.excludes;
  delete = job.delete;
  overwrite = job.overwrite;
  dry_run = dry_run;
  max_entries = job.max_entries;
  conflict_strategy = "";
  prefer = "";
}

abbrev pub job_of : JobRequest → Prepared → Client → Job
job_of r prepared client = record {
  name = r.name;
  profile = client.profile_name;
  account_id = client.account_id;
  space_id = client.space_id;
  direction = prepared.direction;
  local_root = prepared.local_root;
  remote_root = prepared.remote_root;
  includes = prepared.request.includes;
  excludes = prepared.request.excludes;
  delete = r.delete_destination;
  overwrite = r.overwrite;
  max_entries = r.max_entries;
}

module _ (P : Platform) {World : Type 0} (C : Services World) where
  -- `addSyncJob`, behind the checks: the job is bound to the account, checked and saved.
  unfoldable pub save_new_job :
      JobRequest → JobStore → Prepared → Client → World → World × Result JobError Job
  unfolding validate_job save_jobs
  save_new_job r store prepared client w =
      if str_eq client.account_id ""
      then (w, err not_signed_in)
      else let job = job_of r prepared client in
        checking (map_err refused (validate_job P C.is_absolute job)) w (λ _.
          calling (save_jobs P C.is_absolute C.write (with_job job store) w) refused
            (λ w₁ _. (w₁, ok job)))

  unfoldable pub add_sync_job : JobRequest → JobStore → World → World × Result JobError Job
  unfolding save_new_job is_valid_name
  add_sync_job r store w =
      if not (is_valid_name r.name)
      then (w, err (refused bad_name))
      else if has r.name store.jobs
      then (w, err (exists_already r.name))
      else checking (map_err request_refused (prepare_sync_request P C.absolute (request_to_add r)))
          w
          (λ prepared. calling (C.connect r.profile w) client_failed (λ w₁ client.
            calling (C.select_space client r.space w₁) client_failed
              (λ w₂ space. save_new_job r store prepared (record client { space_id = space }) w₂)))

  -- `removeSyncJob`: the name, and whether the job was removed.
  unfoldable pub remove_sync_job :
      JobRequest → JobStore → World → World × Result JobError (String × Bool)
  unfolding find_sync_job save_jobs
  remove_sync_job r store w =
      if not r.confirmed && not r.dry_run
      then (w, err unconfirmed)
      else checking (find_sync_job r.name store) w (λ job.
        if not r.dry_run
        then calling (save_jobs P C.is_absolute C.write (without_job job.name store) w) refused
            (λ w₁ _. (w₁, ok (job.name, true)))
        else (w, ok (job.name, false)))

  module _ (R : Recoveries World) (H : Printer) where
    -- The end of `executeSyncJob`: the Space is the job's, and the run starts.
    unfoldable pub start_job : Prepared → Job → Client → World → World × Result JobError SyncResult
    start_job prepared job client w =
        if not (str_eq client.space_id job.space_id)
        then (w, err other_space)
        else calling (run_prepared_sync P (C.trees client) R (C.session client) H prepared w)
            run_failed (λ w₁ result. (w₁, ok result))

    unfoldable pub execute_sync_job : JobRequest → Job → World → World × Result JobError SyncResult
    unfolding start_job
    execute_sync_job r job w =
        if not (str_eq r.profile "") && not (str_eq r.profile job.profile)
        then (w, err other_profile)
        else if not (str_eq r.space "")
        then (w, err space_given)
        else checking
            (map_err request_refused
              (prepare_sync_request P C.absolute (request_to_run r.dry_run job)))
            w
            (λ prepared. calling (C.connect job.profile w) client_failed (λ w₁ client.
              if not (str_eq client.account_id job.account_id)
              then (w₁, err other_account)
              else if not (str_eq job.space_id "")
              then calling (C.select_space client job.space_id w₁) space_unavailable
                  (λ w₂ space. start_job prepared job (record client { space_id = space }) w₂)
              else start_job prepared job client w₁))

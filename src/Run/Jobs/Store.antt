-- ===== src/Run/Jobs/Store.antt =====
-- internal/syncjob/store.go: a job, the document of all jobs, and the checks of both.
use Prim.Native.Char.{Char, code}
use ocis_cli.Base.{
  ℕ, ◌≤◌, String, Bool, true, false, not, ◌&&◌, ◌||◌, List, [], ◌∷◌, Option, none, some,
  if◌then◌else◌,
}
use ocis_cli.Base.{str_eq, leb, ◌==◌, length}
use ocis_cli.Base.Int.{ℤ, pos, ltb_ℤ}
use ocis_cli.Base.Map.{Map}
use ocis_cli.Base.Result.{Result, ok, err, map_err, ◌>>=◌}
use ocis_cli.GoPath.{is_rooted}
use ocis_cli.Sync.Platform.{Platform}
use ocis_cli.Sync.Errors.{Direction, push, pull, bidirectional, other, PlanError}
use ocis_cli.Sync.Pattern.{normalize_patterns}
use ocis_cli.Run.Trees.{Failure, Outcome}
use ocis_cli.Run.Names.{clean}
use ocis_cli.Run.Names.Trim.{all_chars}

pub record Job : Type 0 where
  pub name : String
  pub profile : String
  pub account_id : String
  pub space_id : String
  pub direction : Direction
  pub local_root : String
  pub remote_root : String
  pub includes : List String
  pub excludes : List String
  pub delete : Bool
  pub overwrite : Bool
  pub max_entries : ℤ

-- `Store`
pub record JobStore : Type 0 where
  pub version : ℕ
  pub jobs : Map Job

abbrev pub store_version : ℕ
store_version = 1

unfoldable pub empty_store : JobStore
empty_store = record { version = store_version; jobs = [] }

-- Why a job, or a document of jobs, is refused.
pub data JobFault : Type 0 where
  bad_name no_profile no_account bad_direction local_not_absolute remote_not_normal too_few :
      JobFault
  bad_pattern : PlanError → JobFault
  -- The name in the document, and what is wrong with the job; or the name that the job has.
  invalid_job : String → JobFault → JobFault
  misnamed : String → String → JobFault
  bad_version : ℕ → JobFault
  unreadable unwritable : Failure → JobFault

abbrev is_alnum : Char → Bool
is_alnum c =
    (leb b'0' (code c) && leb (code c) b'9')
    || (leb b'A' (code c) && leb (code c) b'Z')
    || (leb b'a' (code c) && leb (code c) b'z')

abbrev is_name_char : Char → Bool
is_name_char c = is_alnum c || code c == b'.' || code c == b'_' || code c == b'-'

abbrev char_count : String → ℕ
char_count String.[] = 0
char_count (String.◌∷◌ c s) = ocis_cli.Base.suc (char_count s)

-- `^[A-Za-z0-9][A-Za-z0-9._-]{0,63}$`
unfoldable pub is_valid_name : String → Bool
unfolding all_chars
is_valid_name String.[] = false
is_valid_name (String.◌∷◌ c s) = is_alnum c && all_chars is_name_char s && leb (char_count s) 63

abbrev pub is_known : Direction → Bool
is_known push = true
is_known pull = true
is_known bidirectional = true
is_known (other text) = false

-- The end of `Save`.
unfoldable pub written : {World : Type 0} → Outcome World → World × Result JobFault (Unit {0})
written (w₁, err f) = (w₁, err (unwritable f))
written (w₁, ok _) = (w₁, ok tt)

-- `filepath.IsAbs` is a parameter.
module _ (P : Platform) (is_absolute : String → Bool) where
  -- `Validate`
  unfoldable pub validate_job : Job → Result JobFault (Unit {0})
  unfolding is_valid_name clean
  validate_job job =
      if not (is_valid_name job.name)
      then err bad_name
      else if str_eq job.profile ""
      then err no_profile
      else if str_eq job.account_id ""
      then err no_account
      else if not (is_known job.direction)
      then err bad_direction
      else if not (is_absolute job.local_root)
      then err local_not_absolute
      else if str_eq job.remote_root ""
          || not (is_rooted job.remote_root)
          || not (str_eq (clean job.remote_root) job.remote_root)
      then err remote_not_normal
      else if ltb_ℤ job.max_entries (pos 1)
      then err too_few
      else map_err bad_pattern (normalize_patterns P job.includes job.excludes) >>= λ _. ok tt

  -- One round of the loop of `Load` and of `Save`.
  unfoldable pub check_job : String → Job → Result JobFault (Unit {0})
  unfolding validate_job
  check_job name job = map_err (invalid_job name) (validate_job job) >>= λ _.
      if not (str_eq name job.name) then err (misnamed name job.name) else ok tt

  unfoldable pub check_jobs : Map Job → Result JobFault (Unit {0})
  unfolding check_job
  check_jobs [] = ok tt
  check_jobs ((name, job) ∷ later) = check_job name job >>= λ _. check_jobs later

  unfoldable pub check_store : JobStore → Result JobFault (Unit {0})
  unfolding check_jobs
  check_store store =
      if not (store.version == store_version)
      then err (bad_version store.version)
      else check_jobs store.jobs

  -- `Load`, of the document that the file holds; `none` is a file that does not exist.
  unfoldable pub load_jobs : Result Failure (Option JobStore) → Result JobFault JobStore
  unfolding check_store empty_store
  load_jobs (err f) = err (unreadable f)
  load_jobs (ok none) = ok empty_store
  load_jobs (ok (some store)) = check_store store >>= λ _. ok store

  -- `Save`; the replacement of the file is a parameter.
  unfoldable pub save_jobs :
      {World : Type 0}
      → (JobStore → World → Outcome World)
      → JobStore
      → World
      → World × Result JobFault (Unit {0})
  unfolding check_store written
  save_jobs write store w = elim (check_store store) [
    | err f ↦ (w, err f)
    | ok _ ↦ written (write store w)
  ]

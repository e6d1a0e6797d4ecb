-- ===== src/Run/Request.antt =====
-- internal/app/sync/service.go: `validateSyncRequest` and `prepareSyncRequest`.
pub mod Laws
use ocis_cli.Base.{String, Bool, true, false, not, ◌&&◌, ◌||◌, List, if◌then◌else◌, str_eq}
use ocis_cli.Base.Int.{ℤ, pos, ltb_ℤ}
use ocis_cli.Base.Result.{Result, ok, err, map_err, ◌>>=◌}
use ocis_cli.Sync.Platform.{Platform}
use ocis_cli.Sync.Errors.{Direction, push, pull, bidirectional, other, PlanError}
use ocis_cli.Sync.Pattern.{is_blank, normalize_patterns}
use ocis_cli.Run.Trees.{Failure}
use ocis_cli.Run.Names.{clean_remote}

pub record Request : Type 0 where
  pub direction : Direction
  pub local_root : String
  pub remote_root : String
  pub includes : List String
  pub excludes : List String
  pub delete : Bool
  pub overwrite : Bool
  pub dry_run : Bool
  pub max_entries : ℤ
  pub conflict_strategy : String
  pub prefer : String

-- Why a request is refused. All but `bad_root` are usage errors.
pub data RequestError : Type 0 where
  unknown_direction : String → RequestError
  local_required remote_required too_few_entries strategy_one_way policy_two_way : RequestError
  prefer_unused prefer_required : RequestError
  unknown_strategy : String → RequestError
  bad_pattern : PlanError → RequestError
  bad_root : Failure → RequestError

abbrev pub is_bidirectional : Direction → Bool
is_bidirectional bidirectional = true
is_bidirectional _ = false

-- `strategy`
abbrev pub strategy_of : Request → String
strategy_of r = if str_eq r.conflict_strategy "" then "abort" else r.conflict_strategy

-- The last switch.
unfoldable pub check_strategy : Request → Result RequestError Direction
check_strategy r =
    if str_eq (strategy_of r) "abort"
    then (if not (str_eq r.prefer "") then err prefer_unused else ok r.direction)
    else if str_eq (strategy_of r) "keep-both"
    then (if not (str_eq r.prefer "local") && not (str_eq r.prefer "remote")
        then err prefer_required
        else ok r.direction)
    else err (unknown_strategy (strategy_of r))

-- The checks behind the direction.
unfoldable pub check_request : Request → Result RequestError Direction
unfolding check_strategy
check_request r =
    if is_blank r.local_root
    then err local_required
    else if is_blank r.remote_root
    then err remote_required
    else if ltb_ℤ r.max_entries (pos 1)
    then err too_few_entries
    else if not (is_bidirectional r.direction)
        && (not (str_eq r.conflict_strategy "") || not (str_eq r.prefer ""))
    then err strategy_one_way
    else if is_bidirectional r.direction && (r.delete || r.overwrite)
    then err policy_two_way
    else check_strategy r

unfoldable pub validate_sync_request : Request → Result RequestError Direction
unfolding check_request
validate_sync_request r = elim r.direction [
  | push ↦ check_request r
  | pull ↦ check_request r
  | bidirectional ↦ check_request r
  | other text ↦ err (unknown_direction text)
]

pub record Prepared : Type 0 where
  pub request : Request
  pub direction : Direction
  pub local_root : String
  pub remote_root : String

-- `filepath.Abs` followed by `filepath.Clean` is a parameter.
unfoldable pub prepare_sync_request :
    Platform → (String → Result Failure String) → Request → Result RequestError Prepared
unfolding validate_sync_request
prepare_sync_request P absolute r = do
  direction ← validate_sync_request r
  local_root ← map_err bad_root (absolute r.local_root)
  (includes, excludes) ← map_err bad_pattern (normalize_patterns P r.includes r.excludes)
  ok (record {
    request = record r { includes = includes; excludes = excludes };
    direction = direction;
    local_root = local_root;
    remote_root = clean_remote r.remote_root;
  })

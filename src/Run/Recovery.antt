-- ===== src/Run/Recovery.antt =====
-- internal/app/sync/recovery.go: showing, retrying and removing the journal of an interrupted run.
pub mod Laws
use ocis_cli.Base.{
  ℕ, suc, String, Bool, true, false, not, ◌&&◌, List, [], ◌∷◌, Option, none, some, if◌then◌else◌,
  str_eq,
}
use ocis_cli.Base.Result.{Result, ok, err, map_err, ◌>>=◌}
use ocis_cli.Sync.Platform.{Platform}
use ocis_cli.Sync.Errors.{bidirectional}
use ocis_cli.Sync.Action.{Action, is_skip}
use ocis_cli.Run.Trees.{Failure}
use ocis_cli.Run.Journal.{Journal, Recoveries}
use ocis_cli.Run.Conflicts.{Printer}
use ocis_cli.Run.Request.{Request, RequestError, Prepared, prepare_sync_request}
use ocis_cli.Run.Session.Collect.{RunError, SyncResult}
use ocis_cli.Run.Session.{run_prepared_sync}
use ocis_cli.Run.Ids.{IdError, resolve_sync_recovery_id}
use ocis_cli.Run.Jobs.Commands.{Client, Services}

pub data RecoveryError : Type 0 where
  not_resolved : IdError → RecoveryError
  unknown_journal : String → RecoveryError
  store_failed client_failed space_failed : Failure → RecoveryError
  unconfirmed other_profile other_account other_space : RecoveryError
  request_refused : RequestError → RecoveryError
  run_failed : RunError → RecoveryError

-- The store of the journals: their identifiers, one journal, and its removal.
pub record Journals (World : Type 0) : Type 0 where
  pub list_keys : World → Result Failure (List String)
  pub load : World → String → Result Failure (Option Journal)
  pub delete : String → World → World × Result Failure Bool

-- `if err != nil { return err }` behind a call, and behind a check.
unfoldable pub calling :
    {World E A B : Type 0}
    → World × Result E A
    → (E → RecoveryError)
    → (World → A → World × Result RecoveryError B)
    → World × Result RecoveryError B
calling (w, err e) wrap next = (w, err (wrap e))
calling (w, ok a) wrap next = next w a

unfoldable pub checking :
    {World A B : Type 0}
    → Result RecoveryError A
    → World
    → (A → World × Result RecoveryError B)
    → World × Result RecoveryError B
checking (err e) w next = (w, err e)
checking (ok a) w next = next a

-- `actionableSyncCount`
unfoldable pub actionable_sync_count : List Action → ℕ
actionable_sync_count [] = 0
actionable_sync_count (a ∷ later) =
    let rest = actionable_sync_count later in if not (is_skip a.action) then suc rest else rest

-- `loadSyncRecovery`
unfoldable pub load_sync_recovery :
    (String → String)
    → {World : Type 0} → Journals World
    → String
    → World
    → Result RecoveryError Journal
unfolding resolve_sync_recovery_id
load_sync_recovery to_lower J id w =
    map_err not_resolved (resolve_sync_recovery_id to_lower (J.list_keys w) id) >>= λ key.
    map_err store_failed (J.load w key) >>= λ found. elim found [
      | none ↦ err (unknown_journal id)
      | some journal ↦ ok journal
    ]

-- `removeSyncRecovery`: the identifier, and whether the journal was removed.
unfoldable pub remove_sync_recovery :
    (String → String)
    → {World : Type 0} → Journals World
    → String
    → Bool
    → Bool
    → World
    → World × Result RecoveryError (String × Bool)
unfolding load_sync_recovery
remove_sync_recovery to_lower J id confirmed dry_run w =
    if not confirmed && not dry_run
    then (w, err unconfirmed)
    else checking (load_sync_recovery to_lower J id w) w (λ journal.
      if not dry_run
      then calling (J.delete journal.id w) store_failed
          (λ w₁ removed. (w₁, ok (journal.id, removed)))
      else (w, ok (journal.id, false)))

-- The request that a journal is retried with.
abbrev pub request_to_retry : Bool → Journal → Request
request_to_retry dry_run journal = record {
  direction = bidirectional;
  local_root = journal.binding.local_root;
  remote_root = journal.binding.remote_root;
  includes = journal.binding.includes;
  excludes = journal.binding.excludes;
  delete = false;
  overwrite = false;
  dry_run = dry_run;
  max_entries = journal.max_entries;
  conflict_strategy = "";
  prefer = "";
}

module _ (P : Platform) {World : Type 0} (C : Services World) (R : Recoveries World)
    (H : Printer) where
  -- The end of `retrySyncRecovery`: the Space is the journal's, and a new run starts.
  unfoldable pub restart : Bool → Journal → Client → World → World × Result RecoveryError SyncResult
  restart dry_run journal client w =
      if not (str_eq client.space_id journal.binding.space_id)
      then (w, err other_space)
      else checking
          (map_err request_refused
            (prepare_sync_request P C.absolute (request_to_retry dry_run journal)))
          w
          (λ prepared.
            calling (run_prepared_sync P (C.trees client) R (C.session client) H prepared w)
              run_failed (λ w₁ result. (w₁, ok result)))

  -- `retrySyncRecovery`, of the profile that is asked for.
  unfoldable pub retry_sync_recovery :
      String → Bool → Journal → World → World × Result RecoveryError SyncResult
  unfolding restart
  retry_sync_recovery profile dry_run journal w =
      if not (str_eq profile "") && not (str_eq profile journal.binding.profile)
      then (w, err other_profile)
      else calling (C.connect journal.binding.profile w) client_failed (λ w₁ client.
        if not (str_eq client.account_id journal.binding.account_id)
        then (w₁, err other_account)
        else if not (str_eq journal.binding.space_id "")
        then calling (C.select_space client journal.binding.space_id w₁) space_failed
            (λ w₂ space. restart dry_run journal (record client { space_id = space }) w₂)
        else restart dry_run journal client w₁)

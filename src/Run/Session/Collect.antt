-- ===== src/Run/Session/Collect.antt =====
-- internal/app/sync: what a run reads before and after it carries its plan out.
use ocis_cli.Base.{
  ℕ, String, Bool, true, false, not, ◌&&◌, List, Option, none, some, if◌then◌else◌, str_eq,
}
use ocis_cli.Base.Int.{ℤ}
use ocis_cli.Base.Map.{has}
use ocis_cli.Base.Result.{Result, ok, err, map_err, ◌>>=◌}
use ocis_cli.Sync.Platform.{Platform}
use ocis_cli.Sync.Errors.{Direction, push, pull, PlanError}
use ocis_cli.Sync.Entry.{Snapshot}
use ocis_cli.Sync.State.{Binding, State}
use ocis_cli.Sync.Action.{Plan}
use ocis_cli.Sync.Pattern.{filter_snapshot}
use ocis_cli.Run.Trees.{Trees, Failure, Outcome, unknown_sync_direction}
use ocis_cli.Run.Conflicts.{ResolveError}
use ocis_cli.Run.Request.{Request, Prepared}
use ocis_cli.Run.Snapshots.{LocalVisit, RemoteNode, RemoteText, snapshot_local, snapshot_remote}

-- The client's identity, the store of the states, the deletion of a journal, and what the two trees
-- answer to a scan: `os.Lstat` of the local root, `filepath.WalkDir`, and the resources that
-- `client.Stat` and `client.List` report.
pub record Session (World : Type 0) : Type 0 where
  pub profile_name : String
  pub account_id : String
  pub space_id : String
  pub load_state : World → String → Result Failure (Option State)
  pub save_state : String → State → World → Outcome World
  pub delete_journal : String → World → Outcome World
  pub local_root : World → String → Result Failure Bool
  pub local_visits : World → String → List LocalVisit
  pub remote_root : World → String → Result Failure RemoteNode
  pub text : RemoteText

-- Why a run ends early. `both_failed` joins a failure with one to record it.
pub data RunError : Type 0 where
  unauthenticated binding_mismatch roots_missing : RunError
  load_failed collect_failed verify_failed save_state_failed : Failure → RunError
  journal_failed journal_delete_failed step_failed : Failure → RunError
  plan_failed filter_failed : PlanError → RunError
  resolve_failed : ResolveError → RunError
  -- The number of conflicts.
  unresolved : ℕ → RunError
  -- The path of the first difference.
  not_converged : String → RunError
  both_failed : RunError → Failure → RunError

pub record SyncResult : Type 0 where
  pub direction : Direction
  pub local_root : String
  pub remote_root : String
  pub dry_run : Bool
  pub applied : Bool
  pub state_key : String
  pub plan : Plan

-- How a run ends: its result is what is printed.
abbrev pub Ended : Type 0 → Type 0
Ended World = World × Result RunError SyncResult

-- What follows something that is read or computed.
unfoldable pub reading :
    {World E A : Type 0} → Result E A → (E → RunError) → World → (A → Ended World) → Ended World
reading (err e) wrap w next = (w, err (wrap e))
reading (ok a) wrap w next = next a

-- What follows a call that changes the world.
unfoldable pub doing :
    {World : Type 0} → Outcome World → (Failure → RunError) → (World → Ended World) → Ended World
doing (w, err f) wrap next = (w, err (wrap f))
doing (w, ok _) wrap next = next w

-- What follows a call, for an error and otherwise; the call may keep more than the world.
unfoldable pub handling :
    {State World : Type 0}
    → Outcome State
    → (State → Failure → Ended World)
    → (State → Ended World)
    → Ended World
handling (s, err f) failed next = failed s f
handling (s, ok _) failed next = next s

-- A call whose error is dropped: `_ = …`.
unfoldable pub ignoring : {World : Type 0} → Outcome World → (World → Ended World) → Ended World
ignoring (w, _) next = next w

-- `found && previous.Binding.Key() != binding.Key()`
abbrev pub is_foreign : (Binding → String) → Option State → Binding → Bool
is_foreign key none binding = false
is_foreign key (some previous) binding = not (str_eq (key previous.binding) (key binding))

module _ (P : Platform) {World : Type 0} (T : Trees World) (S : Session World) where
  unfoldable pub local_snapshot : World → String → Bool → ℤ → Result Failure Snapshot
  local_snapshot w root allow_missing max_entries =
      snapshot_local (T.is_canceled w) (S.local_root w root) (S.local_visits w root) root
        allow_missing max_entries

  unfoldable pub remote_snapshot : World → String → Bool → ℤ → Result Failure Snapshot
  remote_snapshot w root allow_missing max_entries =
      snapshot_remote P S.text (T.is_canceled w) max_entries (S.remote_root w root) root
        allow_missing

  -- `collectSyncSnapshots`: source and destination.
  unfoldable pub collect_one_way :
      Direction → String → String → ℤ → World → Result Failure (Snapshot × Snapshot)
  unfolding local_snapshot remote_snapshot
  collect_one_way push local_root remote_root max_entries w =
      local_snapshot w local_root false max_entries >>= λ local.
      remote_snapshot w remote_root true max_entries >>= λ remote. ok (local, remote)
  collect_one_way pull local_root remote_root max_entries w =
      remote_snapshot w remote_root false max_entries >>= λ remote.
      local_snapshot w local_root true max_entries >>= λ local. ok (remote, local)
  collect_one_way _ local_root remote_root max_entries w = err unknown_sync_direction

  -- `collectBidirectionalSnapshots`: local and remote.
  unfoldable pub collect_two_way :
      String → String → ℤ → World → Result RunError (Snapshot × Snapshot)
  unfolding local_snapshot remote_snapshot
  collect_two_way local_root remote_root max_entries w = do
    local ← map_err collect_failed (local_snapshot w local_root true max_entries)
    remote ← map_err collect_failed (remote_snapshot w remote_root true max_entries)
    if not (has "" local) && not (has "" remote) then err roots_missing else ok (local, remote)

  -- The binding of a run.
  unfoldable pub binding_of : Prepared → Binding
  binding_of prepared = record {
    profile = S.profile_name;
    account_id = S.account_id;
    space_id = S.space_id;
    direction = prepared.direction;
    local_root = prepared.local_root;
    remote_root = prepared.remote_root;
    includes = prepared.request.includes;
    excludes = prepared.request.excludes;
  }

  -- Both trees, filtered by the patterns of the request.
  unfoldable pub filter_both :
      Request → Snapshot × Snapshot → Result PlanError (Snapshot × Snapshot)
  filter_both r (a, b) = do
    a' ← filter_snapshot P a r.includes r.excludes
    b' ← filter_snapshot P b r.includes r.excludes
    ok (a', b')

-- ===== src/Run/Trees.antt =====
-- internal/app/sync: the calls that a run makes on the two trees, and their errors.
use ocis_cli.Base.{String, Bool, true, false, Option}
use ocis_cli.Base.Int.{ℤ}
use ocis_cli.Base.Result.{Result, ok, err}
use ocis_cli.Sync.Entry.{Entry}
use ocis_cli.Sync.Action.{ActionKind}

-- Why a run stops. `missing` is an error with status 404, or `os.ErrNotExist`.
pub data Failure : Type 0 where
  missing canceled plan_with_conflicts no_copy_source no_move_source : Failure
  call_failed escapes_root not_a_directory unsupported_file unsafe_name : String → Failure
  too_many_entries : ℤ → Failure
  unknown_sync_direction : Failure
  -- The role and the name of the entry.
  appeared changed : String → String → Failure
  unsupported : ActionKind → Failure
  no_target : ActionKind → String → Failure

-- The calls that change a tree: the WebDAV requests, and those on the local file system.
pub data Call : Type 0 where
  -- `RemoveWithOptions`, recursive, with the expected ETag.
  remove_remote : String → String → Call
  ensure_collection : String → Call
  -- `UploadWithOptions` from a local name, with `NoClobber` and the expected ETag.
  upload : String → String → Bool → String → Call
  -- `CopyWithOptions` and `MoveWithOptions`, with the expected ETag.
  copy_remote move_remote : String → String → String → Call
  -- `os.RemoveAll`, `os.MkdirAll`, and `os.MkdirAll` of the directory of a name.
  remove_local make_local make_local_parent : String → Call
  -- `DownloadWithOptions` from a remote name, with `NoClobber` and the expected ETag.
  download : String → String → Bool → String → Call
  -- `copyLocalSyncFile` and `os.Rename`.
  copy_local rename_local : String → String → Call

abbrev pub changes_remote : Call → Bool
changes_remote (remove_remote _ _) = true
changes_remote (ensure_collection _) = true
changes_remote (upload _ _ _ _) = true
changes_remote (copy_remote _ _ _) = true
changes_remote (move_remote _ _ _) = true
changes_remote _ = false

-- Both trees and all else that a run can observe are one world. The network, the file system and
-- `filepath` are parameters.
pub record Trees (World : Type 0) : Type 0 where
  -- `client.Stat` and `remoteSyncEntry`, and `localSyncEntry`, of a name and the relative path.
  pub remote_entry : World → String → String → Result Failure Entry
  pub local_entry : World → String → String → Result Failure Entry
  -- A call can change the world even where it fails.
  pub perform : Call → World → World × Result Failure (Unit {0})
  -- `ctx.Err() != nil`
  pub is_canceled : World → Bool
  -- `filepath.Join(root, filepath.FromSlash(relative))`, `filepath.Rel`, and the separator.
  pub join_local : String → String → String
  pub relative_to : String → String → Option String
  pub separator : String

-- What a step leaves: the world, and the error if there was one.
abbrev pub Outcome : Type 0 → Type 0
Outcome World = World × Result Failure (Unit {0})

-- `if err := …; err != nil { return err }` behind a call.
unfoldable pub and_then : {World : Type 0} → Outcome World → (World → Outcome World) → Outcome World
and_then (w, err f) next = (w, err f)
and_then (w, ok _) next = next w

-- The same behind a check, which changes nothing.
unfoldable pub provided :
    {World : Type 0} → Result Failure (Unit {0}) → World → (World → Outcome World) → Outcome World
provided (err f) w next = (w, err f)
provided (ok _) w next = next w

-- ===== src/Run/Apply.antt =====
-- internal/app/sync/service.go: `applySyncAction`, `applySyncCopy` and `applySyncMove`.
use ocis_cli.Base.{String, Bool, true, false, not, List, [], ◌∷◌, if◌then◌else◌, str_eq}
use ocis_cli.Base.Result.{Result, ok, err}
use ocis_cli.Sync.Platform.{Platform}
use ocis_cli.Sync.Errors.{Direction, push}
use ocis_cli.Sync.Entry.{no_entry, entry_present}
use ocis_cli.Sync.Action.{
  Action, delete, create_directory, transfer, is_skip, is_conflict, is_move, is_copy,
}
use ocis_cli.Run.Trees.{
  Trees, Failure, no_copy_source, no_move_source, unsupported, canceled, plan_with_conflicts,
  remove_remote, ensure_collection, upload, copy_remote, move_remote, remove_local, make_local,
  make_local_parent, download, copy_local, rename_local, Outcome, and_then, provided,
}
use ocis_cli.Run.Names.{sync_local_path, sync_remote_path, sync_expected_etag}
use ocis_cli.Run.Verify.{verify_remote_sync_entry, verify_local_sync_entry}

abbrev pub is_push : Direction → Bool
is_push push = true
is_push _ = false

-- `sourceRelative`
abbrev pub source_relative : Action → String
source_relative a = if not (str_eq a.from_path "") then a.from_path else a.path

-- A local name, or the error of `syncLocalPath`, before anything is done.
unfoldable pub with_local :
    {World : Type 0} → Result Failure String → World → (String → Outcome World) → Outcome World
with_local (err f) w next = (w, err f)
with_local (ok local) w next = next local

module _ (P : Platform) {World : Type 0} (T : Trees World) where
  unfoldable pub apply_sync_copy :
      Direction → String → String → String → String → Action → World → Outcome World
  apply_sync_copy direction local_source remote_source local remote a w =
      if str_eq a.from_path ""
      then (w, err no_copy_source)
      else if is_push direction
      then provided (verify_remote_sync_entry P T w remote_source a.source "source") w (λ w₁.
        provided (verify_remote_sync_entry P T w₁ remote a.destination "destination") w₁
          (T.perform (copy_remote remote_source remote (sync_expected_etag a.source))))
      else provided (verify_local_sync_entry P T w local_source a.source "source") w (λ w₁.
        provided (verify_local_sync_entry P T w₁ local a.destination "destination") w₁
          (T.perform (copy_local local_source local)))

  unfoldable pub apply_sync_move :
      Direction → String → String → String → String → Action → World → Outcome World
  apply_sync_move direction local_root remote_root local remote a w =
      if str_eq a.from_path ""
      then (w, err no_move_source)
      else if is_push direction
      then (let remote_source = sync_remote_path remote_root a.from_path in
          provided (verify_remote_sync_entry P T w remote_source a.destination "source") w (λ w₁.
            provided (verify_remote_sync_entry P T w₁ remote no_entry "destination") w₁
              (T.perform (move_remote remote_source remote (sync_expected_etag a.destination)))))
      else with_local (sync_local_path T local_root a.from_path) w (λ local_source.
        provided (verify_local_sync_entry P T w local_source a.destination "source") w (λ w₁.
          provided (verify_local_sync_entry P T w₁ local no_entry "destination") w₁ (λ w₂.
            and_then (T.perform (make_local_parent local) w₂)
              (T.perform (rename_local local_source local)))))

  -- The part of `applySyncAction` for a local destination, behind its precondition and replacement.
  unfoldable pub change_local : String → String → Action → World → Outcome World
  unfolding entry_present
  change_local remote_source local a w = elim a.action [
    | delete ↦ T.perform (remove_local local) w
    | create_directory ↦ T.perform (make_local local) w
    | transfer ↦ and_then (T.perform (make_local_parent local) w) (
        T.perform (
          download remote_source local (not (entry_present a.destination))
            (sync_expected_etag a.source)))
    | kind ↦ (w, err (unsupported kind))
  ]

  unfoldable pub apply_locally : String → String → Action → World → Outcome World
  unfolding change_local
  apply_locally remote_source local a w =
      provided (verify_local_sync_entry P T w local a.destination "destination") w (λ w₁.
        and_then (if a.replace then T.perform (remove_local local) w₁ else (w₁, ok tt))
          (change_local remote_source local a))

  -- The part for a remote destination. Any other kind goes on to the part for a local one.
  unfoldable pub change_remote : String → String → String → String → Action → World → Outcome World
  unfolding entry_present apply_locally
  change_remote local_source remote_source local remote a w = elim a.action [
    | delete ↦ T.perform (remove_remote remote (sync_expected_etag a.destination)) w
    | create_directory ↦ T.perform (ensure_collection remote) w
    | transfer ↦
        T.perform
          (upload local_source remote (not (entry_present a.destination))
            (sync_expected_etag a.destination))
          w
    | _ ↦ apply_locally remote_source local a w
  ]

  unfoldable pub apply_remotely : String → String → String → String → Action → World → Outcome World
  unfolding change_remote
  apply_remotely local_source remote_source local remote a w =
      provided (verify_remote_sync_entry P T w remote a.destination "destination") w (λ w₁.
        and_then
          (if a.replace
            then T.perform (remove_remote remote (sync_expected_etag a.destination)) w₁
            else (w₁, ok tt))
          (change_remote local_source remote_source local remote a))

  -- `applySyncAction`, behind the names.
  unfoldable pub apply_named :
      Direction → String → String → String → String → Action → World → Outcome World
  unfolding apply_sync_copy apply_sync_move apply_locally apply_remotely
  apply_named direction local_root remote_root local local_source a w =
      let remote = sync_remote_path remote_root a.path in
      let remote_source = sync_remote_path remote_root (source_relative a) in
      if is_move a.action
      then apply_sync_move direction local_root remote_root local remote a w
      else if is_copy a.action
      then apply_sync_copy direction local_source remote_source local remote a w
      else if is_push direction
      then apply_remotely local_source remote_source local remote a w
      else apply_locally remote_source local a w

  unfoldable pub apply_sync_action : Direction → String → String → Action → World → Outcome World
  unfolding apply_named
  apply_sync_action direction local_root remote_root a w =
      with_local (sync_local_path T local_root a.path) w (λ local.
        with_local (sync_local_path T local_root (source_relative a)) w
          (λ local_source. apply_named direction local_root remote_root local local_source a w))

  -- `applySyncPlan`, behind the discovery of upload capabilities.
  unfoldable pub apply_sync_plan : Direction → String → String → List Action → World → Outcome World
  unfolding apply_sync_action
  apply_sync_plan direction local_root remote_root [] w = (w, ok tt)
  apply_sync_plan direction local_root remote_root (a ∷ later) w =
      let rest = apply_sync_plan direction local_root remote_root later in
      if T.is_canceled w
      then (w, err canceled)
      else if is_skip a.action
      then rest w
      else if is_conflict a.action
      then (w, err plan_with_conflicts)
      else and_then (apply_sync_action direction local_root remote_root a w) rest

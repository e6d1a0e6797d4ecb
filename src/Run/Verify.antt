-- ===== src/Run/Verify.antt =====
-- internal/app/sync/service.go: the preconditions that are checked again before an action.
use ocis_cli.Base.{String, Bool, true, false, not, ◌&&◌, ◌≡◌, refl, ◌↔◌, ◌⊎◌, inl, inr, arith}
use ocis_cli.Base.{if◌then◌else◌}
use ocis_cli.Base.Result.{Result, ok, err}
use ocis_cli.Sync.Platform.{Platform}
use ocis_cli.Sync.Entry.{Entry, entry_present, equal}
use ocis_cli.Run.Trees.{Trees, Failure, missing, appeared, changed}

abbrev pub is_missing : Failure → Bool
is_missing missing = true
is_missing _ = false

module _ (P : Platform) where
  -- What `verifyRemoteSyncEntry` and `verifyLocalSyncEntry` conclude from the entry they read.
  unfoldable pub verify_found :
      Result Failure Entry → Entry → String → String → Result Failure (Unit {0})
  unfolding entry_present
  verify_found (err f) expected role name =
      if is_missing f && not (entry_present expected) then ok tt else err f
  verify_found (ok current) expected role name =
      if not (entry_present expected)
      then err (appeared role name)
      else if not (equal P current expected)
      then err (changed role name)
      else ok tt

  module _ {World : Type 0} (T : Trees World) where
    unfoldable pub verify_remote_sync_entry :
        World → String → Entry → String → Result Failure (Unit {0})
    unfolding verify_found
    verify_remote_sync_entry w remote expected role =
        verify_found (T.remote_entry w remote expected.path) expected role remote

    unfoldable pub verify_local_sync_entry :
        World → String → Entry → String → Result Failure (Unit {0})
    unfolding verify_found
    verify_local_sync_entry w local expected role =
        verify_found (T.local_entry w local expected.path) expected role local

    -- The check of a remote entry passes exactly when an entry is expected and the tree has one
    -- that equals it, or none is expected and the tree has none.
    pub verify_remote_sync_entry_iff :
        (w : World) (remote : String) (expected : Entry) (role : String)
        → (verify_remote_sync_entry w remote expected role ≡ ok tt) ↔ (
            ((entry_present expected ≡ true)
              × ((current : Entry) × (T.remote_entry w remote expected.path ≡ ok current)
                  × (equal P current expected ≡ true)))
            ⊎ ((entry_present expected ≡ false)
                × (T.remote_entry w remote expected.path ≡ err missing)))
    unfolding verify_remote_sync_entry verify_found
    verify_remote_sync_entry_iff w remote expected role =
        iff (T.remote_entry w remote expected.path)
      where
        iff :
            (found : Result Failure Entry)
            → (verify_found found expected role remote ≡ ok tt) ↔ (
                ((entry_present expected ≡ true)
                  × ((current : Entry) × (found ≡ ok current) × (equal P current expected ≡ true)))
                ⊎ ((entry_present expected ≡ false) × (found ≡ err missing)))
        iff (ok current) =
            (λ h. inl (ground arith, (current, refl, ground arith)), λ h. ground arith)
        iff (err missing) = (λ h. inr (ground arith, refl), λ h. ground arith)
        iff (err f) = (λ h. absurd (ground arith), λ h. ground arith)

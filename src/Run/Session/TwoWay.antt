-- ===== src/Run/Session/TwoWay.antt =====
-- internal/app/sync/bidirectional.go: `runPreparedBidirectionalSync`.
use ocis_cli.Base.{String, Bool, true, false, not, if◌then◌else◌, str_eq, ◌==◌}
use ocis_cli.Base.Result.{Result, ok, err}
use ocis_cli.Sync.Platform.{Platform}
use ocis_cli.Sync.Errors.{bidirectional}
use ocis_cli.Sync.Entry.{Snapshot}
use ocis_cli.Sync.State.{new_state}
use ocis_cli.Sync.Action.{Plan}
use ocis_cli.Sync.TwoWay.{build_bidirectional}
use ocis_cli.Run.Trees.{Trees, Failure, canceled, Outcome}
use ocis_cli.Run.Journal.{
  Journal, Recoveries, Recorded, Status, failed, was_canceled, in_conflict, new_journal,
  update_sync_recovery, apply_bidirectional_sync_plan,
}
use ocis_cli.Run.Difference.{first_sync_snapshot_difference}
use ocis_cli.Run.Conflicts.{Printer, Resolution, ResolveError, resolve_bidirectional_conflicts}
use ocis_cli.Run.Request.{Request, Prepared}
use ocis_cli.Run.Session.Collect.{
  Session, RunError, SyncResult, Ended, unauthenticated, binding_mismatch, load_failed, plan_failed,
  resolve_failed, unresolved, step_failed, filter_failed, save_state_failed, journal_failed,
  journal_delete_failed, both_failed, not_converged, reading, doing, handling, ignoring, is_foreign,
  collect_two_way, binding_of, filter_both,
}

-- `errors.Is(err, context.Canceled)`
abbrev pub is_cancellation : Failure → Bool
is_cancellation canceled = true
is_cancellation _ = false

-- The world of a run with a journal in memory, when the journal is no longer needed.
abbrev pub without_journal : {World : Type 0} → Outcome (Recorded World) → Outcome World
without_journal ((w, j), r) = (w, r)

abbrev pub resolution_of : Request → Resolution
resolution_of r = record {
  conflict_strategy = r.conflict_strategy;
  prefer = r.prefer;
  includes = r.includes;
  excludes = r.excludes;
}

module _ (P : Platform) {World : Type 0} (T : Trees World) (R : Recoveries World)
    (S : Session World) (H : Printer) (prepared : Prepared) where
  unfoldable pub two_way_result : Plan → Bool → SyncResult
  two_way_result plan applied = record {
    direction = bidirectional;
    local_root = prepared.local_root;
    remote_root = prepared.remote_root;
    dry_run = prepared.request.dry_run;
    applied = applied;
    state_key = R.key (binding_of P T S prepared);
    plan = plan;
  }

  -- The journal of a new run.
  unfoldable pub start_journal : Plan → World → Journal
  start_journal plan w =
      new_journal R.key (binding_of P T S prepared) prepared.request.max_entries plan (R.now w)

  -- `updateSyncRecovery`, without the journal that it leaves in memory.
  unfoldable pub note_failure : Journal → Status → String → World → Outcome World
  note_failure j status text w = without_journal (update_sync_recovery P T R j status text w)

  -- The baseline is saved, and the journal deleted.
  unfoldable pub save_two_way : Plan → Journal → Snapshot → Snapshot → World → Ended World
  unfolding two_way_result note_failure
  save_two_way plan j l r w =
      handling
        (S.save_state (R.key (binding_of P T S prepared))
          (new_state (binding_of P T S prepared) l r) w)
        (λ w₁ f.
          ignoring
            (note_failure j failed
              "trees converged but saving the baseline failed; re-scan before retrying" w₁)
            (λ w₂. (w₂, err (save_state_failed f))))
        (λ w₁.
          doing (S.delete_journal j.id w₁) journal_delete_failed
            (λ w₂. (w₂, ok (two_way_result plan true))))

  -- What stands behind `applyBidirectionalSyncPlan`: the trees are read again and compared.
  unfoldable pub verify_two_way : Plan → Journal → World → Ended World
  unfolding save_two_way note_failure
  verify_two_way plan j w =
      elim (collect_two_way P T S prepared.local_root prepared.remote_root
        prepared.request.max_entries w) [
          | err e ↦
              ignoring
                (note_failure j failed "post-run verification failed; re-scan before retrying" w)
                (λ w₁. (w₁, err e))
          | ok after ↦ reading (filter_both P T S prepared.request after) filter_failed w (λ (l, r).
              if not (str_eq (first_sync_snapshot_difference P l r) "")
              then ignoring
                  (note_failure j failed
                    "local and remote trees did not converge; re-scan before retrying" w)
                  (λ w₁. (w₁, err (not_converged (first_sync_snapshot_difference P l r))))
              else save_two_way plan j l r w)
        ]

  -- The run stopped in the middle of the plan.
  unfoldable pub stop_two_way : Failure → Recorded World → Ended World
  unfolding note_failure
  stop_two_way f (w, j) =
      doing
        (note_failure j (if is_cancellation f then was_canceled else failed)
          (if is_cancellation f
            then "synchronization was canceled; re-scan before retrying"
            else "synchronization stopped before convergence; re-scan before retrying")
          w)
        (both_failed (step_failed f)) (λ w₁. (w₁, err (step_failed f)))

  -- The journal is saved, and the plan carried out.
  unfoldable pub apply_two_way : Plan → World → Ended World
  unfolding start_journal verify_two_way stop_two_way
  apply_two_way plan w =
      let j = start_journal plan w in
      doing (R.save j w) journal_failed (λ w₁.
        handling
          (apply_bidirectional_sync_plan P T R prepared.local_root prepared.remote_root plan.actions
            (w₁, j))
          (λ s f. stop_two_way f s) (λ (w₂, j₂). verify_two_way plan j₂ w₂))

  -- A conflict is written to a journal, and ends the run with an error.
  unfoldable pub report_conflict :
      Plan → String → RunError → (Failure → RunError) → World → Ended World
  unfolding start_journal
  report_conflict plan text e wrap w =
      doing
        (R.save
          (record (start_journal plan w) {
            status = in_conflict;
            failure = text;
            updated_at = R.now w;
          })
          w)
        wrap (λ w₁. (w₁, err e))

  -- What stands behind `resolveBidirectionalConflicts`.
  unfoldable pub carry_out : Plan → Result ResolveError Plan → World → Ended World
  unfolding two_way_result report_conflict apply_two_way
  carry_out original (err e) w =
      if prepared.request.dry_run
      then (w, err (resolve_failed e))
      else report_conflict original
          "automatic keep-both resolution was not safe; both trees were left unchanged"
          (resolve_failed e) (both_failed (resolve_failed e)) w
  carry_out original (ok plan) w =
      if prepared.request.dry_run
      then (w, ok (two_way_result plan false))
      else if not (plan.conflicts == 0)
      then report_conflict plan "the plan contains unresolved conflicts" (unresolved plan.conflicts)
          journal_failed w
      else apply_two_way plan w

  unfoldable pub run_two_way : World → Ended World
  unfolding carry_out
  run_two_way w =
      if str_eq S.account_id ""
      then (w, err unauthenticated)
      else reading (S.load_state w (R.key (binding_of P T S prepared))) load_failed w (λ previous.
        if is_foreign R.key previous (binding_of P T S prepared)
        then (w, err binding_mismatch)
        else reading
            (collect_two_way P T S prepared.local_root prepared.remote_root
              prepared.request.max_entries w)
            (λ e. e) w
            (λ (local, remote).
              reading
                (build_bidirectional P local remote previous (record {
                  delete = false;
                  overwrite = false;
                  includes = prepared.request.includes;
                  excludes = prepared.request.excludes;
                }))
                plan_failed w
                (λ plan.
                  carry_out plan
                    (resolve_bidirectional_conflicts H P local remote
                      (resolution_of prepared.request) plan)
                    w)))

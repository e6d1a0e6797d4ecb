-- ===== src/Run/Session/Laws.antt =====
-- internal/app/sync/bidirectional.go: what a bidirectional run saves.
use ocis_cli.Base.{
  String, true, false, not, List, [], ◌≡◌, refl, if◌then◌else◌, str_eq, str_eq_iff, Bool-cases,
}
use ocis_cli.Base.{inl, inr, ◌==◌, ap, sym, Option}
use ocis_cli.Base.Result.{Result, ok, err, Result-cases}
use ocis_cli.Sync.Platform.{Platform}
use ocis_cli.Sync.Entry.{Snapshot}
use ocis_cli.Sync.State.{new_state}
use ocis_cli.Sync.Action.{Plan}
use ocis_cli.Run.Trees.{Trees, Failure, Call}
use ocis_cli.Run.Journal.{Journal, Recoveries, Recorded, Status}
use ocis_cli.Run.Difference.{first_sync_snapshot_difference}
use ocis_cli.Run.Conflicts.{Printer, ResolveError}
use ocis_cli.Run.Request.{Prepared}
use ocis_cli.Run.Session.Collect.{
  Session, RunError, Ended, is_foreign, collect_two_way, binding_of, filter_both,
}
use ocis_cli.Run.Session.TwoWay.{
  start_journal, note_failure, save_two_way, verify_two_way, stop_two_way, apply_two_way,
  report_conflict, carry_out, run_two_way,
}
use ocis_cli.Run.Session.Kept.{
  if-ends, reading-ends, doing-ends, handling-ends, ignoring-ends, update-kept,
  bidirectional_plan-kept,
}

-- The baseline `(l, r)` is what the world `w` answers to a scan after the run: both trees are read
-- and filtered, and no difference is found between them.
pub record Baseline (P : Platform) {World : Type 0} (T : Trees World) (S : Session World)
    (prepared : Prepared) (w : World) (l r : Snapshot) : Type 0 where
  pub after : Snapshot × Snapshot
  pub collected :
      collect_two_way P T S prepared.local_root prepared.remote_root prepared.request.max_entries w
      ≡ ok after
  pub filtered : filter_both P T S prepared.request after ≡ ok (l, r)
  pub equal : first_sync_snapshot_difference P l r ≡ ""

-- What is kept of the world by a run.
unfoldable EndsIn : {World : Type 0} → (World → Type 0) → Ended World → Type 0
EndsIn Q e = Q e.0

not-false : (b : ocis_cli.Base.Bool) → not b ≡ false → b ≡ true
not-false true e = refl
not-false false e = sym e

module _ (P : Platform) {World : Type 0} (T : Trees World) (R : Recoveries World)
    (S : Session World) (H : Printer) (prepared : Prepared) (Q : World → Type 0)
    (calls_keep : (c : Call) (w : World) → Q w → Q (T.perform c w).0)
    (journals_keep : (j : Journal) (w : World) → Q w → Q (R.save j w).0)
    (deletions_keep : (id : String) (w : World) → Q w → Q (S.delete_journal id w).0)
    (baselines_keep : (l r : Snapshot) (w : World)
      → Baseline P T S prepared w l r
      → Q w
      → Q
          (S.save_state
            (R.key (binding_of P T S prepared))
            (new_state (binding_of P T S prepared) l r)
            w).0) where
  note-kept :
      (j : Journal) (status : Status) (text : String) (w : World)
      → Q w
      → Q (note_failure P T R S H prepared j status text w).0
  unfolding note_failure
  note-kept j status text w q = update-kept P T R Q calls_keep journals_keep j status text w q

  save-kept :
      (plan : Plan) (j : Journal) (l r : Snapshot) (w : World)
      → Baseline P T S prepared w l r
      → Q w
      → EndsIn Q (save_two_way P T R S H prepared plan j l r w)
  unfolding save_two_way EndsIn
  save-kept plan j l r w b q =
      let saved = baselines_keep l r w b q in
      handling-ends (EndsIn Q) _ _ _ (λ f. ignoring-ends (EndsIn Q) _ _ (note-kept j _ _ _ saved))
        (λ _.
          doing-ends (EndsIn Q) _ _ _ (λ f. deletions_keep _ _ saved)
            (λ _. deletions_keep _ _ saved))

  verify-kept :
      (plan : Plan) (j : Journal) (w : World)
      → Q w
      → EndsIn Q (verify_two_way P T R S H prepared plan j w)
  unfolding verify_two_way EndsIn
  verify-kept plan j w q =
      elim (Result-cases (
        collect_two_way P T S prepared.local_root prepared.remote_root prepared.request.max_entries
          w)) [
            | inl (e, h) ↦
                rw (h, verify_two_way)
                  (ignoring-ends (EndsIn Q) (note_failure P T R S H prepared j _ _ w) _
                    (note-kept j _ _ w q))
            | inr (after, h) ↦
                rw (h, verify_two_way)
                  (reading-ends (EndsIn Q) _ _ w _ (λ e. q)
                    (λ (l, r) f.
                      if-ends (EndsIn Q) (not (str_eq (first_sync_snapshot_difference P l r) ""))
                        (λ _.
                          ignoring-ends (EndsIn Q) (note_failure P T R S H prepared j _ _ w) _
                            (note-kept j _ _ w q))
                        (λ e.
                          save-kept plan j l r w
                            (record {
                              after = after;
                              collected = h;
                              filtered = f;
                              equal = (str_eq_iff _ "").0 (not-false _ e);
                            })
                            q)))
          ]

  stop-kept :
      (f : Failure) (s : Recorded World) → Q s.0 → EndsIn Q (stop_two_way P T R S H prepared f s)
  unfolding stop_two_way EndsIn
  stop-kept f (w, j) q =
      doing-ends (EndsIn Q) _ _ _ (λ _. note-kept j _ _ w q) (λ _. note-kept j _ _ w q)

  apply-kept : (plan : Plan) (w : World) → Q w → EndsIn Q (apply_two_way P T R S H prepared plan w)
  unfolding apply_two_way EndsIn
  apply-kept plan w q =
      let started = journals_keep (start_journal P T R S H prepared plan w) w q in
      let applied =
        bidirectional_plan-kept P T R Q calls_keep journals_keep prepared.local_root
          prepared.remote_root plan.actions (_, start_journal P T R S H prepared plan w) started in
      doing-ends (EndsIn Q) _ _ _ (λ _. started)
        (λ _.
          handling-ends (EndsIn Q) _ _ _ (λ f. stop-kept f _ applied)
            (λ _. verify-kept plan _ _ applied))

  report-kept :
      (plan : Plan) (text : String) (e : RunError) (wrap : Failure → RunError) (w : World)
      → Q w
      → EndsIn Q (report_conflict P T R S H prepared plan text e wrap w)
  unfolding report_conflict EndsIn
  report-kept plan text e wrap w q =
      doing-ends (EndsIn Q) (R.save _ w) wrap _ (λ _. journals_keep _ w q)
        (λ _. journals_keep _ w q)

  carry_out-kept :
      (original : Plan) (resolved : Result ResolveError Plan) (w : World)
      → Q w
      → EndsIn Q (carry_out P T R S H prepared original resolved w)
  unfolding carry_out EndsIn
  carry_out-kept original (err e) w q =
      if-ends (EndsIn Q) prepared.request.dry_run (λ _. q) (λ _. report-kept original _ _ _ w q)
  carry_out-kept original (ok plan) w q =
      if-ends (EndsIn Q) prepared.request.dry_run (λ _. q)
        (λ _.
          if-ends (EndsIn Q) (not (plan.conflicts == 0)) (λ _. report-kept plan _ _ _ w q)
            (λ _. apply-kept plan w q))

  run_kept : (w : World) → Q w → EndsIn Q (run_two_way P T R S H prepared w)
  unfolding run_two_way EndsIn
  run_kept w q =
      if-ends (EndsIn Q) (str_eq S.account_id "") (λ _. q)
        (λ _.
          reading-ends (EndsIn Q) _ _ w _ (λ _. q)
            (λ previous _.
              if-ends (EndsIn Q) (is_foreign R.key previous (binding_of P T S prepared)) (λ _. q)
                (λ _.
                  reading-ends (EndsIn Q) _ _ w _ (λ _. q)
                    (λ trees _.
                      reading-ends (EndsIn Q) _ _ w _ (λ _. q)
                        (λ plan _. carry_out-kept plan _ w q)))))

  -- What every call on the trees, every save and deletion of a journal, and every save of a
  -- baseline keeps of the world, a bidirectional run keeps, however it ends. A save has to keep
  -- it only where it stores, under the key of the run's binding, the two trees as they are read
  -- again after the plan, filtered by the patterns of the request, and
  -- `firstSyncSnapshotDifference` returns the empty text for them: no baseline is saved where it
  -- names a path at which they differ.
  pub run_two_way-saves_converged : (w : World) → Q w → Q (run_two_way P T R S H prepared w).0
  unfolding EndsIn
  run_two_way-saves_converged w q = run_kept w q

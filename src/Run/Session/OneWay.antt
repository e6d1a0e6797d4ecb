-- ===== src/Run/Session/OneWay.antt =====
-- internal/app/sync/service.go: `runPreparedSync`, for a push or a pull.
use ocis_cli.Base.{Bool, true, false, not, if◌then◌else◌, str_eq, ◌==◌}
use ocis_cli.Base.Result.{ok, err}
use ocis_cli.Sync.Platform.{Platform}
use ocis_cli.Sync.State.{new_state}
use ocis_cli.Sync.Action.{Plan}
use ocis_cli.Sync.OneWay.{build}
use ocis_cli.Run.Trees.{Trees}
use ocis_cli.Run.Journal.{Recoveries}
use ocis_cli.Run.Apply.{apply_sync_plan}
use ocis_cli.Run.Request.{Prepared}
use ocis_cli.Run.Session.Collect.{
  Session, SyncResult, Ended, unauthenticated, binding_mismatch, load_failed, collect_failed,
  plan_failed, unresolved, step_failed, verify_failed, filter_failed, save_state_failed, reading,
  doing, is_foreign, collect_one_way, binding_of, filter_both,
}

module _ (P : Platform) {World : Type 0} (T : Trees World) (R : Recoveries World)
    (S : Session World) (prepared : Prepared) where
  unfoldable pub one_way_result : Plan → Bool → SyncResult
  one_way_result plan applied = record {
    direction = prepared.direction;
    local_root = prepared.local_root;
    remote_root = prepared.remote_root;
    dry_run = prepared.request.dry_run;
    applied = applied;
    state_key = R.key (binding_of P T S prepared);
    plan = plan;
  }

  -- What stands behind `applySyncPlan`: the trees are read again, and the state is saved.
  unfoldable pub save_one_way : Plan → World → Ended World
  unfolding one_way_result
  save_one_way plan w =
      reading
        (collect_one_way P T S prepared.direction prepared.local_root prepared.remote_root
          prepared.request.max_entries w)
        verify_failed w
        (λ after.
          reading (filter_both P T S prepared.request after) filter_failed w
            (λ (source, destination).
              doing
                (S.save_state (R.key (binding_of P T S prepared))
                  (new_state (binding_of P T S prepared) source destination) w)
                save_state_failed (λ w₁. (w₁, ok (one_way_result plan true)))))

  unfoldable pub apply_one_way : Plan → World → Ended World
  unfolding one_way_result save_one_way
  apply_one_way plan w =
      if prepared.request.dry_run
      then (w, ok (one_way_result plan false))
      else if not (plan.conflicts == 0)
      then (w, err (unresolved plan.conflicts))
      else doing
          (apply_sync_plan P T prepared.direction prepared.local_root prepared.remote_root
            plan.actions w)
          step_failed (save_one_way plan)

  unfoldable pub run_one_way : World → Ended World
  unfolding apply_one_way
  run_one_way w =
      if str_eq S.account_id ""
      then (w, err unauthenticated)
      else reading (S.load_state w (R.key (binding_of P T S prepared))) load_failed w (λ previous.
        if is_foreign R.key previous (binding_of P T S prepared)
        then (w, err binding_mismatch)
        else reading
            (collect_one_way P T S prepared.direction prepared.local_root prepared.remote_root
              prepared.request.max_entries w)
            collect_failed w
            (λ (source, destination).
              reading
                (build P prepared.direction source destination previous (record {
                  delete = prepared.request.delete;
                  overwrite = prepared.request.overwrite;
                  includes = prepared.request.includes;
                  excludes = prepared.request.excludes;
                }))
                plan_failed w (λ plan. apply_one_way plan w)))

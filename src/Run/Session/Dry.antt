-- ===== src/Run/Session/Dry.antt =====
-- internal/app/sync: a run that only shows its plan.
use ocis_cli.Base.{true, ◌≡◌, refl, str_eq}
use ocis_cli.Base.Result.{Result, ok, err}
use ocis_cli.Sync.Platform.{Platform}
use ocis_cli.Sync.Action.{Plan}
use ocis_cli.Run.Trees.{Trees}
use ocis_cli.Run.Journal.{Recoveries}
use ocis_cli.Run.Conflicts.{Printer, ResolveError}
use ocis_cli.Run.Request.{Prepared, is_bidirectional}
use ocis_cli.Run.Session.Collect.{Session, Ended, is_foreign, binding_of}
use ocis_cli.Run.Session.OneWay.{apply_one_way, run_one_way}
use ocis_cli.Run.Session.TwoWay.{carry_out, run_two_way}
use ocis_cli.Run.Session.{run_prepared_sync}
use ocis_cli.Run.Session.Kept.{if-ends, reading-ends}

-- The run leaves the world as it was.
unfoldable Untouched : {World : Type 0} → World → Ended World → Type 0
Untouched w e = e.0 ≡ w

module _ (P : Platform) {World : Type 0} (T : Trees World) (R : Recoveries World)
    (S : Session World) (H : Printer) (prepared : Prepared) (dry : prepared.request.dry_run ≡ true)
    (w : World) where
  apply-dry : (plan : Plan) → Untouched w (apply_one_way P T R S prepared plan w)
  unfolding apply_one_way Untouched
  apply-dry plan = rw dry refl

  one_way-dry : Untouched w (run_one_way P T R S prepared w)
  unfolding run_one_way Untouched
  one_way-dry =
      if-ends (Untouched w) (str_eq S.account_id "") (λ _. refl)
        (λ _.
          reading-ends (Untouched w) _ _ w _ (λ _. refl)
            (λ previous _.
              if-ends (Untouched w) (is_foreign R.key previous (binding_of P T S prepared))
                (λ _. refl)
                (λ _.
                  reading-ends (Untouched w) _ _ w _ (λ _. refl)
                    (λ trees _.
                      reading-ends (Untouched w) _ _ w _ (λ _. refl) (λ plan _. apply-dry plan)))))

  carry_out-dry :
      (plan : Plan) (resolved : Result ResolveError Plan)
      → Untouched w (carry_out P T R S H prepared plan resolved w)
  unfolding carry_out Untouched
  carry_out-dry plan (err e) = rw dry refl
  carry_out-dry plan (ok resolved) = rw dry refl

  two_way-dry : Untouched w (run_two_way P T R S H prepared w)
  unfolding run_two_way Untouched
  two_way-dry =
      if-ends (Untouched w) (str_eq S.account_id "") (λ _. refl)
        (λ _.
          reading-ends (Untouched w) _ _ w _ (λ _. refl)
            (λ previous _.
              if-ends (Untouched w) (is_foreign R.key previous (binding_of P T S prepared))
                (λ _. refl)
                (λ _.
                  reading-ends (Untouched w) _ _ w _ (λ _. refl)
                    (λ trees _.
                      reading-ends (Untouched w) _ _ w _ (λ _. refl)
                        (λ plan _. carry_out-dry plan _)))))

  -- A run that is asked only to show its plan, in any direction and however it ends, leaves the world
  -- as it was: no file or resource is written, no state and no journal saved or deleted.
  pub run_prepared_sync-dry : (run_prepared_sync P T R S H prepared w).0 ≡ w
  unfolding run_prepared_sync Untouched
  run_prepared_sync-dry =
      if-ends (Untouched w) (is_bidirectional prepared.direction) (λ _. two_way-dry)
        (λ _. one_way-dry)

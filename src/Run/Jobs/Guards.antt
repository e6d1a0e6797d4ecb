-- ===== src/Run/Jobs/Guards.antt =====
-- internal/app/sync/job.go: what a job runs with.
use ocis_cli.Base.{String, Bool, true, false, not, ◌&&◌, ◌≡◌, refl, str_eq, str_eq_iff}
use ocis_cli.Base.Result.{Result, ok, err}
use ocis_cli.Sync.Platform.{Platform}
use ocis_cli.Run.Journal.{Recoveries}
use ocis_cli.Run.Conflicts.{Printer}
use ocis_cli.Run.Request.{Prepared}
use ocis_cli.Run.Session.Collect.{SyncResult}
use ocis_cli.Run.Session.{run_prepared_sync}
use ocis_cli.Run.Session.Kept.{if-ends}
use ocis_cli.Run.Jobs.Store.{Job}
use ocis_cli.Run.Jobs.Commands.{
  JobRequest, Client, JobError, run_failed, Services, calling, checking, start_job,
  execute_sync_job,
}

module _ {World B : Type 0} (Q : World × Result JobError B → Type 0) where
  pub calling-ends :
      {E A : Type 0} (o : World × Result E A) (wrap : E → JobError)
      (next : World → A → World × Result JobError B)
      → ((e : E) → Q (o.0, err (wrap e)))
      → ((a : A) → o.1 ≡ ok a → Q (next o.0 a))
      → Q (calling o wrap next)
  unfolding calling
  calling-ends (w, err e) wrap next h k = h e
  calling-ends (w, ok a) wrap next h k = k a refl

  pub checking-ends :
      {A : Type 0} (o : Result JobError A) (w : World) (next : A → World × Result JobError B)
      → ((e : JobError) → Q (w, err e))
      → ((a : A) → o ≡ ok a → Q (next a))
      → Q (checking o w next)
  unfolding checking
  checking-ends (err e) w next h k = h e
  checking-ends (ok a) w next h k = k a refl

not-false : (b : Bool) → not b ≡ false → b ≡ true
not-false true e = refl
not-false false e = ground ocis_cli.Base.arith

-- What is kept of the world.
unfoldable KeptIn : {World B : Type 0} → (World → Type 0) → World × Result JobError B → Type 0
KeptIn Q o = Q o.0

module _ (P : Platform) {World : Type 0} (C : Services World) (R : Recoveries World) (H : Printer)
    (job : Job) (Q : World → Type 0)
    (connect_keeps : (profile : String) (w : World) → Q w → Q (C.connect profile w).0)
    (select_keeps : (client : Client) (space : String) (w : World)
      → Q w
      → Q (C.select_space client space w).0)
    (runs_keep : (prepared : Prepared) (client : Client) (w : World)
      → client.account_id ≡ job.account_id
      → client.space_id ≡ job.space_id
      → Q w
      → Q (run_prepared_sync P (C.trees client) R (C.session client) H prepared w).0) where
  start_job-kept :
      (prepared : Prepared) (client : Client) (w : World)
      → client.account_id ≡ job.account_id
      → Q w
      → KeptIn Q (start_job P C R H prepared job client w)
  unfolding start_job KeptIn
  start_job-kept prepared client w a q =
      if-ends (KeptIn Q) (not (str_eq client.space_id job.space_id)) (λ _. q)
        (λ e.
          let kept =
            runs_keep prepared client w a
              ((str_eq_iff client.space_id job.space_id).0 (not-false _ e)) q in
          calling-ends {B = SyncResult} (KeptIn Q)
            (run_prepared_sync P (C.trees client) R (C.session client) H prepared w) run_failed
            (λ w₁ result. (w₁, ok result)) (λ _. kept) (λ _ _. kept))

  execute-kept : (r : JobRequest) (w : World) → Q w → KeptIn Q (execute_sync_job P C R H r job w)
  unfolding execute_sync_job KeptIn
  execute-kept r w q =
      if-ends (KeptIn Q) (not (str_eq r.profile "") && not (str_eq r.profile job.profile)) (λ _. q)
        (λ _.
          if-ends (KeptIn Q) (not (str_eq r.space "")) (λ _. q)
            (λ _.
              checking-ends (KeptIn Q) _ w _ (λ _. q)
                (λ prepared _.
                  calling-ends (KeptIn Q) _ _ _ (λ _. connect_keeps job.profile w q)
                    (λ client _.
                      let connected = connect_keeps job.profile w q in
                      if-ends (KeptIn Q) (not (str_eq client.account_id job.account_id))
                        (λ _. connected)
                        (λ e.
                          let same =
                            (str_eq_iff client.account_id job.account_id).0 (not-false _ e) in
                          if-ends (KeptIn Q) (not (str_eq job.space_id ""))
                            (λ _.
                              calling-ends (KeptIn Q) _ _ _
                                (λ _. select_keeps client job.space_id _ connected)
                                (λ space _.
                                  start_job-kept prepared (record client { space_id = space }) _
                                    same (select_keeps client job.space_id _ connected)))
                            (λ _. start_job-kept prepared client _ same connected))))))

  -- A job runs only for what it is bound to. What signing in, selecting a Space, and every run with a
  -- client whose account and Space are the job's keep of the world, `executeSyncJob` keeps, for any
  -- request and however it ends: no run starts with another account or in another Space.
  pub execute_sync_job-bound :
      (r : JobRequest) (w : World) → Q w → Q (execute_sync_job P C R H r job w).0
  unfolding KeptIn
  execute_sync_job-bound r w q = execute-kept r w q

-- ===== src/Run/Jobs/Laws.antt =====
-- internal/app/sync/job.go: a job that is added is found again.
use mathlib.Core.Path.{subst}
use ocis_cli.Base.{String, Bool, true, false, not, [], ◌∷◌, some, ◌≡◌, refl, ap, arith, inl, inr}
use ocis_cli.Base.{str_eq, str_eq_iff, str_eq_refl, Bool-cases, ◌==◌}
use ocis_cli.Base.Map.{Map, lookup, has}
use ocis_cli.Base.Result.{Result, ok, err, map_err, Result-cases, ◌>>=◌}
use ocis_cli.Sync.Platform.{Platform}
use ocis_cli.Run.Trees.{Outcome}
use ocis_cli.Run.Snapshots.{put}
use ocis_cli.Run.Request.{Prepared}
use ocis_cli.Run.Session.Kept.{if-ends}
use ocis_cli.Run.Jobs.Store.{
  Job, JobStore, is_valid_name, validate_job, check_job, check_jobs, check_store, load_jobs,
  save_jobs, written, store_version,
}
use ocis_cli.Run.Jobs.Commands.{
  JobRequest, Client, JobError, refused, Services, find_sync_job, with_job, job_of, save_new_job,
  add_sync_job,
}
use ocis_cli.Run.Jobs.Guards.{calling-ends, checking-ends}

module _ {ℓ} {V : Type ℓ} where
  pub lookup-put : (k : String) (v : V) (m : Map V) → lookup k (put k v m) ≡ some v
  unfolding put
  lookup-put k v [] = rw (str_eq_refl k) refl
  lookup-put k v ((j, u) ∷ m) = elim (Bool-cases (str_eq k j)) [
    | inl e ↦ rw e (rw (str_eq_refl k) refl)
    | inr e ↦ rw e (rw e (lookup-put k v m))
  ]

  pub lookup-put_other :
      (k j : String) (v : V) (m : Map V) → str_eq j k ≡ false → lookup j (put k v m) ≡ lookup j m
  unfolding put
  lookup-put_other k j v [] d = rw d refl
  lookup-put_other k j v ((i, u) ∷ m) d = elim (Bool-cases (str_eq k i)) [
    | inl e ↦
        let same : k ≡ i = (str_eq_iff k i).0 e in
        let d' : str_eq j i ≡ false = rw same at d in rw (e, d, d') refl
    | inr e ↦ rw (e, lookup-put_other k j v m d) refl
  ]

written-world : {World : Type 0} (o : Outcome World) → (written o).0 ≡ o.0
unfolding written
written-world (w, err f) = refl
written-world (w, ok _) = refl

both-ok :
    {E : Type 0} (a b : Result E (Unit {0})) → (a >>= λ _. b) ≡ ok tt → (a ≡ ok tt) × (b ≡ ok tt)
both-ok (err e) b h = absurd (ground arith)
both-ok (ok _) b h = (refl, h)

ok-inj : {E A : Type 0} {x y : A} → Path (Result E A) (ok x) (ok y) → x ≡ y
ok-inj {x = x} e = ap (λ r. elim r [ err _ ↦ x | ok a ↦ a ]) e

map_err-ok :
    {E F : Type 0} (wrap : E → F) (a : Result E (Unit {0})) {u : Unit {0}}
    → map_err wrap a ≡ ok u
    → a ≡ ok tt
map_err-ok wrap (err e) h = absurd (ground arith)
map_err-ok wrap (ok _) h = refl

module _ (P : Platform) (is_absolute : String → Bool) where
  check_jobs-put :
      (name : String) (job : Job) (m : Map Job)
      → check_job P is_absolute name job ≡ ok tt
      → check_jobs P is_absolute m ≡ ok tt
      → check_jobs P is_absolute (put name job m) ≡ ok tt
  unfolding check_jobs put
  check_jobs-put name job [] c h = rw c refl
  check_jobs-put name job ((j, u) ∷ m) c h =
      let (first, rest) = both-ok (check_job P is_absolute j u) (check_jobs P is_absolute m) h in
      elim (Bool-cases (str_eq name j)) [
        | inl e ↦ rw (e, c) rest
        | inr e ↦ rw (e, first) (check_jobs-put name job m c rest)
      ]

  check_store-with_job :
      (store : JobStore) (job : Job)
      → check_store P is_absolute store ≡ ok tt
      → validate_job P is_absolute job ≡ ok tt
      → check_store P is_absolute (with_job job store) ≡ ok tt
  unfolding check_store check_job
  check_store-with_job store job c v = elim (Bool-cases (store.version == store_version)) [
    | inl e ↦
        let fits : check_job P is_absolute job.name job ≡ ok tt =
          rw (v, str_eq_refl job.name, check_job) refl in
        rw e (check_jobs-put job.name job store.jobs fits (rw e at c))
    | inr e ↦ absurd (ground (arith, e, c))
  ]

  save_jobs-ok :
      {World : Type 0} (write : JobStore → World → Outcome World) (store : JobStore) (w : World)
      → (save_jobs P is_absolute write store w).1 ≡ ok tt
      → ((save_jobs P is_absolute write store w).0 ≡ (write store w).0)
        × (check_store P is_absolute store ≡ ok tt)
  unfolding save_jobs
  save_jobs-ok write store w h = elim (Result-cases (check_store P is_absolute store)) [
    | inl (f, e) ↦
        let g : (save_jobs P is_absolute write store w).1 ≡ err f = rw (e, save_jobs) refl in
        absurd (ground (arith, g, h))
    | inr (_, e) ↦ (rw (e, save_jobs) (written-world (write store w)), e)
  ]

-- What a command that ends with a new job has done: the name and the job are checked, and the last
-- change of the world is the writing of the document with the job.
record IsAdded (P : Platform) {World : Type 0} (C : Services World) (r : JobRequest)
    (store : JobStore) (job : Job) (w : World) : Type 0 where
  named : job.name ≡ r.name
  name_valid : is_valid_name r.name ≡ true
  valid : validate_job P C.is_absolute job ≡ ok tt
  before : World
  written_last : w ≡ (C.write (with_job job store) before).0

module _ (P : Platform) {World : Type 0} (C : Services World) (r : JobRequest)
    (store : JobStore) where
  -- The claim about a command's end.
  unfoldable Adds : World × Result JobError Job → Type 0
  Adds o = (job : Job) → o.1 ≡ ok job → IsAdded P C r store job o.0

  save_new_job-Adds :
      (prepared : Prepared) (client : Client) (w : World)
      → is_valid_name r.name ≡ true
      → Adds (save_new_job P C r store prepared client w)
  unfolding save_new_job Adds
  save_new_job-Adds prepared client w n =
      if-ends Adds (str_eq client.account_id "") (λ _ j h. absurd (ground (arith, h)))
        (λ _.
          checking-ends Adds (map_err refused (validate_job P C.is_absolute job)) w _
            (λ e j h. absurd (ground (arith, h)))
            (λ _ v.
              calling-ends Adds (save_jobs P C.is_absolute C.write (with_job job store) w) refused _
                (λ e j h. absurd (ground (arith, h)))
                (λ _ s j h.
                  let saved = save_jobs-ok P C.is_absolute C.write (with_job job store) w s in
                  subst
                    (λ k.
                      IsAdded P C r store k
                        (save_jobs P C.is_absolute C.write (with_job job store) w).0)
                    (ok-inj h)
                    (record {
                      named = refl;
                      name_valid = n;
                      valid = map_err-ok refused (validate_job P C.is_absolute job) v;
                      before = w;
                      written_last = saved.0;
                    }))))
    where
      job : Job
      job = job_of r prepared client

  add_sync_job-Adds : (w : World) → Adds (add_sync_job P C r store w)
  unfolding add_sync_job Adds
  add_sync_job-Adds w =
      if-ends Adds (not (is_valid_name r.name)) (λ _ j h. absurd (ground (arith, h)))
        (λ n.
          if-ends Adds (has r.name store.jobs) (λ _ j h. absurd (ground (arith, h)))
            (λ _.
              checking-ends Adds _ w _ (λ e j h. absurd (ground (arith, h)))
                (λ prepared _.
                  calling-ends Adds _ _ _ (λ e j h. absurd (ground (arith, h)))
                    (λ client _.
                      calling-ends Adds _ _ _ (λ e j h. absurd (ground (arith, h)))
                        (λ space _.
                          save_new_job-Adds prepared (record client { space_id = space }) _
                            (ground (arith, n)))))))

  lookup-renamed :
      (job : Job) → job.name ≡ r.name → lookup r.name (put job.name job store.jobs) ≡ some job
  lookup-renamed job e = rw (← e) (lookup-put job.name job store.jobs)

  -- A job that was added is there: where the document of jobs passes its checks before and
  -- `addSyncJob` returns a job, the document with the job is what it wrote last, loading that document
  -- succeeds, the job is found in it under the requested name, and every other name finds what it
  -- found before.
  pub add_sync_job-find :
      (w : World) {job : Job}
      → check_store P C.is_absolute store ≡ ok tt
      → (add_sync_job P C r store w).1 ≡ ok job
      → ((w₀ : World) × ((add_sync_job P C r store w).0 ≡ (C.write (with_job job store) w₀).0))
        × (load_jobs P C.is_absolute (ok (some (with_job job store))) ≡ ok (with_job job store))
        × (find_sync_job r.name (with_job job store) ≡ ok job)
        × ((k : String)
            → str_eq k r.name ≡ false
            → lookup k (with_job job store).jobs ≡ lookup k store.jobs)
  unfolding Adds load_jobs find_sync_job
  add_sync_job-find w {job} c h =
      let a = add_sync_job-Adds w job h in
      (
        (a.before, a.written_last),
        rw (check_store-with_job P C.is_absolute store job c a.valid) refl,
        rw (a.name_valid, lookup-renamed job a.named) refl,
        λ k d. lookup-put_other job.name k job store.jobs (rw (← a.named) at d),
      )

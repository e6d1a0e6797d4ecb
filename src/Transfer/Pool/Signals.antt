-- ===== src/Transfer/Pool/Signals.antt =====
-- internal/transfer/transfer.go: the channel of errors, the cancellation, and the queue.
use ocis_cli.Base.{◌<◌, ◌≤◌, Bool, true, false, ◌≡◌, refl, arith, ◌⊎◌, inl, inr}
use ocis_cli.Base.{length, count_if, is_some}
use ocis_cli.Base.Seq.{count_if-set, length-set, count_if-get, count_if-replicate, length-replicate}
use ocis_cli.Transfer.Pool.{
  Transfer, Pool, Worker, waiting, running, canceling, returned, worker_count, start, report,
  is_done, Advance, send, break_off, close, complete, run_fails, failing, fail, fail_silently,
  cancel, leave, Step, advance, progress, stop, Reach, begin, later,
}

abbrev pub is_canceling : {Error : Type 0} → Worker Error → Bool
is_canceling canceling = true
is_canceling _ = false

abbrev pub is_returned : {Error : Type 0} → Worker Error → Bool
is_returned returned = true
is_returned _ = false

pub record IsSignaled {Error : Type 0} (X : Transfer) (p : Pool Error) : Type 0 where
  -- An error in the channel is followed by a call of `cancel`.
  pub announced :
      is_some p.failure ≡ true → (p.is_canceled ≡ true) ⊎ (1 ≤ count_if is_canceling p.workers)
  pub canceled_late : p.is_canceled ≡ true → is_some p.failure ≡ true
  pub canceling_late : 1 ≤ count_if is_canceling p.workers → is_some p.failure ≡ true
  -- While the queue is open, a goroutine returns only behind an error.
  pub returned_late :
      p.is_open ≡ true → 1 ≤ count_if is_returned p.workers → is_some p.failure ≡ true
  pub closed_late : p.is_open ≡ false → (p.next ≡ length X.tasks) ⊎ (is_done X p ≡ true)
  pub staffed : 1 ≤ length p.workers

module _ {Error : Type 0} (X : Transfer) where
  Advance-IsSignaled : {p q : Pool Error} → Advance X p q → IsSignaled X p → IsSignaled X q
  unfolding report
  Advance-IsSignaled {p = p} (send k t o e w) h =
      let c = count_if-set is_canceling p.workers k (running p.next) w in
      let r = count_if-set is_returned p.workers k (running p.next) w in
      record {
        announced = λ f. ground (arith, h.announced f, c);
        canceled_late = h.canceled_late;
        canceling_late = λ n. h.canceling_late (omega (arith, c));
        returned_late = λ o n. h.returned_late o (omega (arith, r));
        closed_late = λ f. absurd (ground arith);
        staffed = omega (arith, h.staffed, length-set p.workers k (running p.next));
      }
  Advance-IsSignaled {p = p} (break_off o l d) h = record {
    announced = h.announced;
    canceled_late = h.canceled_late;
    canceling_late = h.canceling_late;
    returned_late = λ f n. absurd (ground arith);
    closed_late = λ f. inr d;
    staffed = h.staffed;
  }
  Advance-IsSignaled {p = p} (close o l) h = record {
    announced = h.announced;
    canceled_late = h.canceled_late;
    canceling_late = h.canceling_late;
    returned_late = λ f n. absurd (ground arith);
    closed_late = λ f. inl l;
    staffed = h.staffed;
  }
  Advance-IsSignaled {p = p} (complete k i t w e) h =
      let c = count_if-set is_canceling p.workers k waiting w in
      let r = count_if-set is_returned p.workers k waiting w in
      record {
        announced = λ f. ground (arith, h.announced f, c);
        canceled_late = h.canceled_late;
        canceling_late = λ n. h.canceling_late (omega (arith, c));
        returned_late = λ o n. h.returned_late o (omega (arith, r));
        closed_late = h.closed_late;
        staffed = omega (arith, h.staffed, length-set p.workers k waiting);
      }
  Advance-IsSignaled {p = p} (run_fails k i x w) h =
      let c = count_if-set is_canceling p.workers k (failing i x) w in
      let r = count_if-set is_returned p.workers k (failing i x) w in
      record {
        announced = λ f. ground (arith, h.announced f, c);
        canceled_late = h.canceled_late;
        canceling_late = λ n. h.canceling_late (omega (arith, c));
        returned_late = λ o n. h.returned_late o (omega (arith, r));
        closed_late = h.closed_late;
        staffed = omega (arith, h.staffed, length-set p.workers k (failing i x));
      }
  Advance-IsSignaled {p = p} (fail k i t x w e n) h =
      let c = count_if-set is_canceling p.workers k canceling w in
      record {
        announced = λ f. inr (omega (arith, c));
        canceled_late = λ f. refl;
        canceling_late = λ n. refl;
        returned_late = λ o n. refl;
        closed_late = h.closed_late;
        staffed = omega (arith, h.staffed, length-set p.workers k canceling);
      }
  Advance-IsSignaled {p = p} (fail_silently k i x w s) h =
      let c = count_if-set is_canceling p.workers k returned w in
      record {
        announced = λ f. ground (arith, h.announced f, c);
        canceled_late = h.canceled_late;
        canceling_late = λ n. s;
        returned_late = λ o n. s;
        closed_late = h.closed_late;
        staffed = omega (arith, h.staffed, length-set p.workers k returned);
      }
  Advance-IsSignaled {p = p} (cancel k w) h =
      let f = h.canceling_late (count_if-get is_canceling p.workers k w refl) in
      record {
        announced = λ _. inl refl;
        canceled_late = λ _. f;
        canceling_late = λ _. f;
        returned_late = λ _ _. f;
        closed_late = λ o. inr refl;
        staffed = omega (arith, h.staffed, length-set p.workers k returned);
      }
  Advance-IsSignaled {p = p} (leave k o w) h =
      let c = count_if-set is_canceling p.workers k returned w in
      record {
        announced = λ f. ground (arith, h.announced f, c);
        canceled_late = h.canceled_late;
        canceling_late = λ n. h.canceling_late (omega (arith, c));
        returned_late = λ t n. absurd (ground arith);
        closed_late = h.closed_late;
        staffed = omega (arith, h.staffed, length-set p.workers k returned);
      }

  Step-IsSignaled : {p q : Pool Error} → Step X p q → IsSignaled X p → IsSignaled X q
  unfolding report
  Step-IsSignaled (advance a) h = Advance-IsSignaled a h
  Step-IsSignaled (progress k i t bytes w e) h = record {
    announced = h.announced;
    canceled_late = h.canceled_late;
    canceling_late = h.canceling_late;
    returned_late = h.returned_late;
    closed_late = h.closed_late;
    staffed = h.staffed;
  }
  Step-IsSignaled stop h = record {
    announced = h.announced;
    canceled_late = h.canceled_late;
    canceling_late = h.canceling_late;
    returned_late = h.returned_late;
    closed_late = λ f. ground (arith, h.closed_late f);
    staffed = h.staffed;
  }

  start-IsSignaled : 0 < length X.tasks → IsSignaled X (start {Error = Error} X)
  unfolding start worker_count
  start-IsSignaled n = record {
    announced = λ f. absurd (ground arith);
    canceled_late = λ f. absurd (ground arith);
    canceling_late = λ c. absurd (
        omega (
          arith,
          c,
          count_if-replicate is_canceling (worker_count X.concurrency (length X.tasks)) waiting
              refl,
        ));
    returned_late = λ o c. absurd (
        omega (
          arith,
          c,
          count_if-replicate is_returned (worker_count X.concurrency (length X.tasks)) waiting refl,
        ));
    closed_late = λ f. absurd (ground arith);
    staffed = ground (
      arith,
      length-replicate {A = Worker Error} (worker_count X.concurrency (length X.tasks)) waiting,
      n,
    );
  }

  -- However the goroutines interleave, these relations hold between the channel, the contexts, the
  -- queue and the goroutines.
  pub Reach-IsSignaled : {p : Pool Error} → Reach X p → IsSignaled X p
  Reach-IsSignaled (begin n) = start-IsSignaled n
  Reach-IsSignaled (later r s) = Step-IsSignaled s (Reach-IsSignaled r)

-- ===== src/Transfer/Pool/Sums.antt =====
-- internal/transfer/transfer.go: the bytes that a transfer counts.
use ocis_cli.Base.{true, false, refl, arith, inr}
use ocis_cli.Base.{length}
use ocis_cli.Base.Int.{pos_part}
use ocis_cli.Base.Seq.{sum-replicate, length-replicate, count_if-get}
use ocis_cli.Transfer.Pool.{
  Transfer, Pool, start, report, Advance, send, break_off, close, complete, run_fails, fail,
  fail_silently, cancel, leave, Step, advance, progress, stop, Reach, begin, later,
}
use ocis_cli.Transfer.Pool.Counts.{IsCounted, Reach-IsCounted}
use ocis_cli.Transfer.Pool.Signals.{is_canceling, IsSignaled, Reach-IsSignaled}
use ocis_cli.Transfer.Pool.Settled.{
  IsSummed, report-IsReported, busy_lt, send-IsSettled, complete-IsSettled, progress-IsSettled,
  run_fails-IsSettled, leave-IsSettled,
}

module _ {Error : Type 0} (X : Transfer) where
  Advance-IsSummed :
      {p q : Pool Error}
      → Advance X p q
      → IsCounted X p
      → IsSignaled X p
      → IsSummed X p
      → IsSummed X q
  unfolding report
  Advance-IsSummed (send k t o e w) c s h = record {
    measured = h.measured;
    summed = h.summed;
    settled = send-IsSettled X k h w;
    shown_bounded = h.shown_bounded;
  }
  Advance-IsSummed (break_off o l d) c s h = record {
    measured = h.measured;
    summed = h.summed;
    settled = h.settled;
    shown_bounded = h.shown_bounded;
  }
  Advance-IsSummed (close o l) c s h = record {
    measured = h.measured;
    summed = h.summed;
    settled = h.settled;
    shown_bounded = h.shown_bounded;
  }
  Advance-IsSummed {p = p} (complete k i t w e) c s h =
      let r = report-IsReported X i t t.size true p h e (busy_lt X k i c w) in
      record {
        measured = r.measured;
        summed = r.summed;
        settled = complete-IsSettled X k i t (report X i t t.size true p) h r refl refl w e;
        shown_bounded = r.shown_bounded;
      }
  Advance-IsSummed (run_fails k i x w) c s h = record {
    measured = h.measured;
    summed = h.summed;
    settled = run_fails-IsSettled X k i x h w;
    shown_bounded = h.shown_bounded;
  }
  Advance-IsSummed (fail k i t x w e n) c s h = record {
    measured = h.measured;
    summed = h.summed;
    settled = λ j u l g. inr (inr refl);
    shown_bounded = h.shown_bounded;
  }
  Advance-IsSummed (fail_silently k i x w f) c s h = record {
    measured = h.measured;
    summed = h.summed;
    settled = λ j u l g. inr (inr f);
    shown_bounded = h.shown_bounded;
  }
  Advance-IsSummed {p = p} (cancel k w) c s h = record {
    measured = h.measured;
    summed = h.summed;
    settled =
        λ j u l g. inr (inr (s.canceling_late (count_if-get is_canceling p.workers k w refl)));
    shown_bounded = h.shown_bounded;
  }
  Advance-IsSummed (leave k o w) c s h = record {
    measured = h.measured;
    summed = h.summed;
    settled = leave-IsSettled X k h w;
    shown_bounded = h.shown_bounded;
  }

  Step-IsSummed :
      {p q : Pool Error} → Step X p q → IsCounted X p → IsSignaled X p → IsSummed X p → IsSummed X q
  unfolding report
  Step-IsSummed (advance a) c s h = Advance-IsSummed a c s h
  Step-IsSummed {p = p} (progress k i t bytes w e) c s h =
      let r = report-IsReported X i t bytes false p h e (busy_lt X k i c w) in
      record {
        measured = r.measured;
        summed = r.summed;
        settled =
            progress-IsSettled X k i (pos_part bytes) (report X i t bytes false p) h r refl refl w;
        shown_bounded = r.shown_bounded;
      }
  Step-IsSummed stop c s h = record {
    measured = h.measured;
    summed = h.summed;
    settled = h.settled;
    shown_bounded = h.shown_bounded;
  }

  start-IsSummed : IsSummed X (start {Error = Error} X)
  unfolding start
  start-IsSummed = record {
    measured = length-replicate (length X.tasks) 0;
    summed = rw (sum-replicate (length X.tasks)) refl;
    settled = λ j u l g. absurd (omega (arith, l));
    shown_bounded = tt;
  }

  -- However the goroutines interleave: `completedBytes` is the sum of what the tasks reported last, as
  -- an `int64`, each task that was handed out is at work, has reported its whole size, or an error
  -- is in the channel, and no progress that is shown counts more files than there are.
  pub Reach-IsSummed : {p : Pool Error} → Reach X p → IsSummed X p
  Reach-IsSummed (begin n) = start-IsSummed
  Reach-IsSummed (later r s) =
      Step-IsSummed s (Reach-IsCounted X r) (Reach-IsSignaled X r) (Reach-IsSummed r)

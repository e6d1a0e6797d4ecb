-- ===== src/Transfer/Pool/Counts.antt =====
-- internal/transfer/transfer.go: how many tasks are handed out and completed.
use ocis_cli.Base.{ℕ, suc, ◌+◌, ◌<◌, ◌≤◌, Bool, true, false, none, ◌≡◌, refl, arith}
use ocis_cli.Base.{length, count_if, All, All-mono}
use ocis_cli.Base.Seq.{
  count_if-set, get_elem?-lt, All-set, All-get, All-replicate, count_if-replicate,
}
use ocis_cli.Transfer.Pool.{
  Transfer, Pool, Worker, waiting, running, canceling, returned, worker_count, start, report,
  Advance, send, break_off, close, complete, run_fails, failing, fail, fail_silently, cancel, leave,
  Step, advance, progress, stop, Reach, begin, later,
}

-- The goroutine has a task.
abbrev pub is_busy : {Error : Type 0} → Worker Error → Bool
is_busy (running i) = true
is_busy (failing i e) = true
is_busy _ = false

-- The index that a goroutine works on was handed out.
abbrev pub IsTaken : {Error : Type 0} → ℕ → Worker Error → Type 0
IsTaken next (running i) = i < next
IsTaken next (failing i e) = i < next
IsTaken next _ = Unit

pub record IsCounted {Error : Type 0} (X : Transfer) (p : Pool Error) : Type 0 where
  pub bounded : p.next ≤ length X.tasks
  pub taken : All (IsTaken p.next) p.workers
  pub counted : p.completed_files + count_if is_busy p.workers ≤ p.next
  pub all_counted : p.failure ≡ none → p.completed_files + count_if is_busy p.workers ≡ p.next

IsTaken-suc : {Error : Type 0} (next : ℕ) (v : Worker Error) → IsTaken next v → IsTaken (suc next) v
IsTaken-suc next waiting h = tt
IsTaken-suc next (running i) h = omega arith
IsTaken-suc next (failing i e) h = omega arith
IsTaken-suc next canceling h = tt
IsTaken-suc next returned h = tt

module _ {Error : Type 0} (X : Transfer) where
  Advance-IsCounted : {p q : Pool Error} → Advance X p q → IsCounted X p → IsCounted X q
  unfolding report
  Advance-IsCounted {p = p} (send k t o e w) h = record {
    bounded = omega (arith, get_elem?-lt X.tasks p.next e);
    taken =
        All-set (IsTaken (suc p.next)) p.workers k (running p.next) (omega arith)
          (All-mono (IsTaken p.next) (IsTaken (suc p.next)) p.workers (IsTaken-suc p.next) h.taken);
    counted = omega (arith, h.counted, count_if-set is_busy p.workers k (running p.next) w);
    all_counted =
        λ f. omega (arith, h.all_counted f, count_if-set is_busy p.workers k (running p.next) w);
  }
  Advance-IsCounted {p = p} (break_off o l d) h = record {
    bounded = h.bounded;
    taken = h.taken;
    counted = h.counted;
    all_counted = h.all_counted;
  }
  Advance-IsCounted {p = p} (close o l) h = record {
    bounded = h.bounded;
    taken = h.taken;
    counted = h.counted;
    all_counted = h.all_counted;
  }
  Advance-IsCounted {p = p} (complete k i t w e) h = record {
    bounded = h.bounded;
    taken = All-set (IsTaken p.next) p.workers k waiting tt h.taken;
    counted = omega (arith, h.counted, count_if-set is_busy p.workers k waiting w);
    all_counted = λ f. omega (arith, h.all_counted f, count_if-set is_busy p.workers k waiting w);
  }
  Advance-IsCounted {p = p} (run_fails k i x w) h = record {
    bounded = h.bounded;
    taken =
        All-set (IsTaken p.next) p.workers k (failing i x)
          (All-get (IsTaken p.next) p.workers k w h.taken) h.taken;
    counted = omega (arith, h.counted, count_if-set is_busy p.workers k (failing i x) w);
    all_counted =
        λ f. omega (arith, h.all_counted f, count_if-set is_busy p.workers k (failing i x) w);
  }
  Advance-IsCounted {p = p} (fail k i t x w e n) h = record {
    bounded = h.bounded;
    taken = All-set (IsTaken p.next) p.workers k canceling tt h.taken;
    counted = omega (arith, h.counted, count_if-set is_busy p.workers k canceling w);
    all_counted = λ f. absurd (ground arith);
  }
  Advance-IsCounted {p = p} (fail_silently k i x w s) h = record {
    bounded = h.bounded;
    taken = All-set (IsTaken p.next) p.workers k returned tt h.taken;
    counted = omega (arith, h.counted, count_if-set is_busy p.workers k returned w);
    all_counted = λ f. absurd (ground arith);
  }
  Advance-IsCounted {p = p} (cancel k w) h = record {
    bounded = h.bounded;
    taken = All-set (IsTaken p.next) p.workers k returned tt h.taken;
    counted = omega (arith, h.counted, count_if-set is_busy p.workers k returned w);
    all_counted = λ f. omega (arith, h.all_counted f, count_if-set is_busy p.workers k returned w);
  }
  Advance-IsCounted {p = p} (leave k o w) h = record {
    bounded = h.bounded;
    taken = All-set (IsTaken p.next) p.workers k returned tt h.taken;
    counted = omega (arith, h.counted, count_if-set is_busy p.workers k returned w);
    all_counted = λ f. omega (arith, h.all_counted f, count_if-set is_busy p.workers k returned w);
  }

  Step-IsCounted : {p q : Pool Error} → Step X p q → IsCounted X p → IsCounted X q
  unfolding report
  Step-IsCounted (advance a) h = Advance-IsCounted a h
  Step-IsCounted (progress k i t bytes w e) h = record {
    bounded = h.bounded;
    taken = h.taken;
    counted = h.counted;
    all_counted = h.all_counted;
  }
  Step-IsCounted stop h = record {
    bounded = h.bounded;
    taken = h.taken;
    counted = h.counted;
    all_counted = h.all_counted;
  }

  start-IsCounted : IsCounted X (start {Error = Error} X)
  unfolding start worker_count
  start-IsCounted = record {
    bounded = omega arith;
    taken = All-replicate (IsTaken 0) _ waiting tt;
    counted = omega (
      arith,
      count_if-replicate is_busy (worker_count X.concurrency (length X.tasks)) waiting refl,
    );
    all_counted = λ _. omega (
      arith,
      count_if-replicate is_busy (worker_count X.concurrency (length X.tasks)) waiting refl,
    );
  }

  -- However the goroutines interleave: no more tasks are handed out than there are, each goroutine
  -- works on one that was handed out, the completed files and the busy goroutines together are not
  -- more than the tasks handed out, and without an error they are as many.
  pub Reach-IsCounted : {p : Pool Error} → Reach X p → IsCounted X p
  Reach-IsCounted (begin n) = start-IsCounted
  Reach-IsCounted (later r s) = Step-IsCounted s (Reach-IsCounted r)

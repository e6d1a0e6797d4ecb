-- ===== src/Transfer/Pool/Results.antt =====
-- internal/transfer/transfer.go: what `runTasks` returns.
use ocis_cli.Base.{
  ℕ, ◌%◌, Bool, false, List, none, some, ◌≡◌, refl, ap, sym, ◌∙◌, arith, inl, inr, map,
}
use ocis_cli.Base.{length, count_if, count_if-none, All, All-mono, Option-cases}
use ocis_cli.Base.Int.{pos, from_bits, two_64, ◌≤ℤ◌}
use ocis_cli.Base.Result.{ok}
use ocis_cli.Base.Seq.{get_elem?, sum, get_elem?-lt}
use ocis_cli.Transfer.Pool.{
  Transfer, Task, Pool, Worker, returned, total_bytes, Reach, IsOver, over, outcome, is_done,
}
use ocis_cli.Transfer.Pool.Counts.{is_busy, Reach-IsCounted}
use ocis_cli.Transfer.Pool.Signals.{Reach-IsSignaled}
use ocis_cli.Transfer.Pool.Bytes.{size_of, total_bytes-sum, reported_all}
use ocis_cli.Transfer.Pool.Sums.{Reach-IsSummed}
use ocis_cli.Transfer.Pool.Settled.{works_on, IsSettled}

none_counted :
    {Error : Type 0} (test : Worker Error → Bool) (ws : List (Worker Error))
    → test returned ≡ false
    → All (λ v. v ≡ returned) ws
    → count_if test ws ≡ 0
none_counted test ws e h =
    count_if-none test ws (All-mono (λ v. v ≡ returned) (λ v. test v ≡ false) ws (λ v r. rw r e) h)

module _ {Error : Type 0} (X : Transfer) where
  outcome-ok : (p : Pool Error) → outcome X p ≡ ok tt → (p.failure ≡ none) × (is_done X p ≡ false)
  unfolding outcome
  outcome-ok p e = elim (Option-cases p.failure) [
    | inl n ↦ (n, ground (arith, n, e))
    | inr ((s, x), f) ↦ absurd (ground (arith, f, e))
  ]

  -- A task that was handed out has reported its whole size, where no goroutine is at work and there
  -- is no error.
  idle-settled :
      (p : Pool Error) (i : ℕ) (t : Task)
      → All (λ v. v ≡ returned) p.workers
      → p.failure ≡ none
      → IsSettled p i t
      → get_elem? p.reported i ≡ some (size_of t)
  idle-settled p i t a n (inl c) =
      absurd (omega (arith, c, none_counted (works_on i) p.workers refl a))
  idle-settled p i t a n (inr (inl e)) = e
  idle-settled p i t a n (inr (inr f)) = absurd (ground (arith, f, n))

  -- A transfer that returns no error has done all of its work: for tasks with sizes that are not
  -- negative, each was handed out and completed, each reported its whole size at last, and the bytes
  -- counted are the total, as an `int64`.
  pub outcome_complete :
      {p : Pool Error}
      → Reach X p
      → IsOver X p
      → All (λ t. pos 0 ≤ℤ t.size) X.tasks
      → outcome X p ≡ ok tt
      → (p.completed_files ≡ length X.tasks)
        × (p.reported ≡ map size_of X.tasks)
        × (p.completed_bytes ≡ total_bytes X.tasks (pos 0))
  outcome_complete {p} r (over o a) z e =
      let (n, d) = outcome-ok p e in
      let c = Reach-IsCounted X r in
      let s = Reach-IsSignaled X r in
      let h = Reach-IsSummed X r in
      let all_sent : p.next ≡ length X.tasks = ground (arith, s.closed_late o, d) in
      let same : p.reported ≡ map size_of X.tasks =
        reported_all X.tasks p.reported h.measured (λ i t g.
          idle-settled p i t a n
            (h.settled i t (omega (arith, all_sent, get_elem?-lt X.tasks i g)) g)) in
      (
        omega (arith, all_sent, c.all_counted n, none_counted is_busy p.workers refl a),
        same,
        h.summed
            ∙ ap (λ ns. from_bits (sum ns % two_64)) same
            ∙ ap (λ n. from_bits (n % two_64)) (omega arith)
            ∙ sym (total_bytes-sum X.tasks 0 z),
      )

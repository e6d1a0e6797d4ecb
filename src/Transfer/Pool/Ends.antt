-- ===== src/Transfer/Pool/Ends.antt =====
-- internal/transfer/transfer.go: the goroutines and the send loop never wait for one another forever.
use ocis_cli.Base.{
  ℕ, zero, suc, ◌+◌, ◌*◌, ◌<◌, ◌≤◌, Bool, true, Option, some, ◌≡◌, refl, arith, ◌⊎◌, inl, inr,
}
use ocis_cli.Base.{length, count_if, Bool-cases, ltb, leb, Option-cases}
use ocis_cli.Base.Seq.{get_elem?, get_elem?-some, get_elem?-counted, All-get}
use ocis_cli.Transfer.Pool.{
  Transfer, Pool, Worker, waiting, running, is_done, Advance, send, break_off, close, complete,
  run_fails, failing, Agrees, fail, fail_silently, cancel, leave, advance, Reach, later, Advances,
  done, next_advance, IsOver, over,
}
use ocis_cli.Transfer.Pool.Counts.{IsTaken, IsCounted, Reach-IsCounted}
use ocis_cli.Transfer.Pool.Signals.{is_canceling, IsSignaled, Reach-IsSignaled}
use ocis_cli.Transfer.Pool.Weight.{
  is_running, is_failing, is_waiting, weight, running-index, failing-index, is_canceling-eq,
  is_waiting-eq, All-returned, weight-bounded, Advance-decreases, Advances-bounded,
}

module _ {Error : Type 0} (X : Transfer) where
  module _ (errors : ℕ → Option Error) where
    abbrev Moves : Pool Error → Type 0
    Moves p = (q : Pool Error) × ((a : Advance X p q) × Agrees X errors a)

    -- The send loop, where no goroutine takes the next task.
    loop-Moves : {p : Pool Error} → IsCounted X p → p.is_open ≡ true → is_done X p ≡ true → Moves p
    loop-Moves {p} c o d = elim (Bool-cases (ltb p.next (length X.tasks))) [
      | inl l ↦ (_, (break_off o (ground arith) d, tt))
      | inr l ↦ (_, (close o (ground (arith, c.bounded)), tt))
    ]

    waiting-Moves :
        {p : Pool Error} (k : ℕ) → IsCounted X p → get_elem? p.workers k ≡ some waiting → Moves p
    waiting-Moves {p} k c w = elim (Bool-cases p.is_open) [
      | inl o ↦ elim (Bool-cases (ltb p.next (length X.tasks))) [
        | inl l ↦
            let (t, e) = get_elem?-some X.tasks p.next (ground arith) in (_, (send k t o e w, tt))
        | inr l ↦ (_, (close o (ground (arith, c.bounded)), tt))
      ]
      | inr o ↦ (_, (leave k o w, tt))
    ]

    -- A `run` ends as the table says.
    running-Moves :
        {p : Pool Error} (k i : ℕ)
        → IsCounted X p
        → get_elem? p.workers k ≡ some (running i)
        → Moves p
    running-Moves {p} k i c w =
        let taken = All-get (IsTaken p.next) p.workers k w c.taken in
        let (t, e) = get_elem?-some X.tasks i (omega (arith, taken, c.bounded)) in
        elim (Option-cases (errors i)) [
          | inl n ↦ (_, (complete k i t w e, n))
          | inr (x, f) ↦ (_, (run_fails k i x w, f))
        ]

    -- The error is put into the channel, or the channel is full and the error is dropped.
    failing-Moves :
        {p : Pool Error} (k i : ℕ) (x : Error)
        → IsCounted X p
        → get_elem? p.workers k ≡ some (failing i x)
        → Moves p
    failing-Moves {p} k i x c w =
        let taken = All-get (IsTaken p.next) p.workers k w c.taken in
        let (t, e) = get_elem?-some X.tasks i (omega (arith, taken, c.bounded)) in
        elim (Option-cases p.failure) [
          | inl n ↦ (_, (fail k i t x w e n, tt))
          | inr (y, f) ↦ (_, (fail_silently k i x w (rw f refl), tt))
        ]

    idle_cases :
        {p : Pool Error}
        → IsCounted X p
        → IsSignaled X p
        → count_if is_running p.workers ≡ 0
        → count_if is_failing p.workers ≡ 0
        → count_if is_canceling p.workers ≡ 0
        → count_if is_waiting p.workers ≡ 0
        → IsOver X p ⊎ Moves p
    idle_cases {p} c s a b d e = elim (Bool-cases p.is_open) [
      | inl o ↦
          let r = All-returned p.workers a b d e in
          let f = s.returned_late o (omega (arith, r.1, s.staffed)) in
          inr (loop-Moves c o (ground (arith, s.announced f)))
      | inr o ↦ inl (over o (All-returned p.workers a b d e).0)
    ]

    -- A goroutine that a test finds, or the test finds none.
    found :
        {p : Pool Error} (test : Worker Error → Bool)
        → ((k : ℕ) (v : Worker Error) → get_elem? p.workers k ≡ some v → test v ≡ true → Moves p)
        → (count_if test p.workers ≡ 0 → IsOver X p ⊎ Moves p)
        → IsOver X p ⊎ Moves p
    found {p} test takes none_left = elim (Bool-cases (leb 1 (count_if test p.workers))) [
      | inl a ↦
          let (k, v, w, t) = get_elem?-counted test p.workers (ground (arith, a)) in
          inr (takes k v w t)
      | inr a ↦ none_left (ground (arith, a))
    ]

    -- In every state that is reached, the call is over or a step can be taken.
    advance_cases : {p : Pool Error} → Reach X p → IsOver X p ⊎ Moves p
    advance_cases {p} r =
        let c = Reach-IsCounted X r in
        found is_running
          (λ k v w t. let (i, e) = running-index v t in running-Moves k i c (rw (← e) w))
          (λ a.
            found is_failing
              (λ k v w t. let (i, (x, e)) = failing-index v t in failing-Moves k i x c (rw (← e) w))
              (λ b.
                found is_canceling (λ k v w t. (_, (cancel k (rw (← is_canceling-eq v t) w), tt)))
                  (λ d.
                    found is_waiting (λ k v w t. waiting-Moves k c (rw (← is_waiting-eq v t) w))
                      (λ e. idle_cases c (Reach-IsSignaled X r) a b d e))))

    ends_within :
        (fuel : ℕ) {p : Pool Error}
        → weight X p < fuel
        → Reach X p
        → (n : ℕ) × ((q : Pool Error) × Advances X errors n p q × IsOver X q)
    ends_within zero l r = absurd (omega (arith, l))
    ends_within (suc fuel) {p} l r = elim (advance_cases r) [
      | inl o ↦ (0, (p, done, o))
      | inr (q, (a, g)) ↦
          let smaller = Advance-decreases X a in
          let (n, (q', rest, o)) =
            ends_within fuel (omega (arith, l, smaller)) (later r (advance a)) in
          (suc n, (q', next_advance a g rest, o))
    ]

  Reach-Advances :
      (errors : ℕ → Option Error) {n : ℕ} {p q : Pool Error}
      → Reach X p
      → Advances X errors n p q
      → Reach X q
  Reach-Advances errors r done = r
  Reach-Advances errors r (next_advance a g rest) = Reach-Advances errors (later r (advance a)) rest

  -- A transfer comes to its end, if each task's `run` does. Take any state that is reached, however the
  -- goroutines interleaved and whether or not the context was canceled, let each `run` that has not
  -- ended end with no error or with one, in any combination, and let the pool take any steps. Then
  -- they are at most four for each task, four for each goroutine and one, reports of progress not
  -- counted, and some more lead to a state where the send loop and every goroutine have returned.
  pub Reach-ends :
      (errors : ℕ → Option Error) {m : ℕ} {p q : Pool Error}
      → Reach X p
      → Advances X errors m p q
      → (m ≤ 4 * length X.tasks + 4 * length p.workers + 1)
        × ((n : ℕ) × ((o : Pool Error) × Advances X errors n q o × IsOver X o))
  Reach-ends errors {p = p} {q = q} r s = (
    grind (arith, Advances-bounded X errors s, weight-bounded p.workers),
    ends_within errors (suc (weight X q)) (omega arith) (Reach-Advances errors r s),
  )

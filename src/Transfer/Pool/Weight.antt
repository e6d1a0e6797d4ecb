-- ===== src/Transfer/Pool/Weight.antt =====
-- internal/transfer/transfer.go: how many steps a pool can still take.
use ocis_cli.Base.{
  ℕ, ◌+◌, ◌-◌, ◌*◌, ◌<◌, ◌≤◌, Bool, true, false, List, [], ◌∷◌, Option, ◌≡◌, refl, arith,
}
use ocis_cli.Base.{length, count_if, All, if◌then◌else◌}
use ocis_cli.Base.Seq.{count_if-set, get_elem?-lt}
use ocis_cli.Transfer.Pool.{
  Transfer, Pool, Worker, waiting, running, canceling, returned, report, Advance, send, break_off,
  close, complete, run_fails, failing, fail, fail_silently, cancel, leave, Advances, done,
  next_advance,
}
use ocis_cli.Transfer.Pool.Signals.{is_canceling, is_returned}

abbrev pub is_running : {Error : Type 0} → Worker Error → Bool
is_running (running i) = true
is_running _ = false

abbrev pub is_failing : {Error : Type 0} → Worker Error → Bool
is_failing (failing i e) = true
is_failing _ = false

abbrev pub is_waiting : {Error : Type 0} → Worker Error → Bool
is_waiting waiting = true
is_waiting _ = false

-- How many steps are left, at most.
abbrev pub weight : {Error : Type 0} → Transfer → Pool Error → ℕ
weight X p =
    4 * (length X.tasks - p.next)
    + 4 * count_if is_running p.workers
    + 3 * count_if is_failing p.workers
    + 2 * count_if is_canceling p.workers
    + count_if is_waiting p.workers
    + (if p.is_open then 1 else 0)

pub running-index :
    {Error : Type 0} (v : Worker Error) → is_running v ≡ true → (i : ℕ) × (v ≡ running i)
running-index waiting e = absurd (ground arith)
running-index (running i) e = (i, refl)
running-index (failing i x) e = absurd (ground arith)
running-index canceling e = absurd (ground arith)
running-index returned e = absurd (ground arith)

pub failing-index :
    {Error : Type 0} (v : Worker Error)
    → is_failing v ≡ true
    → (i : ℕ) × ((e : Error) × (v ≡ failing i e))
failing-index waiting e = absurd (ground arith)
failing-index (running i) e = absurd (ground arith)
failing-index (failing i x) e = (i, (x, refl))
failing-index canceling e = absurd (ground arith)
failing-index returned e = absurd (ground arith)

pub is_canceling-eq : {Error : Type 0} (v : Worker Error) → is_canceling v ≡ true → v ≡ canceling
is_canceling-eq canceling e = refl
is_canceling-eq waiting e = absurd (ground arith)
is_canceling-eq (failing i x) e = absurd (ground arith)
is_canceling-eq (running i) e = absurd (ground arith)
is_canceling-eq returned e = absurd (ground arith)

pub is_waiting-eq : {Error : Type 0} (v : Worker Error) → is_waiting v ≡ true → v ≡ waiting
is_waiting-eq waiting e = refl
is_waiting-eq canceling e = absurd (ground arith)
is_waiting-eq (failing i x) e = absurd (ground arith)
is_waiting-eq (running i) e = absurd (ground arith)
is_waiting-eq returned e = absurd (ground arith)

-- No goroutine has a task, cancels, or waits.
pub All-returned :
    {Error : Type 0} (ws : List (Worker Error))
    → count_if is_running ws ≡ 0
    → count_if is_failing ws ≡ 0
    → count_if is_canceling ws ≡ 0
    → count_if is_waiting ws ≡ 0
    → All (λ v. v ≡ returned) ws × (count_if is_returned ws ≡ length ws)
All-returned [] a b c d = (tt, refl)
All-returned (waiting ∷ ws) a b c d = absurd (omega (arith, d))
All-returned (running i ∷ ws) a b c d = absurd (omega (arith, a))
All-returned (failing i e ∷ ws) a b c d = absurd (omega (arith, b))
All-returned (canceling ∷ ws) a b c d = absurd (omega (arith, c))
All-returned (returned ∷ ws) a b c d =
    let h =
      All-returned ws (omega (arith, a)) (omega (arith, b)) (omega (arith, c)) (omega (arith, d)) in
    ((refl, h.0), omega (arith, h.1))

pub weight-bounded :
    {Error : Type 0} (ws : List (Worker Error))
    → 4 * count_if is_running ws
        + 3 * count_if is_failing ws
        + 2 * count_if is_canceling ws
        + count_if is_waiting ws
      ≤ 4 * length ws
weight-bounded [] = omega arith
weight-bounded (waiting ∷ ws) = omega (arith, weight-bounded ws)
weight-bounded (running i ∷ ws) = omega (arith, weight-bounded ws)
weight-bounded (failing i e ∷ ws) = omega (arith, weight-bounded ws)
weight-bounded (canceling ∷ ws) = omega (arith, weight-bounded ws)
weight-bounded (returned ∷ ws) = omega (arith, weight-bounded ws)

module _ {Error : Type 0} (X : Transfer) where
  pub Advance-decreases : {p q : Pool Error} → Advance X p q → weight X q < weight X p
  unfolding report
  Advance-decreases {p = p} (send k t o e w) = ground (
    arith,
    get_elem?-lt X.tasks p.next e,
    count_if-set is_running p.workers k (running p.next) w,
    count_if-set is_failing p.workers k (running p.next) w,
    count_if-set is_canceling p.workers k (running p.next) w,
    count_if-set is_waiting p.workers k (running p.next) w,
  )
  Advance-decreases (break_off o l d) = ground arith
  Advance-decreases (close o l) = ground arith
  Advance-decreases {p = p} (complete k i t w e) = ground (
    arith,
    count_if-set is_running p.workers k waiting w,
    count_if-set is_failing p.workers k waiting w,
    count_if-set is_canceling p.workers k waiting w,
    count_if-set is_waiting p.workers k waiting w,
  )
  Advance-decreases {p = p} (run_fails k i x w) = ground (
    arith,
    count_if-set is_running p.workers k (failing i x) w,
    count_if-set is_failing p.workers k (failing i x) w,
    count_if-set is_canceling p.workers k (failing i x) w,
    count_if-set is_waiting p.workers k (failing i x) w,
  )
  Advance-decreases {p = p} (fail k i t x w e n) = ground (
    arith,
    count_if-set is_running p.workers k canceling w,
    count_if-set is_failing p.workers k canceling w,
    count_if-set is_canceling p.workers k canceling w,
    count_if-set is_waiting p.workers k canceling w,
  )
  Advance-decreases {p = p} (fail_silently k i x w s) = ground (
    arith,
    count_if-set is_running p.workers k returned w,
    count_if-set is_failing p.workers k returned w,
    count_if-set is_canceling p.workers k returned w,
    count_if-set is_waiting p.workers k returned w,
  )
  Advance-decreases {p = p} (cancel k w) = ground (
    arith,
    count_if-set is_running p.workers k returned w,
    count_if-set is_failing p.workers k returned w,
    count_if-set is_canceling p.workers k returned w,
    count_if-set is_waiting p.workers k returned w,
  )
  Advance-decreases {p = p} (leave k o w) = ground (
    arith,
    count_if-set is_running p.workers k returned w,
    count_if-set is_failing p.workers k returned w,
    count_if-set is_canceling p.workers k returned w,
    count_if-set is_waiting p.workers k returned w,
  )

  -- No more steps than the weight are taken.
  pub Advances-bounded :
      (errors : ℕ → Option Error) {n : ℕ} {p q : Pool Error}
      → Advances X errors n p q
      → n ≤ weight X p
  Advances-bounded errors done = omega arith
  Advances-bounded errors (next_advance a g rest) =
      omega (arith, Advance-decreases a, Advances-bounded errors rest)

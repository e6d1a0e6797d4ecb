-- ===== src/Transfer/Pool/Settled.antt =====
-- internal/transfer/transfer.go: the tasks that are at work, counted, or behind an error.
use ocis_cli.Base.{
  ℕ, suc, ◌%◌, ◌<◌, ◌≤◌, Bool, true, false, some, ◌≡◌, ◌≢◌, refl, ◌∙◌, arith, ◌⊎◌, inl, inr,
}
use ocis_cli.Base.{length, count_if, All, Bool-cases, ◌==◌, is_some}
use ocis_cli.Base.Int.{ℤ, pos_part, from_bits, two_64}
use ocis_cli.Base.Seq.{
  get_elem?, set, sum, sum-set, length-set, get_elem?-set, get_elem?-set_other, get_elem?-lt,
  get_elem?-some, count_if-set, count_if-get,
}
use ocis_cli.Transfer.Pool.{
  Transfer, Task, Pool, Worker, waiting, running, returned, report, failing,
}
use ocis_cli.Transfer.Pool.Counts.{is_busy, IsCounted}
use ocis_cli.Transfer.Pool.Bytes.{size_of, add-delta}

-- The goroutine works on the task of an index.
abbrev pub works_on : {Error : Type 0} → ℕ → Worker Error → Bool
works_on i (running j) = i == j
works_on i (failing j e) = i == j
works_on i _ = false

-- A task that was handed out is at work or counted, or an error is in the channel.
abbrev pub IsSettled : {Error : Type 0} → Pool Error → ℕ → Task → Type 0
IsSettled p i t =
    (1 ≤ count_if (works_on i) p.workers)
    ⊎ (get_elem? p.reported i ≡ some (size_of t))
    ⊎ (is_some p.failure ≡ true)

pub record IsSummed {Error : Type 0} (X : Transfer) (p : Pool Error) : Type 0 where
  pub measured : length p.reported ≡ length X.tasks
  pub summed : p.completed_bytes ≡ from_bits (sum p.reported % two_64)
  pub settled : (i : ℕ) (t : Task) → i < p.next → get_elem? X.tasks i ≡ some t → IsSettled p i t
  pub shown_bounded : All (λ s. s.completed_files ≤ s.total_files) p.shown

module _ {Error : Type 0} (X : Transfer) where
  -- What a report leaves of the counters.
  pub record IsReported (p q : Pool Error) (i : ℕ) (n : ℕ) : Type 0 where
    pub measured : length q.reported ≡ length X.tasks
    pub summed : q.completed_bytes ≡ from_bits (sum q.reported % two_64)
    pub replaced : get_elem? q.reported i ≡ some n
    pub others : (j : ℕ) → i ≢ j → get_elem? q.reported j ≡ get_elem? p.reported j
    pub shown_bounded : All (λ s. s.completed_files ≤ s.total_files) q.shown

  pub report-IsReported :
      (i : ℕ) (t : Task) (bytes : ℤ) (b : Bool) (p : Pool Error)
      → IsSummed X p
      → get_elem? X.tasks i ≡ some t
      → p.completed_files < length X.tasks
      → IsReported p (report X i t bytes b p) i (pos_part bytes)
  unfolding report
  report-IsReported i t bytes b p h e l =
      let (old, g) =
        get_elem?-some p.reported i (omega (arith, get_elem?-lt X.tasks i e, h.measured)) in
      record {
        measured = length-set p.reported i (pos_part bytes) ∙ h.measured;
        summed =
            rw (g, h.summed)
              (add-delta (sum p.reported) (sum (set p.reported i (pos_part bytes))) old
                (pos_part bytes) (sum-set p.reported i (pos_part bytes) g));
        replaced = get_elem?-set p.reported i g;
        others = λ j d. get_elem?-set_other p.reported i j (pos_part bytes) d;
        shown_bounded = elim (Bool-cases X.has_progress) [
          | inl y ↦ elim (Bool-cases b) [
            | inl c ↦ rw (y, c) (omega (arith, l), h.shown_bounded)
            | inr c ↦ rw (y, c) (omega (arith, l), h.shown_bounded)
          ]
          | inr n ↦ rw n h.shown_bounded
        ];
      }

  -- A goroutine works on fewer tasks than were handed out, so one is not completed.
  pub busy_lt :
      {p : Pool Error} (k i : ℕ)
      → IsCounted X p
      → get_elem? p.workers k ≡ some (running i)
      → p.completed_files < length X.tasks
  busy_lt {p} k i c w = omega (arith, c.counted, c.bounded, count_if-get is_busy p.workers k w refl)

  pub send-IsSettled :
      {p : Pool Error} (k : ℕ)
      → IsSummed X p
      → get_elem? p.workers k ≡ some waiting
      → (j : ℕ) (u : Task) → j < suc p.next
      → get_elem? X.tasks j ≡ some u
      → IsSettled (record p { next = suc p.next; workers = set p.workers k (running p.next) }) j u
  send-IsSettled {p} k h w j u l e = elim (Bool-cases (j == p.next)) [
    | inl y ↦ inl (
        count_if-get (works_on j) (set p.workers k (running p.next)) k (get_elem?-set p.workers k w)
          y)
    | inr n ↦ elim (h.settled j u (ground arith) e) [
      | inl c ↦ inl (ground (arith, c, count_if-set (works_on j) p.workers k (running p.next) w))
      | inr r ↦ inr r
    ]
  ]

  pub complete-IsSettled :
      {p : Pool Error} (k i : ℕ) (t : Task) (q : Pool Error)
      → IsSummed X p
      → IsReported p q i (size_of t)
      → q.workers ≡ p.workers
      → q.failure ≡ p.failure
      → get_elem? p.workers k ≡ some (running i)
      → get_elem? X.tasks i ≡ some t
      → (j : ℕ) (u : Task) → j < p.next
      → get_elem? X.tasks j ≡ some u
      → IsSettled (record q { workers = set q.workers k waiting }) j u
  complete-IsSettled {p} k i t q h r a b w g j u l e = elim (Bool-cases (j == i)) [
    | inl y ↦ let same : j ≡ i = ground (arith, y) in inr (inl (cc (same, e, g, r.replaced)))
    | inr n ↦ elim (h.settled j u l e) [
      | inl c ↦ inl (rw a (ground (arith, c, n, count_if-set (works_on j) p.workers k waiting w)))
      | inr (inl x) ↦ inr (inl (r.others j (λ d. ground (arith, d, n)) ∙ x))
      | inr (inr x) ↦ inr (inr (rw b x))
    ]
  ]

  pub progress-IsSettled :
      {p : Pool Error} (k i : ℕ) (n : ℕ) (q : Pool Error)
      → IsSummed X p
      → IsReported p q i n
      → q.workers ≡ p.workers
      → q.failure ≡ p.failure
      → get_elem? p.workers k ≡ some (running i)
      → (j : ℕ) (u : Task) → j < p.next
      → get_elem? X.tasks j ≡ some u
      → IsSettled q j u
  progress-IsSettled {p} k i n q h r a b w j u l e = elim (Bool-cases (j == i)) [
    | inl y ↦ inl (rw a (count_if-get (works_on j) p.workers k w y))
    | inr d ↦ elim (h.settled j u l e) [
      | inl c ↦ inl (rw a c)
      | inr (inl x) ↦ inr (inl (r.others j (λ same. ground (arith, same, d)) ∙ x))
      | inr (inr x) ↦ inr (inr (rw b x))
    ]
  ]

  pub run_fails-IsSettled :
      {p : Pool Error} (k i : ℕ) (x : Error)
      → IsSummed X p
      → get_elem? p.workers k ≡ some (running i)
      → (j : ℕ) (u : Task) → j < p.next
      → get_elem? X.tasks j ≡ some u
      → IsSettled (record p { workers = set p.workers k (failing i x) }) j u
  run_fails-IsSettled {p} k i x h w j u l e = elim (h.settled j u l e) [
    | inl c ↦ inl (omega (arith, c, count_if-set (works_on j) p.workers k (failing i x) w))
    | inr r ↦ inr r
  ]

  pub leave-IsSettled :
      {p : Pool Error} (k : ℕ)
      → IsSummed X p
      → get_elem? p.workers k ≡ some waiting
      → (j : ℕ) (u : Task) → j < p.next
      → get_elem? X.tasks j ≡ some u
      → IsSettled (record p { workers = set p.workers k returned }) j u
  leave-IsSettled {p} k h w j u l e = elim (h.settled j u l e) [
    | inl c ↦ inl (omega (arith, c, count_if-set (works_on j) p.workers k returned w))
    | inr r ↦ inr r
  ]

-- ===== src/Sync/Entry/Laws.antt =====
-- internal/sync/model.go: what `Equal` and `Converged` have to do with one another.
use ocis_cli.Base.{ℕ, ◌+◌, ◌<◌, String, true, false, some}
use ocis_cli.Base.{◌≡◌, ◌↔◌, ◌⊎◌, ◌≤◌, arith, str_eq, str_eq_iff, str_eq_comm, inl, inr}
use ocis_cli.Base.{Option-cases, ◌<◌}
use ocis_cli.Base.Int.{two_63, eq_ℤ, ℤ}
use ocis_cli.Sync.Platform.{Platform, IsFold}
use ocis_cli.Sync.Entry.{Entry, equal, converged}
use ocis_cli.Sync.Entry.Time.{
  timestamps_equivalent, within_tolerance, within_tolerance_iff, two_seconds,
}

eq_ℤ_comm : (a b : ℤ) → eq_ℤ a b ≡ eq_ℤ b a
eq_ℤ_comm a b = ground arith

module _ (P : Platform) where
  -- Two parsed times differ by less than 2⁶³ nanoseconds, which is about 292 years.
  abbrev pub AreNear : String → String → Type 0
  AreNear left right =
      (t u : ℕ)
      → P.parse_time left ≡ some t
      → P.parse_time right ≡ some u
      → (t < u + two_63) × (u < t + two_63)

  -- For distinct texts that parse, the test is the two-second tolerance, except that a first time
  -- 2⁶³ nanoseconds or more before the second passes too.
  pub timestamps_equivalent_iff :
      (left right : String) {t u : ℕ}
      → str_eq left "" ≡ false
      → str_eq right "" ≡ false
      → str_eq left right ≡ false
      → P.parse_time left ≡ some t
      → P.parse_time right ≡ some u
      → (timestamps_equivalent P left right ≡ true)
        ↔ (((t ≤ u + two_seconds) × (u ≤ t + two_seconds)) ⊎ (t + two_63 ≤ u))
  unfolding timestamps_equivalent
  timestamps_equivalent_iff left right {t} {u} h k d p q =
      rw (h, k, d, p, q) (within_tolerance_iff t u)

  within_tolerance_comm :
      (t u : ℕ) → t < u + two_63 → u < t + two_63 → within_tolerance t u ≡ within_tolerance u t
  unfolding within_tolerance
  within_tolerance_comm t u h k = ground arith

  timestamps_comm :
      (left right : String)
      → AreNear left right
      → timestamps_equivalent P left right ≡ timestamps_equivalent P right left
  unfolding timestamps_equivalent
  timestamps_comm left right near = elim (Option-cases (P.parse_time left)) [
    | inl e ↦ ground (arith, str_eq_comm left right)
    | inr (t, p) ↦ elim (Option-cases (P.parse_time right)) [
      | inl e ↦ ground (arith, str_eq_comm left right)
      | inr (u, q) ↦
          let n = near t u p q in
          ground (arith, str_eq_comm left right, within_tolerance_comm t u n.0 n.1)
    ]
  ]

  -- `Equal` is symmetric on entries whose modification times are near.
  pub equal_comm :
      IsFold P.equal_fold
      → (a b : Entry) → AreNear a.modified b.modified
      → equal P a b ≡ equal P b a
  unfolding equal
  equal_comm fold a b near = ground (
    arith,
    str_eq_comm a.type b.type,
    fold.symmetric a.checksum b.checksum,
    str_eq_comm a.etag b.etag,
    eq_ℤ_comm a.size b.size,
    timestamps_comm a.modified b.modified near,
    str_eq_iff a.type b.type,
  )

  -- Entries that are equal before a transfer count as converged after it.
  pub converged_of_equal : (a b : Entry) → equal P a b ≡ true → converged P a b ≡ true
  unfolding equal converged
  converged_of_equal a b h = ground arith

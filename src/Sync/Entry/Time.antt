-- ===== src/Sync/Entry/Time.antt =====
-- internal/sync/model.go: `timestampsEquivalent`, with the saturating `Time.Sub` and the `int64`
-- negation that it goes through.
use ocis_cli.Base.{ℕ, ◌+◌, ◌≤◌, String, Bool, true, false, ◌||◌, none, some}
use ocis_cli.Base.{◌≡◌, ◌↔◌, ◌⊎◌, arith, if◌then◌else◌, leb, str_eq}
use ocis_cli.Base.Int.{ℤ, pos, sub_ℕ, leb_ℤ, ltb_ℤ, max_int64, min_int64, neg_64, two_63}
use ocis_cli.Sync.Platform.{Platform}

-- `Time.Sub`: the difference, held to what a `Duration` can be.
unfoldable pub time_sub : ℕ → ℕ → ℤ
time_sub t u =
    if leb (u + two_63) t then max_int64 else if leb (t + two_63) u then min_int64 else sub_ℕ t u

abbrev pub two_seconds : ℕ
two_seconds = 2000000000

-- The test on two parsed times.
unfoldable pub within_tolerance : ℕ → ℕ → Bool
unfolding time_sub
within_tolerance t u =
    let difference = time_sub t u in
    leb_ℤ (if ltb_ℤ difference (pos 0) then neg_64 difference else difference) (pos two_seconds)

module _ (P : Platform) where
  unfoldable pub timestamps_equivalent : String → String → Bool
  unfolding within_tolerance
  timestamps_equivalent left right =
      if str_eq left "" || str_eq right ""
      then false
      else if str_eq left right
      then true
      else elim (P.parse_time left) [
        | none ↦ false
        | some t ↦ elim (P.parse_time right) [ none ↦ false | some u ↦ within_tolerance t u ]
      ]

-- Two times count as one exactly when they are at most two seconds apart, or the first is 2⁶³
-- nanoseconds or more before the second.
pub within_tolerance_iff :
    (t u : ℕ)
    → (within_tolerance t u ≡ true)
      ↔ (((t ≤ u + two_seconds) × (u ≤ t + two_seconds)) ⊎ (t + two_63 ≤ u))
unfolding within_tolerance
within_tolerance_iff t u = ground arith

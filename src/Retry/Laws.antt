-- ===== src/Retry/Laws.antt =====
-- internal/retry/retry.go: bounds of the delays, and overflow.
use ocis_cli.Base.{ℕ, ◌*◌, ◌≤◌, String, Option, none, some, ◌≡◌, ◌⊎◌, inl, inr, arith, true, refl}
use ocis_cli.Base.{Bool-cases, if◌then◌else◌}
use ocis_cli.Base.Int.{ℤ, pos, negsuc, leb_ℤ, ltb_ℤ, ◌≤ℤ◌, max_int64, mul_64}
use ocis_cli.Base.Result.{ok, err}
use ocis_cli.Retry.{
  delay_too_long, ParsedInt, second, max_delay, seconds_delay, after, doublings, factor, delay,
  delta_seconds,
}

abbrev clamp : ℤ → ℤ
clamp wait = if leb_ℤ wait max_delay then wait else max_delay

clamp_le : (wait : ℤ) → clamp wait ≤ℤ max_delay
clamp_le wait = ground arith

-- Whatever its arguments are, one of three holds: the server asked for a positive delay of at most
-- `MaxDelay`, and exactly it is the wait; or the server asked for more, and it is refused with an
-- error that names what was asked for and `MaxDelay`; or the server asked for no positive delay, and
-- there is a wait, of at most `MaxDelay`.
pub delay_bounded :
    (base attempt server_delay : ℤ)
    → ((ltb_ℤ (pos 0) server_delay ≡ true)
        × (server_delay ≤ℤ max_delay)
        × (delay base attempt server_delay ≡ ok server_delay))
      ⊎ ((ltb_ℤ max_delay server_delay ≡ true)
          × (delay base attempt server_delay ≡ err (delay_too_long server_delay max_delay)))
      ⊎ ((server_delay ≤ℤ pos 0)
          × ((d : ℤ) × (delay base attempt server_delay ≡ ok d) × (d ≤ℤ max_delay)))
unfolding delay
delay_bounded base attempt s = elim (Bool-cases (ltb_ℤ (pos 0) s)) [
  | inl p ↦ elim (Bool-cases (ltb_ℤ max_delay s)) [
    | inl q ↦ inr (inl (q, rw (p, q) refl))
    | inr q ↦ inl (p, ground (arith, q), rw (p, q) refl)
  ]
  | inr p ↦
      let wait = mul_64 base (factor (doublings attempt)) in
      inr (inr (ground (arith, p), (clamp wait, rw p refl, clamp_le wait)))
]

-- A header's number of seconds becomes so many seconds with no overflow, or the greatest duration
-- if it is 9223372036 or more.
pub seconds_delay_exact :
    (n : ℕ)
    → (seconds_delay (pos n) ≡ pos (n * second))
      ⊎ ((9223372036 ≤ n) × (seconds_delay (pos n) ≡ max_int64))
unfolding seconds_delay
seconds_delay_exact n = ground arith

seconds_delay-nonneg : (n : ℤ) → pos 0 ≤ℤ seconds_delay n
unfolding seconds_delay
seconds_delay-nonneg (pos n) = ground (arith, seconds_delay_exact n)
seconds_delay-nonneg (negsuc n) = ground arith

until-nonneg : (left : ℤ) → pos 0 ≤ℤ (if leb_ℤ left (pos 0) then pos 0 else left)
until-nonneg left = ground arith

-- The delay that a response asks for is never negative, whatever its header holds.
pub after_nonneg :
    (parse_int : String → ParsedInt) (until : String → Option ℤ) (header : Option String)
    → pos 0 ≤ℤ after parse_int until header
unfolding after
after_nonneg parse_int until none = ground arith
after_nonneg parse_int until (some value) = by_seconds (delta_seconds (parse_int value))
  where
    by_date :
        (left : Option ℤ)
        → pos 0 ≤ℤ (elim left [ none ↦ pos 0 | some l ↦ if leb_ℤ l (pos 0) then pos 0 else l ])
    by_date none = ground arith
    by_date (some l) = until-nonneg l

    by_seconds :
        (seconds : Option ℤ)
        → pos 0 ≤ℤ (elim seconds [
          | some n ↦ seconds_delay n
          | none ↦ elim (until value) [
            | none ↦ pos 0
            | some l ↦ if leb_ℤ l (pos 0) then pos 0 else l
          ]
        ])
    by_seconds (some n) = seconds_delay-nonneg n
    by_seconds none = by_date (until value)

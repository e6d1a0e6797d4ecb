-- ===== src/Tests/Retry.antt =====
-- Delays between attempts.
use ocis_cli.Base.{true, String, Option, none, ◌≡◌, refl, ◌⊎◌}
use ocis_cli.Base.Int.{ℤ, pos, ltb_ℤ, ◌≤ℤ◌, max_int64}
use ocis_cli.Base.Result.{ok, err}
use ocis_cli.Retry.{ParsedInt, delay_too_long, out_of_range, delay, max_delay}
use ocis_cli.Retry.Laws.{delay_bounded}

five_seconds : delay (pos 1000000000) (pos 2) (pos 5000000000) ≡ ok (pos 5000000000)
unfolding delay
five_seconds = refl

clamped : delay (pos 10000000000) (pos 2) (pos 0) ≡ ok max_delay
unfolding delay
clamped = refl

delay_bounded_example :
    ((ltb_ℤ (pos 0) max_delay ≡ true)
      × (max_delay ≤ℤ max_delay)
      × (delay (pos 1) (pos 2) max_delay ≡ ok max_delay))
    ⊎ ((ltb_ℤ max_delay max_delay ≡ true)
        × (delay (pos 1) (pos 2) max_delay ≡ err (delay_too_long max_delay max_delay)))
    ⊎ ((max_delay ≤ℤ pos 0)
        × ((d : ℤ) × (delay (pos 1) (pos 2) max_delay ≡ ok d) × (d ≤ℤ max_delay)))
delay_bounded_example = delay_bounded (pos 1) (pos 2) max_delay

abbrev too_many : String → ParsedInt
too_many value = out_of_range max_int64

abbrev no_date : String → Option ℤ
no_date value = none

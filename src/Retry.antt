-- ===== src/Retry.antt =====
-- internal/retry/retry.go: how long to wait between two attempts. Durations are `int64` nanoseconds.
pub mod Laws
use ocis_cli.Base.{ℕ, ◌^◌, String, Bool, true, false, ◌||◌, Option, none, some, ◌==◌, leb}
use ocis_cli.Base.{if◌then◌else◌}
use ocis_cli.Base.Int.{ℤ, pos, negsuc, leb_ℤ, ltb_ℤ, mul_64, max_int64}
use ocis_cli.Base.Result.{Result, ok, err}

-- `DelayTooLongError`: what was requested, and the ceiling.
pub data DelayError : Type 0 where
  delay_too_long : ℤ → ℤ → DelayError

-- What `strconv.ParseInt` returns; out of range it returns the nearest `int64`.
pub data ParsedInt : Type 0 where
  parsed out_of_range : ℤ → ParsedInt
  malformed : ParsedInt

abbrev pub second : ℕ
second = 1000000000

abbrev pub max_delay : ℤ
max_delay = pos 30000000000

unfoldable pub retryable_status : ℕ → Bool
retryable_status status = status == 429 || leb 500 status

unfoldable pub delta_seconds : ParsedInt → Option ℤ
delta_seconds (parsed n) = some n
delta_seconds (out_of_range n) = some n
delta_seconds malformed = none

-- The seconds of the header as a duration.
unfoldable pub seconds_delay : ℤ → ℤ
seconds_delay seconds =
    if leb_ℤ seconds (pos 0)
    then pos 0
    else if leb_ℤ (pos 9223372036) seconds
    then max_int64
    else mul_64 seconds second

-- `After`. A missing response has no header. `ParseInt` of the trimmed header, and `time.Until` of
-- `http.ParseTime`, are parameters.
unfoldable pub after : (String → ParsedInt) → (String → Option ℤ) → Option String → ℤ
unfolding delta_seconds seconds_delay
after parse_int until none = pos 0
after parse_int until (some value) = elim (delta_seconds (parse_int value)) [
  | some seconds ↦ seconds_delay seconds
  | none ↦ elim (until value) [
    | none ↦ pos 0
    | some left ↦ if leb_ℤ left (pos 0) then pos 0 else left
  ]
]

-- `min(max(attempt, 0), 4)`
abbrev pub doublings : ℤ → ℕ
doublings (pos n) = if leb n 4 then n else 4
doublings (negsuc n) = 0

-- `1 << doublings`
abbrev pub factor : ℕ → ℕ
factor k = 2 ^ k

unfoldable pub delay : ℤ → ℤ → ℤ → Result DelayError ℤ
delay base attempt server_delay =
    if ltb_ℤ (pos 0) server_delay
    then (if ltb_ℤ max_delay server_delay
        then err (delay_too_long server_delay max_delay)
        else ok server_delay)
    else (let wait = mul_64 base (factor (doublings attempt)) in
        ok (if leb_ℤ wait max_delay then wait else max_delay))

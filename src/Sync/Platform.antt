-- ===== src/Sync/Platform.antt =====
-- What the planner takes from Go's standard library and from golang.org/x/text.
use ocis_cli.Base.{ℕ, String, Bool, true, Option, ◌≡◌}

pub record Platform : Type 0 where
  -- `strings.EqualFold`
  pub equal_fold : String → String → Bool
  -- `time.Parse(time.RFC3339Nano, _)`: nanoseconds since an instant before all that it can return.
  pub parse_time : String → Option ℕ
  -- `path.Match(pattern, name)`: `none` is `ErrBadPattern`.
  pub path_match : String → String → Option Bool
  -- `cases.Fold().String(norm.NFC.String(_))`
  pub identity_form : String → String

-- Equality under Unicode case folding, as documented, is an equivalence.
pub record IsFold (equal_fold : String → String → Bool) : Type 0 where
  pub reflexive : (s : String) → equal_fold s s ≡ true
  pub symmetric : (s t : String) → equal_fold s t ≡ equal_fold t s

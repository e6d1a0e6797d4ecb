-- ===== src/Sync/Errors.antt =====
-- internal/sync: directions, and the errors that the planner reports.
use ocis_cli.Base.{String}

-- Any other text is kept, for the error that names it.
pub data Direction : Type 0 where
  push pull bidirectional : Direction
  other : String → Direction

-- What `validatePatterns` reports.
pub data PatternError : Type 0 where
  empty_pattern : PatternError
  bad_pattern : String → PatternError

-- What the planner reports.
pub data PlanError : Type 0 where
  include_pattern exclude_pattern : PatternError → PlanError
  unknown_direction : Direction → PlanError
  unsafe_path_identity : String → String → PlanError
  -- `panic("unreachable empty sync path")`
  panic_empty_path : PlanError

-- ===== src/Sync/Identity.antt =====
-- internal/sync/path_identity.go: paths that a case-insensitive or normalizing file system confuses.
pub mod Laws
use ocis_cli.Base.{String, Bool, true, false, not, ◌&&◌, List, [], ◌∷◌, ◌++◌, if◌then◌else◌}
use ocis_cli.Base.{str_eq, keep, map}
use ocis_cli.Base.Map.{keys}
use ocis_cli.Base.Sets.{sorted_set}
use ocis_cli.Base.Result.{Result, ok, err}
use ocis_cli.Sync.Platform.{Platform}
use ocis_cli.Sync.Errors.{PlanError, unsafe_path_identity}
use ocis_cli.Sync.Entry.{Snapshot}

module _ (P : Platform) where
  -- `spellings[identity]`, sorted.
  unfoldable pub spellings : List String → String → List String
  spellings paths identity = sorted_set (keep (λ p. str_eq (P.identity_form p) identity) paths)

  -- The loop over the identities. The error names the first two spellings.
  unfoldable pub check_identities : List String → List String → Result PlanError (Unit {0})
  check_identities paths [] = ok tt
  check_identities paths (identity ∷ rest) =
      let later = check_identities paths rest in
      elim (spellings paths identity) [
        | [] ↦ later
        | first ∷ others ↦ elim others [
          | [] ↦ later
          | second ∷ _ ↦ err (unsafe_path_identity first second)
        ]
      ]

  -- `ValidatePathIdentity`, on the two trees of a bidirectional plan.
  unfoldable pub validate_path_identity : Snapshot → Snapshot → Result PlanError (Unit {0})
  validate_path_identity local remote =
      let paths = keys local ++ keys remote in
      check_identities paths (sorted_set (map P.identity_form paths))

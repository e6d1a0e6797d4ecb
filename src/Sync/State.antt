-- ===== src/Sync/State.antt =====
-- internal/sync/model.go: the saved state, and the paths that a plan ranges over.
pub mod Laws
use ocis_cli.Base.{ℕ, String, List, [], ◌∷◌, ◌++◌, Option, none, some, map}
use ocis_cli.Base.Map.{Map, lookup, keys}
use ocis_cli.Base.Sets.{sorted_set}
use ocis_cli.Sync.Errors.{Direction}
use ocis_cli.Sync.Entry.{Entry, Snapshot, Record, no_entry}

pub record Binding : Type 0 where
  pub profile : String
  pub account_id : String
  pub space_id : String
  pub direction : Direction
  pub local_root : String
  pub remote_root : String
  pub includes : List String
  pub excludes : List String

pub record State : Type 0 where
  pub version : ℕ
  pub binding : Binding
  pub entries : Map Record

abbrev pub state_version : ℕ
state_version = 2

-- `m[k]` on a map of entries: the zero value if the key is missing.
abbrev pub entry_or_zero : Option Entry → Entry
entry_or_zero none = no_entry
entry_or_zero (some e) = e

-- `unionPaths`
unfoldable pub union_paths : Snapshot → Snapshot → List String
union_paths left right = sorted_set (keys left ++ keys right)

record_at : Snapshot → Snapshot → String → String × Record
record_at source destination k = (
  k,
  record {
    source = entry_or_zero (lookup k source);
    destination = entry_or_zero (lookup k destination);
  },
)

unfoldable pub new_state : Binding → Snapshot → Snapshot → State
unfolding record_at
new_state binding source destination = record {
  version = state_version;
  binding = binding;
  entries = map (record_at source destination) (union_paths source destination);
}

-- `previous.Entries`, of a state that may be missing.
abbrev pub saved_entries : Option State → Map Record
saved_entries none = []
saved_entries (some s) = s.entries

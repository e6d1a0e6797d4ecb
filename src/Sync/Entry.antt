-- ===== src/Sync/Entry.antt =====
-- internal/sync/model.go: fingerprints, their comparison, and the baseline that is saved.
pub mod Time
pub mod Laws
use Time.{timestamps_equivalent}
use ocis_cli.Base.{String, Bool, true, false, not, ◌&&◌, ◌||◌, if◌then◌else◌, str_eq}
use ocis_cli.Base.Int.{ℤ, pos, eq_ℤ}
use ocis_cli.Base.Map.{Map}
use ocis_cli.Sync.Platform.{Platform}

pub record Entry : Type 0 where
  pub path : String
  pub type : String
  pub size : ℤ
  pub modified : String
  pub etag : String
  pub checksum : String

-- Go's zero value.
abbrev pub no_entry : Entry
no_entry = record { path = ""; type = ""; size = pos 0; modified = ""; etag = ""; checksum = "" }

abbrev pub Snapshot : Type 0
Snapshot = Map Entry

-- The field names are Go's `Source` and `Destination`; a bidirectional record holds the local
-- entry in the first and the remote one in the second.
pub record Record : Type 0 where
  pub source : Entry
  pub destination : Entry

abbrev pub no_record : Record
no_record = record { source = no_entry; destination = no_entry }

unfoldable pub entry_present : Entry → Bool
entry_present e = not (str_eq e.type "")

module _ (P : Platform) where
  unfoldable pub equal : Entry → Entry → Bool
  unfolding entry_present
  equal e other =
      if not (entry_present e) || not (entry_present other) || not (str_eq e.type other.type)
      then false
      else if str_eq e.type "directory"
      then true
      else if not (str_eq e.checksum "") && not (str_eq other.checksum "")
      then P.equal_fold e.checksum other.checksum
      else if not (str_eq e.etag "") && not (str_eq other.etag "")
      then str_eq e.etag other.etag
      else eq_ℤ e.size other.size && timestamps_equivalent P e.modified other.modified

  unfoldable pub converged : Entry → Entry → Bool
  unfolding entry_present
  converged e other =
      if not (entry_present e) || not (entry_present other) || not (str_eq e.type other.type)
      then false
      else if str_eq e.type "directory"
      then true
      else if not (str_eq e.checksum "") && not (str_eq other.checksum "")
      then P.equal_fold e.checksum other.checksum
      else if not (str_eq e.etag "") && not (str_eq other.etag "")
      then str_eq e.etag other.etag
      else eq_ℤ e.size other.size

-- ===== src/Tests/Samples.antt =====
-- Test data: a platform whose functions can be run, trees, and a saved state.
use ocis_cli.Base.{String, true, false, [], ◌∷◌, none, some, if◌then◌else◌, str_eq}
use ocis_cli.Base.{str_eq_refl, str_eq_comm}
use ocis_cli.Base.Int.{pos}
use ocis_cli.Sync.Platform.{Platform, IsFold}
use ocis_cli.Sync.Errors.{Direction, push}
use ocis_cli.Sync.Entry.{Entry, Snapshot, Record, no_entry}
use ocis_cli.Sync.State.{State, Binding}
use ocis_cli.Sync.Action.{Options}

-- Patterns are literal, "[" is malformed, and "A" folds to "a".
abbrev pub plain : Platform
plain = record {
  equal_fold = str_eq;
  parse_time = λ s.
      if str_eq s "0001-01-01T00:00:00Z"
      then some 1000
      else if str_eq s "2024-01-01T00:00:00Z"
      then some 63808000000000001000
      else none;
  path_match = λ pattern name. if str_eq pattern "[" then none else some (str_eq pattern name);
  identity_form = λ s. if str_eq s "A" then "a" else s;
}

pub plain-IsFold : IsFold str_eq
plain-IsFold = record { reflexive = str_eq_refl; symmetric = str_eq_comm }

abbrev pub directory : String → Entry
directory path = record no_entry { path = path; type = "directory" }

abbrev pub file : String → String → Entry
file path checksum = record no_entry {
  path = path;
  type = "file";
  size = pos 3;
  checksum = checksum;
}

abbrev pub saved : Entry → Entry → Record
saved source destination = record { source = source; destination = destination }

-- "new" is new, "kept" was changed on the source, and "both" on both sides.
abbrev pub source_tree : Snapshot
source_tree =
    ("new", file "new" "n1")
    ∷ ("", directory "")
    ∷ ("kept", file "kept" "k2")
    ∷ ("both", file "both" "s2")
    ∷ []

-- "gone" was removed from the source, and "gone/x" is in it.
abbrev pub destination_tree : Snapshot
destination_tree =
    ("", directory "")
    ∷ ("both", file "both" "d2")
    ∷ ("gone/x", file "gone/x" "x1")
    ∷ ("gone", directory "gone")
    ∷ ("kept", file "kept" "k1")
    ∷ []

abbrev pub binding : Direction → Binding
binding direction = record {
  profile = "default";
  account_id = "ada";
  space_id = "";
  direction = direction;
  local_root = "/home/ada/notes";
  remote_root = "/notes";
  includes = [];
  excludes = [];
}

abbrev pub saved_state : State
saved_state = record {
  version = 2;
  binding = binding push;
  entries =
      ("", saved (directory "") (directory ""))
      ∷ ("kept", saved (file "kept" "k1") (file "kept" "k1"))
      ∷ ("both", saved (file "both" "b1") (file "both" "b1"))
      ∷ ("gone", saved (directory "gone") (directory "gone"))
      ∷ ("gone/x", saved (file "gone/x" "x1") (file "gone/x" "x1"))
      ∷ [];
}

abbrev pub careful_delete : Options
careful_delete = record { delete = true; overwrite = false; includes = []; excludes = [] }

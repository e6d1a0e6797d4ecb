-- ===== src/Run/Ids.antt =====
-- internal/app/sync/state.go and recovery.go: the identifiers of saved states and journals, and the
-- commands that resolve them; internal/syncstate/store.go: `Keys`.
pub mod Laws
use Prim.Native.Char.{Char, code, width}
use Prim.Native.Nat.{compare}
use ocis_cli.Base.{
  ℕ, zero, suc, ◌+◌, ◌-◌, ◌≤◌, String, ◌<>◌, Bool, true, false, not, ◌&&◌, ◌||◌, List, [], ◌∷◌,
  Option, none, some, is_some, if◌then◌else◌,
}
use ocis_cli.Base.{str_eq, ltb, leb, ◌==◌, count_if, keep}
use ocis_cli.Base.Sets.{sort_strings}
use ocis_cli.Base.Result.{Result, ok, err, map_err, ◌>>=◌}
use ocis_cli.Sync.Pattern.{is_space}
use ocis_cli.Sync.State.{State, Binding}
use ocis_cli.Sync.TwoWay.Subtrees.{after_prefix}
use ocis_cli.Run.Trees.{Failure, Outcome}
use ocis_cli.Run.Names.{trim}

abbrev pub display_length : ℕ
display_length = 12

abbrev pub minimum_prefix : ℕ
minimum_prefix = 8

-- The bytes of a character in UTF-8, and `len(s)`.
abbrev pub byte_width : Char → ℕ
byte_width c = width (compare (code c) 128) (compare (code c) 2048) (compare (code c) 65536)

unfoldable pub byte_length : String → ℕ
byte_length String.[] = 0
byte_length (String.◌∷◌ c s) = byte_width c + byte_length s

-- `s[:n]`, for a bound between characters.
unfoldable pub take_bytes : ℕ → String → String
take_bytes n String.[] = ""
take_bytes n (String.◌∷◌ c s) =
    let rest = take_bytes (n - byte_width c) s in
    if leb (byte_width c) n then String.◌∷◌ c rest else ""

-- One of "0123456789abcdef".
abbrev pub is_hex : Char → Bool
is_hex c = (leb b'0' (code c) && leb (code c) b'9') || (leb b'a' (code c) && leb (code c) b'f')

-- `strings.Trim(s, "0123456789abcdef") == ""`
unfoldable pub trims_away : String → Bool
unfolding trim
trims_away s = str_eq (trim is_hex s) ""

-- `strings.HasPrefix(s, prefix)`
unfoldable pub has_prefix : String → String → Bool
has_prefix prefix s = is_some (after_prefix prefix s)

-- `validateKey(key) == nil`: a SHA-256 in hexadecimal digits.
unfoldable pub is_key : String → Bool
unfolding byte_length trims_away
is_key key = byte_length key == 64 && trims_away key

-- The name without ".json" at its end, where `filepath.Ext` is ".json".
unfoldable pub strip_json : String → Option String
strip_json String.[] = none
strip_json (String.◌∷◌ c s) =
    let rest = strip_json s in
    if str_eq (String.◌∷◌ c s) ".json"
    then some ""
    else elim rest [ none ↦ none | some key ↦ some (String.◌∷◌ c key) ]

-- The loop of `Keys` over the names of the directory, of which some are directories.
unfoldable pub recognized : List (String × Bool) → List String
unfolding is_key strip_json
recognized [] = []
recognized ((name, is_directory) ∷ later) =
    let rest = recognized later in
    if is_directory
    then rest
    else elim (strip_json name) [ none ↦ rest | some key ↦ if is_key key then key ∷ rest else rest ]

-- `Keys`, of what `os.ReadDir` lists.
unfoldable pub keys_of : List (String × Bool) → List String
unfolding recognized
keys_of names = sort_strings (recognized names)

-- The kinds of internal/apperror that these errors carry.
pub data Kind : Type 0 where
  usage conflicting not_found : Kind

pub data IdError : Type 0 where
  too_short : Kind → IdError
  unknown ambiguous : Kind → String → IdError
  unconfirmed : Kind → IdError
  -- The stored text is unreadable, or its binding has another key.
  unreadable : String → Failure → IdError
  mismatched : String → IdError
  store_failed : Failure → IdError

-- The switch on the matches.
unfoldable pub one_match : Kind → String → List String → Result IdError String
one_match ambiguity query [] = err (unknown not_found query)
one_match ambiguity query (key ∷ []) = ok key
one_match ambiguity query (_ ∷ _ ∷ _) = err (ambiguous ambiguity query)

module _ (to_lower : String → String) where
  -- `resolveSyncStateID` and `resolveSyncRecoveryID`, which differ in the kind of one error; the keys
  -- are what the store lists.
  unfoldable pub resolve_id : Kind → Result Failure (List String) → String → Result IdError String
  unfolding byte_length trims_away has_prefix one_match
  resolve_id ambiguity listed given =
      let query = to_lower (trim is_space given) in
      if ltb (byte_length query) minimum_prefix || not (trims_away query)
      then err (too_short usage)
      else map_err store_failed listed >>= λ keys.
          one_match ambiguity query (keep (has_prefix query) keys)

  unfoldable pub resolve_sync_state_id :
      Result Failure (List String) → String → Result IdError String
  unfolding resolve_id
  resolve_sync_state_id = resolve_id conflicting

  unfoldable pub resolve_sync_recovery_id :
      Result Failure (List String) → String → Result IdError String
  unfolding resolve_id
  resolve_sync_recovery_id = resolve_id usage

-- The loop of `uniqueSyncStateID`, with as many rounds as the key has bytes left.
unfoldable pub unique_from : ℕ → ℕ → String → List String → String
unfolding take_bytes has_prefix
unique_from zero length key keys = key
unique_from (suc rounds) length key keys =
    let rest = unique_from rounds (suc length) key keys in
    if count_if (has_prefix (take_bytes length key)) keys == 1 then take_bytes length key else rest

unfoldable pub unique_sync_state_id : String → List String → String
unfolding unique_from byte_length
unique_sync_state_id key keys =
    let length = if ltb (byte_length key) display_length then byte_length key else display_length in
    unique_from (byte_length key - length) length key keys

-- The store of the states; the world is what it reads and changes.
pub record States (World : Type 0) : Type 0 where
  pub list_keys : World → Result Failure (List String)
  pub load : World → String → Result Failure (Option State)
  pub delete : String → World → World × Result Failure Bool
  pub key : Binding → String

module _ (to_lower : String → String) {World : Type 0} (S : States World) where
  -- `resolveAndLoadSyncState`
  unfoldable pub resolve_and_load : World → String → Result IdError (String × State)
  unfolding resolve_sync_state_id
  resolve_and_load w query = resolve_sync_state_id to_lower (S.list_keys w) query >>= λ key.
      map_err (unreadable key) (S.load w key) >>= λ found. elim found [
        | none ↦ err (unknown not_found query)
        | some state ↦
            if not (str_eq (S.key state.binding) key) then err (mismatched key) else ok (key, state)
      ]

  -- What stands behind the call of `Delete`: the key and whether it was removed.
  unfoldable pub removal_of :
      String → String → World × Result Failure Bool → World × Result IdError (String × Bool)
  removal_of query key (w, err f) = (w, err (store_failed f))
  removal_of query key (w, ok removed) =
      (w, (if not removed then err (unknown not_found query) else ok (key, true)))

  -- `removeSyncState`
  unfoldable pub remove_sync_state :
      String → Bool → Bool → World → World × Result IdError (String × Bool)
  unfolding resolve_sync_state_id removal_of
  remove_sync_state query confirmed dry_run w =
      if not confirmed && not dry_run
      then (w, err (unconfirmed usage))
      else elim (resolve_sync_state_id to_lower (S.list_keys w) query) [
        | err e ↦ (w, err e)
        | ok key ↦
            if not dry_run then removal_of query key (S.delete key w) else (w, ok (key, false))
      ]

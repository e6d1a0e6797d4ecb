-- ===== src/Sync/Pattern.antt =====
-- internal/sync/model.go: `Filter`, `NormalizePatterns` and the helpers that match paths.
pub mod Laws
pub mod Order
pub mod Normal
use Prim.Native.Char.{Char, code}
use ocis_cli.Base.{String, Bool, true, false, not, ◌&&◌, ◌||◌, List, [], ◌∷◌, ◌++◌, Option}
use ocis_cli.Base.{none, some, if◌then◌else◌, str_eq, any, keep, leb, ◌==◌}
use ocis_cli.Base.Map.{contains, has, keys, keep_keys}
use ocis_cli.Base.Sets.{sort_strings}
use ocis_cli.Base.Result.{Result, ok, err, map_err, ◌>>=◌, ◌>>◌}
use ocis_cli.GoPath.{ancestors, base}
use ocis_cli.Sync.Platform.{Platform}
use ocis_cli.Sync.Errors.{PatternError, empty_pattern, bad_pattern}
use ocis_cli.Sync.Errors.{PlanError, include_pattern, exclude_pattern}
use ocis_cli.Sync.Entry.{Snapshot}

-- `unicode.IsSpace`
unfoldable pub is_space : Char → Bool
is_space c =
    (leb 9 (code c) && leb (code c) 13)
    || code c == 32
    || code c == 0x85
    || code c == 0xa0
    || code c == 0x1680
    || (leb 0x2000 (code c) && leb (code c) 0x200a)
    || code c == 0x2028
    || code c == 0x2029
    || code c == 0x202f
    || code c == 0x205f
    || code c == 0x3000

-- `strings.TrimSpace(s) == ""`
unfoldable pub is_blank : String → Bool
unfolding is_space
is_blank String.[] = true
is_blank (String.◌∷◌ c s) = is_space c && is_blank s

-- `strings.Contains(s, "/")`
unfoldable pub contains_slash : String → Bool
contains_slash String.[] = false
contains_slash (String.◌∷◌ c s) = code c == b'/' || contains_slash s

module _ (P : Platform) where
  -- One round of `matchesAny`: an error of `path.Match` counts as no match.
  unfoldable pub matches : String → String → Bool
  matches relative pattern =
      elim (P.path_match pattern (if contains_slash pattern then relative else base relative)) [
        | none ↦ false
        | some matched ↦ matched
      ]

  unfoldable pub matches_any : String → List String → Bool
  matches_any relative patterns = any (matches relative) patterns

  unfoldable pub validate_patterns : List String → Result PatternError (Unit {0})
  validate_patterns [] = ok tt
  validate_patterns (pattern ∷ patterns) =
      let rest = validate_patterns patterns in
      if is_blank pattern
      then err empty_pattern
      else elim (P.path_match pattern "value") [ none ↦ err (bad_pattern pattern) | some _ ↦ rest ]

  unfoldable pub excluded : String → List String → Bool
  excluded relative patterns = any (λ current. matches_any current patterns) (ancestors relative)

  -- The paths that one matching path selects: the root and its own parents, as far as they exist.
  unfoldable pub selected_by : Snapshot → String → List String
  selected_by snapshot relative =
      (if has "" snapshot then "" ∷ [] else []) ++ keep (λ c. has c snapshot) (ancestors relative)

  pub gather : Snapshot → List String → List String → List String
  gather snapshot includes [] = []
  gather snapshot includes (relative ∷ rest) =
      (if matches_any relative includes then selected_by snapshot relative else [])
      ++ gather snapshot includes rest

  -- The keys of `selected`.
  unfoldable pub selected : Snapshot → List String → List String
  unfolding gather
  selected snapshot [] = keys snapshot
  selected snapshot (i ∷ includes) = gather snapshot (i ∷ includes) (keys snapshot)

  -- Whether `Filter` keeps a path.
  unfoldable pub keeps : Snapshot → List String → List String → String → Bool
  keeps snapshot includes excludes relative =
      contains relative (selected snapshot includes) && not (excluded relative excludes)

  unfoldable pub filter_snapshot : Snapshot → List String → List String → Result PlanError Snapshot
  filter_snapshot snapshot includes excludes = do
    map_err include_pattern (validate_patterns includes)
    map_err exclude_pattern (validate_patterns excludes)
    ok (keep_keys (keeps snapshot includes excludes) snapshot)

-- The loop of `sortedUnique`: a value is written unless it equals the one written last.
compact_after : String → List String → List String
compact_after last [] = []
compact_after last (value ∷ values) =
    let rest = compact_after value values in if str_eq last value then rest else value ∷ rest

unfoldable pub compact : List String → List String
unfolding compact_after
compact [] = []
compact (value ∷ values) = value ∷ compact_after value values

unfoldable pub sorted_unique : List String → List String
unfolding compact
sorted_unique values = compact (sort_strings values)

module _ (P : Platform) where
  unfoldable pub normalize_patterns :
      List String → List String → Result PlanError (List String × List String)
  normalize_patterns includes excludes = do
    map_err include_pattern (validate_patterns P includes)
    map_err exclude_pattern (validate_patterns P excludes)
    ok (sorted_unique includes, sorted_unique excludes)

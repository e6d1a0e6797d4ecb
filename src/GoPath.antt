-- ===== src/GoPath.antt =====
-- The functions of Go's `path` that the planner calls, on slash-separated names, and the walk from
-- a name to its parents that internal/sync/model.go writes as a loop over `path.Dir`.
pub mod Laws
use Prim.Native.Char.{Char, code}
use mathlib.Core.List.{reverse, foldl}
use ocis_cli.Base.{ℕ, zero, suc, String, ◌<>◌, Bool, true, false, ◌||◌, List, [], ◌∷◌, ◌==◌}
use ocis_cli.Base.{if◌then◌else◌, str_eq, length}

add_char : Char → List String → List String
add_char c [] = String.◌∷◌ c "" ∷ []
add_char c (x ∷ xs) = String.◌∷◌ c x ∷ xs

-- `strings.Split(p, "/")`
unfoldable pub split_slash : String → List String
unfolding add_char
split_slash String.[] = "" ∷ []
split_slash (String.◌∷◌ c s) =
    let rest = split_slash s in if code c == b'/' then "" ∷ rest else add_char c rest

-- `strings.Join(parts, "/")`
unfoldable pub join_slash : List String → String
join_slash [] = ""
join_slash (x ∷ []) = x
join_slash (x ∷ y ∷ r) = x <> "/" <> join_slash (y ∷ r)

unfoldable pub is_rooted : String → Bool
is_rooted String.[] = false
is_rooted (String.◌∷◌ c s) = code c == b'/'

-- One component of `path.Clean`; the components kept so far are in reverse order.
clean_step : Bool → List String → String → List String
clean_step rooted kept part =
    if str_eq part "" || str_eq part "."
    then kept
    else if str_eq part ".."
    then elim kept [
      | [] ↦ if rooted then [] else ".." ∷ []
      | top ∷ below ↦ if str_eq top ".." then ".." ∷ top ∷ below else below
    ]
    else part ∷ kept

-- The cleaned name of a path that is not rooted.
join_relative : List String → String
unfolding join_slash
join_relative [] = "."
join_relative (top ∷ below) = join_slash (reverse (top ∷ below))

-- `path.Clean`, after the name is cut at its slashes.
unfoldable pub clean_parts : Bool → List String → String
unfolding clean_step join_slash join_relative
clean_parts rooted parts =
    let kept = foldl (clean_step rooted) [] parts in
    if rooted then "/" <> join_slash (reverse kept) else join_relative kept

-- All parts but the last.
but_last : List String → List String
but_last [] = []
but_last (x ∷ []) = []
but_last (x ∷ y ∷ r) = x ∷ but_last (y ∷ r)

-- `path.Dir`: what stands before the last slash, cleaned.
unfoldable pub dir : String → String
unfolding clean_parts split_slash is_rooted but_last
dir p = clean_parts (is_rooted p) (but_last (split_slash p))

last_name : String → List String → String
last_name found [] = found
last_name found (x ∷ xs) = last_name (if str_eq x "" then found else x) xs

-- `path.Base`: the last component that is not empty; "/" if there is none, "." for the empty name.
unfoldable pub base : String → String
unfolding last_name split_slash
base p = if str_eq p "" then "." else last_name "/" (split_slash p)

-- The test that ends the walk to the parents.
unfoldable pub at_end : String → Bool
at_end p = str_eq p "" || str_eq p "."

-- `for current := p; ; current = path.Dir(current) { …; if current == "" || current == "." { break } }`:
-- the values of `current`, with fuel.
unfoldable pub walk : ℕ → String → List String
unfolding at_end
walk zero p = []
walk (suc fuel) p = let rest = walk fuel (dir p) in p ∷ (if at_end p then [] else rest)

-- The names that the loop visits. A name has as many parts as the fuel, and each round drops one.
unfoldable pub ancestors : String → List String
unfolding walk
ancestors p = walk (suc (length (split_slash p))) p

-- ===== src/GoPath/Laws.antt =====
-- The walk to the parents ends for every name that does not begin with a slash.
use Prim.Native.Char.{Char, code}
use mathlib.Core.List.{reverse, foldl, reverse-cons}
use ocis_cli.Base.{ℕ, zero, suc, String, ◌<>◌, Bool, true, false, ◌||◌, List, [], ◌∷◌, ◌==◌}
use text.Mathlib.TextLemmas.{nil-append, cons-append}
use ocis_cli.Base.{
  ◌∙◌, ap, ◌+◌, All-append, length-append, Bool-cases, inl, inr, ◌⊎◌, ◌≢◌, ◌-◌, str_eq_refl,
  All-mono, str_eq, length, any, ◌≡◌, refl, ◌≤◌, ◌<◌, arith, All, if◌then◌else◌,
}
use native.Mathlib.Nat.{le_refl}
use ocis_cli.GoPath.{split_slash, join_slash, is_rooted, clean_step, clean_parts, dir, but_last}
use ocis_cli.GoPath.{at_end, walk, ancestors, add_char, join_relative}

samples :
    (dir "a/b/c.txt" ≡ "a/b")
    × (dir "a" ≡ ".")
    × (dir "/" ≡ "/")
    × (dir "" ≡ ".")
    × (dir "a/../b/./c" ≡ "b")
unfolding dir join_slash add_char clean_step str_eq
samples = (refl, refl, refl, refl, refl)

walk_sample : ancestors "a/b/c.txt" ≡ "a/b/c.txt" ∷ "a/b" ∷ "a" ∷ "." ∷ []
unfolding ancestors dir join_slash add_char clean_step str_eq
walk_sample = refl

abbrev has_slash : String → Bool
has_slash String.[] = false
has_slash (String.◌∷◌ c s) = code c == b'/' || has_slash s

-- A component that `path.Clean` can keep.
abbrev IsName : String → Type 0
IsName s = (has_slash s ≡ false) × (str_eq s "" ≡ false)

split_slash_name : (s : String) → has_slash s ≡ false → split_slash s ≡ s ∷ []
unfolding split_slash
split_slash_name String.[] h = refl
split_slash_name (String.◌∷◌ c s) h = ground (arith, split_slash_name s)

split_slash-append :
    (s r : String) → has_slash s ≡ false → split_slash (s <> "/" <> r) ≡ s ∷ split_slash r
unfolding split_slash
split_slash-append String.[] r h = rw nil-append (rw cons-append (rw nil-append refl))
split_slash-append (String.◌∷◌ c s) r h = rw cons-append (ground (arith, split_slash-append s r))

split-join :
    (x : String) (xs : List String)
    → All (λ y. has_slash y ≡ false) (x ∷ xs)
    → split_slash (join_slash (x ∷ xs)) ≡ x ∷ xs
unfolding join_slash
split-join x [] h = split_slash_name x h.0
split-join x (y ∷ r) h =
    split_slash-append x (join_slash (y ∷ r)) h.0 ∙ ap (◌∷◌ x) (split-join y r h.1)

add_char-All :
    (c : Char) (xs : List String)
    → (code c == b'/') ≡ false
    → All (λ y. has_slash y ≡ false) xs
    → All (λ y. has_slash y ≡ false) (add_char c xs)
unfolding add_char
add_char-All c [] h k = ground arith
add_char-All c (x ∷ xs) h k = (rw h k.0, k.1)

split_slash-All : (s : String) → All (λ y. has_slash y ≡ false) (split_slash s)
unfolding split_slash
split_slash-All String.[] = (refl, tt)
split_slash-All (String.◌∷◌ c s) = elim (Bool-cases (code c == b'/')) [
  | inl e ↦ rw e (refl, split_slash-All s)
  | inr e ↦ rw e (add_char-All c (split_slash s) e (split_slash-All s))
]

but_last-All {κ} : (P : String → Type κ) (xs : List String) → All P xs → All P (but_last xs)
unfolding but_last
but_last-All P [] h = tt
but_last-All P (x ∷ []) h = tt
but_last-All P (x ∷ y ∷ r) h = (h.0, but_last-All P (y ∷ r) h.1)

length-but_last : (xs : List String) → length (but_last xs) ≡ length xs - 1
unfolding but_last
length-but_last [] = refl
length-but_last (x ∷ []) = refl
length-but_last (x ∷ y ∷ r) = omega (arith, length-but_last (y ∷ r))

dots-IsName : IsName ".."
unfolding str_eq
dots-IsName = (refl, refl)

clean_step-IsName :
    (rooted : Bool) (kept : List String) (part : String)
    → All IsName kept
    → has_slash part ≡ false
    → All IsName (clean_step rooted kept part)
unfolding clean_step
clean_step-IsName rooted [] part h k = ground (arith, dots-IsName.0, dots-IsName.1)
clean_step-IsName rooted (top ∷ below) part h k =
    let below_names : All IsName below = h.1 in
    ground (arith, dots-IsName.0, dots-IsName.1, below_names)

length-clean_step :
    (rooted : Bool) (kept : List String) (part : String)
    → length (clean_step rooted kept part) ≤ suc (length kept)
unfolding clean_step
length-clean_step rooted [] part = ground arith
length-clean_step rooted (top ∷ below) part = ground arith

clean-IsName :
    (rooted : Bool) (kept parts : List String)
    → All IsName kept
    → All (λ y. has_slash y ≡ false) parts
    → All IsName (foldl (clean_step rooted) kept parts)
clean-IsName rooted kept [] h k = h
clean-IsName rooted kept (x ∷ xs) h k =
    clean-IsName rooted (clean_step rooted kept x) xs (clean_step-IsName rooted kept x h k.0) k.1

length-clean :
    (rooted : Bool) (kept parts : List String)
    → length (foldl (clean_step rooted) kept parts) ≤ length kept + length parts
length-clean rooted kept [] = omega arith
length-clean rooted kept (x ∷ xs) =
    omega
      (arith, length-clean_step rooted kept x, length-clean rooted (clean_step rooted kept x) xs)

All-reverse {κ} : (P : String → Type κ) (xs : List String) → All P xs → All P (reverse xs)
All-reverse P [] h = tt
All-reverse P (x ∷ xs) h =
    rw reverse-cons (All-append P (reverse xs) (x ∷ []) (All-reverse P xs h.1) (h.0, tt))

length-reverse : (xs : List String) → length (reverse xs) ≡ length xs
length-reverse [] = refl
length-reverse (x ∷ xs) =
    rw reverse-cons (omega (arith, length-append (reverse xs) (x ∷ []), length-reverse xs))

is_rooted-join :
    (x : String) (xs : List String) → IsName x → is_rooted (join_slash (x ∷ xs)) ≡ false
unfolding is_rooted join_slash str_eq
is_rooted-join String.[] xs h = absurd (ground arith)
is_rooted-join (String.◌∷◌ c s) [] h = ground arith
is_rooted-join (String.◌∷◌ c s) (y ∷ r) h = rw cons-append (ground arith)

-- "." or a relative name of at most `n` parts.
abbrev IsShort : ℕ → String → Type 0
IsShort n p = (p ≡ ".") ⊎ ((is_rooted p ≡ false) × (length (split_slash p) ≤ n))

joined-IsShort :
    (n : ℕ) (xs : List String) → All IsName xs → length xs ≤ n → xs ≢ [] → IsShort n (join_slash xs)
joined-IsShort n [] h k e = absurd (e refl)
joined-IsShort n (x ∷ xs) h k e =
    let plain = All-mono IsName (λ y. has_slash y ≡ false) (x ∷ xs) (λ y m. m.0) h in
    inr (is_rooted-join x xs h.0, rw (split-join x xs plain) k)

join_relative-IsShort :
    (n : ℕ) (kept : List String)
    → All IsName kept
    → length kept ≤ n
    → IsShort n (join_relative kept)
unfolding join_relative
join_relative-IsShort n [] h k = inl refl
join_relative-IsShort n (top ∷ below) h k =
    joined-IsShort n (reverse (top ∷ below)) (All-reverse IsName (top ∷ below) h)
      (omega (arith, length-reverse (top ∷ below)))
      (λ e. absurd (omega (arith, length-reverse (top ∷ below), ap length e)))

length-add_char : (c : Char) (xs : List String) → 0 < length (add_char c xs)
unfolding add_char
length-add_char c [] = omega arith
length-add_char c (x ∷ xs) = omega arith

length-split_slash : (s : String) → 0 < length (split_slash s)
unfolding split_slash
length-split_slash String.[] = omega arith
length-split_slash (String.◌∷◌ c s) = ground (arith, length-add_char c (split_slash s))

dir-IsShort :
    (n : ℕ) (p : String) → is_rooted p ≡ false → length (split_slash p) ≤ suc n → IsShort n (dir p)
unfolding dir clean_parts
dir-IsShort n p h k =
    let parts = but_last (split_slash p) in
    let kept = foldl (clean_step false) [] parts in
    let plain = but_last-All (λ y. has_slash y ≡ false) (split_slash p) (split_slash-All p) in
    rw h (
      join_relative-IsShort n kept (clean-IsName false [] parts tt plain)
        (omega (arith, length-clean false [] parts, length-but_last (split_slash p))))

walk_ends : (n : ℕ) (p : String) → IsShort n p → any at_end (walk (suc n) p) ≡ true
unfolding walk
walk_ends n p (inl e) = rw e (ground (arith, str_eq_refl "."))
walk_ends zero p (inr h) = absurd (omega (arith, h.1, length-split_slash p))
walk_ends (suc n) p (inr h) = ground (arith, walk_ends n (dir p) (dir-IsShort n p h.0 h.1))

-- The loop over the parents of a name that does not begin with a slash ends by its own test,
-- within the fuel that `ancestors` gives it.
pub ancestors_end : (p : String) → is_rooted p ≡ false → any at_end (ancestors p) ≡ true
unfolding ancestors
ancestors_end p h = walk_ends (length (split_slash p)) p (inr (h, le_refl _))

length-add_char_kept :
    (c : Char) (xs : List String) → 0 < length xs → length (add_char c xs) ≡ length xs
unfolding add_char
length-add_char_kept c [] h = absurd (omega (arith, h))
length-add_char_kept c (x ∷ xs) h = refl

-- A slash in front of a path adds a name.
pub length-split_slash_cons :
    (c : Char) (s : String)
    → length (split_slash (String.◌∷◌ c s))
      ≡ (if code c == b'/' then 1 else 0) + length (split_slash s)
unfolding split_slash
length-split_slash_cons c s =
    ground (arith, length-add_char_kept c (split_slash s) (length-split_slash s))

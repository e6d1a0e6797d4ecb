-- ===== src/EventStream/Lines.antt =====
-- internal/eventstream/client.go: the lines of an event as a server writes them, and what each sets.
use Prim.Native.Char.{Char, code}
use Prim.Native.String.{len}
use text.Mathlib.TextLemmas.{nil-append, cons-append, cons≢nil}
use ocis_cli.Base.{
  ℕ, ◌<◌, ◌≤◌, String, ◌<>◌, Bool, false, ◌||◌, List, [], ◌∷◌, ◌++◌, Option, some, ◌≡◌, refl, ap,
  ◌∙◌, arith, map, ◌==◌,
}
use ocis_cli.Base.{str_eq, str_eq_iff, inl, inr, Bool-cases, All}
use ocis_cli.Base.Int.{ℤ, pos}
use ocis_cli.EventStream.{
  Event, Decoder, max_line_bytes, max_event_data, is_empty, join_lines, grown, accept, accept_line,
  field_of, cut, trim_space, trim_cr, is_comment, has_nul,
}
use ocis_cli.EventStream.Bounds.{size_of_lines}

-- One event with the lines of its data.
pub record Message : Type 0 where
  pub type : String
  pub id : String
  pub lines : List String

abbrev pub field_line : String → String → String
field_line name value = name <> ": " <> value

-- The lines of an event, with the empty one that ends it.
unfoldable pub print : Message → List String
print m =
    field_line "event" m.type ∷ field_line "id" m.id ∷ map (field_line "data") m.lines ++ ("" ∷ [])

unfoldable pub print_all : List Message → List String
print_all [] = []
print_all (m ∷ ms) = print m ++ print_all ms

abbrev pub event : Message → Event
event m = record { type = m.type; text = join_lines m.lines; id = m.id; retry = pos 0 }

unfoldable pub has_newline : String → Bool
has_newline String.[] = false
has_newline (String.◌∷◌ c s) = code c == 10 || has_newline s

-- A line that a scanner with a limit reads back: it is shorter than the limit, has no line feed, and
-- does not end in a carriage return.
pub record IsLine (limit : ℕ) (line : String) : Type 0 where
  pub short : len line < limit
  pub whole : has_newline line ≡ false
  pub trimmed : trim_cr line ≡ line

-- The bytes of some lines, each with a line feed at its end.
unfoldable pub text_of : List String → String
text_of [] = ""
text_of (line ∷ later) = line <> ("\n" <> text_of later)

-- An event that can be written: it has a name and data of at most 4 MiB, its identifier has no null
-- character, and each of its lines can be read back.
pub record IsPrintable (m : Message) : Type 0 where
  pub named : str_eq m.type "" ≡ false
  pub type_line : IsLine max_line_bytes (field_line "event" m.type)
  pub id_line : IsLine max_line_bytes (field_line "id" m.id)
  pub id_plain : has_nul m.id ≡ false
  pub lines_given : is_empty m.lines ≡ false
  pub data_lines : All (λ l. IsLine max_line_bytes (field_line "data" l)) m.lines
  pub small : size_of_lines m.lines ≤ max_event_data

empty-IsLine : IsLine max_line_bytes ""
unfolding has_newline trim_cr
empty-IsLine = record { short = omega arith; whole = refl; trimmed = refl }

append-IsLine :
    (xs ys : List String)
    → All (IsLine max_line_bytes) xs
    → All (IsLine max_line_bytes) ys
    → All (IsLine max_line_bytes) (xs ++ ys)
append-IsLine [] ys h k = k
append-IsLine (x ∷ xs) ys h k = (h.0, append-IsLine xs ys h.1 k)

data-IsLine :
    (ls : List String)
    → All (λ l. IsLine max_line_bytes (field_line "data" l)) ls
    → All (IsLine max_line_bytes) (map (field_line "data") ls)
data-IsLine [] h = tt
data-IsLine (l ∷ ls) h = (h.0, data-IsLine ls h.1)

print-IsLine : (m : Message) → IsPrintable m → All (IsLine max_line_bytes) (print m)
unfolding print
print-IsLine m p = (
  p.type_line,
  (
    p.id_line,
    append-IsLine (map (field_line "data") m.lines) ("" ∷ []) (data-IsLine m.lines p.data_lines)
        (empty-IsLine, tt),
  ),
)

pub print_all-IsLine :
    (ms : List Message) → All IsPrintable ms → All (IsLine max_line_bytes) (print_all ms)
unfolding print_all
print_all-IsLine [] h = tt
print_all-IsLine (m ∷ ms) h =
    append-IsLine (print m) (print_all ms) (print-IsLine m h.0) (print_all-IsLine ms h.1)

unfoldable has_colon : String → Bool
has_colon String.[] = false
has_colon (String.◌∷◌ c s) = code c == b':' || has_colon s

colon-append : (v : String) → ": " <> v ≡ String.◌∷◌ ":" (String.◌∷◌ " " v)
colon-append v =
    cons-append ":" " " v
    ∙ ap (λ t. String.◌∷◌ ":" t) (cons-append " " "" v ∙ ap (λ t. String.◌∷◌ " " t) (nil-append v))

cut-name :
    (name v : String)
    → has_colon name ≡ false
    → cut (name <> (": " <> v)) ≡ some (name, String.◌∷◌ " " v)
unfolding cut has_colon
cut-name String.[] v h = rw (nil-append (": " <> v), colon-append v) refl
cut-name (String.◌∷◌ c s) v h =
    let rest = cut-name s v (ground arith) in
    rw (cons-append c s (": " <> v)) (ground (arith, rest))

field_of-field_line :
    (name v : String) → has_colon name ≡ false → field_of (field_line name v) ≡ (name, v)
unfolding field_of trim_space
field_of-field_line name v h = rw (cut-name name v h, field_of) refl

cons-nonempty : (c : Char) (s : String) → str_eq (String.◌∷◌ c s) "" ≡ false
cons-nonempty c s = elim (Bool-cases (str_eq (String.◌∷◌ c s) "")) [
  | inl t ↦ absurd (cons≢nil ((str_eq_iff (String.◌∷◌ c s) "").0 t))
  | inr f ↦ f
]

pub field_line-nonempty : (name v : String) → str_eq (field_line name v) "" ≡ false
field_line-nonempty String.[] v =
    rw (nil-append (": " <> v), colon-append v) (cons-nonempty ":" (String.◌∷◌ " " v))
field_line-nonempty (String.◌∷◌ c s) v =
    rw (cons-append c s (": " <> v)) (cons-nonempty c (s <> ": " <> v))

is_comment-field_line :
    (c : Char) (s v : String)
    → has_colon (String.◌∷◌ c s) ≡ false
    → is_comment (field_line (String.◌∷◌ c s) v) ≡ false
unfolding is_comment has_colon
is_comment-field_line c s v h = rw (cons-append c s (": " <> v)) (ground (arith, h))

module _ (parse_int : String → Option ℤ) where
  accept_line-field_line :
      (c : Char) (s v : String) (d : Decoder)
      → has_colon (String.◌∷◌ c s) ≡ false
      → accept_line parse_int (field_line (String.◌∷◌ c s) v) d
        ≡ accept parse_int (String.◌∷◌ c s) v d
  unfolding accept_line
  accept_line-field_line c s v d h =
      rw (field_of-field_line (String.◌∷◌ c s) v h, is_comment-field_line c s v h) refl

  pub event-line :
      (v : String) (d : Decoder)
      → accept_line parse_int (field_line "event" v) d ≡ some (record d { event_type = v })
  unfolding accept has_colon str_eq
  event-line v d = accept_line-field_line "e" "vent" v d refl

  pub id-line :
      (v : String) (d : Decoder)
      → has_nul v ≡ false
      → accept_line parse_int (field_line "id" v) d ≡ some (record d { id = v })
  unfolding accept has_colon str_eq
  id-line v d n = accept_line-field_line "i" "d" v d refl ∙ rw n refl

  pub data-line :
      (v : String) (d : Decoder)
      → grown d v ≤ max_event_data
      → accept_line parse_int (field_line "data" v) d
        ≡ some (record d { lines = d.lines ++ (v ∷ []); data_bytes = grown d v })
  unfolding accept has_colon str_eq
  data-line v d l = accept_line-field_line "d" "ata" v d refl ∙ ground (arith, l)

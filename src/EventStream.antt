-- ===== src/EventStream.antt =====
-- internal/eventstream/client.go: `decode`, the reader of server-sent events.
pub mod Bounds
pub mod Lines
pub mod RoundTrip
use Prim.Native.Char.{Char, code}
use Prim.Native.String.{len}
use ocis_cli.Base.{
  ℕ, suc, ◌+◌, ◌≤◌, String, ◌<>◌, Bool, true, false, not, ◌&&◌, ◌||◌, List, [], ◌∷◌, ◌++◌, Option,
  none, some, if◌then◌else◌,
}
use ocis_cli.Base.{str_eq, ltb, leb, ◌==◌}
use ocis_cli.Base.Int.{ℤ, pos, leb_ℤ, mul_64}
use ocis_cli.Base.Result.{Result, ok, err}

-- `maxLineBytes`: 1 MiB.
abbrev pub max_line_bytes : ℕ
max_line_bytes = 1048576

-- `maxEventData`: 4 MiB.
abbrev pub max_event_data : ℕ
max_event_data = 4194304

-- Milliseconds in the longest duration, and nanoseconds in a millisecond.
abbrev pub max_milliseconds : ℤ
max_milliseconds = pos 9223372036854

abbrev pub millisecond : ℕ
millisecond = 1000000

pub record Event : Type 0 where
  pub type : String
  -- `Data`
  pub text : String
  pub id : String
  pub retry : ℤ

-- The variables of `decode`: the fields of `event` that lines set, and the lines of data.
pub record Decoder : Type 0 where
  pub event_type : String
  pub id : String
  pub retry_delay : ℤ
  -- `data`
  pub lines : List String
  pub data_bytes : ℕ

abbrev pub new_decoder : Decoder
new_decoder = record { event_type = ""; id = ""; retry_delay = pos 0; lines = []; data_bytes = 0 }

-- Why the reader stops: the context's error, an event of more than 4 MiB, an error of the handler, or
-- one of the scanner.
pub data StreamError (Error : Type 0) : Type 0 where
  canceled too_long : StreamError Error
  handle_failed read_failed : Error → StreamError Error

-- `strings.Cut(line, ":")`
unfoldable pub cut : String → Option (String × String)
cut String.[] = none
cut (String.◌∷◌ c s) =
    let rest = cut s in
    if code c == b':'
    then some ("", s)
    else elim rest [ none ↦ none | some (a, b) ↦ some (String.◌∷◌ c a, b) ]

-- `strings.TrimSuffix(line, "\r")`
unfoldable pub trim_cr : String → String
trim_cr String.[] = ""
trim_cr (String.◌∷◌ c s) =
    let rest = trim_cr s in if code c == 13 && str_eq s "" then "" else String.◌∷◌ c rest

-- `strings.TrimPrefix(value, " ")`
unfoldable pub trim_space : String → String
trim_space String.[] = ""
trim_space (String.◌∷◌ c s) = if code c == b' ' then s else String.◌∷◌ c s

-- `strings.HasPrefix(line, ":")`
unfoldable pub is_comment : String → Bool
is_comment String.[] = false
is_comment (String.◌∷◌ c s) = code c == b':'

-- `strings.ContainsRune(value, '\x00')`
unfoldable pub has_nul : String → Bool
has_nul String.[] = false
has_nul (String.◌∷◌ c s) = code c == 0 || has_nul s

-- `strings.Join(data, "\n")`
unfoldable pub join_lines : List String → String
join_lines [] = ""
join_lines (x ∷ []) = x
join_lines (x ∷ y ∷ r) = x <> "\n" <> join_lines (y ∷ r)

abbrev pub is_empty : List String → Bool
is_empty [] = true
is_empty (x ∷ xs) = false

-- The field and the value of a line.
unfoldable pub field_of : String → String × String
unfolding cut trim_space
field_of line = elim (cut line) [
  | none ↦ (line, "")
  | some (field, value) ↦ (field, trim_space value)
]

-- The event that `dispatch` hands over.
unfoldable pub event_of : Decoder → Event
unfolding join_lines
event_of d = record {
  type = if str_eq d.event_type "" then "message" else d.event_type;
  text = join_lines d.lines;
  id = d.id;
  retry = d.retry_delay;
}

-- `dataBytes`, with a value added to the data.
abbrev pub grown : Decoder → String → ℕ
grown d value = d.data_bytes + len value + (if is_empty d.lines then 0 else 1)

-- `strconv.ParseInt(value, 10, 64)` is a parameter.
module _ (parse_int : String → Option ℤ) where
  unfoldable pub retry_of : String → ℤ → ℤ
  retry_of value retry_delay = elim (parse_int value) [
    | none ↦ retry_delay
    | some milliseconds ↦
        if leb_ℤ (pos 0) milliseconds && leb_ℤ milliseconds max_milliseconds
        then mul_64 milliseconds millisecond
        else retry_delay
  ]

  -- The switch on the field: `none` is an event that is too long.
  unfoldable pub accept : String → String → Decoder → Option Decoder
  unfolding retry_of has_nul
  accept field value d =
      if str_eq field "event"
      then some (record d { event_type = value })
      else if str_eq field "data"
      then (if ltb max_event_data (grown d value)
          then none
          else some (record d { lines = d.lines ++ (value ∷ []); data_bytes = grown d value }))
      else if str_eq field "id"
      then some (if not (has_nul value) then record d { id = value } else d)
      else if str_eq field "retry"
      then some (record d { retry_delay = retry_of value d.retry_delay })
      else some d

  -- A line that is not empty.
  unfoldable pub accept_line : String → Decoder → Option Decoder
  unfolding accept field_of is_comment
  accept_line line d =
      let (field, value) = field_of line in if is_comment line then some d else accept field value d

  module _ {World Error : Type 0} (is_canceled : World → Bool)
      (handle : Event → World → World × Result Error (Unit {0})) where
    -- What follows the call of the handler.
    unfoldable pub handled :
        World × Result Error (Unit {0})
        → (World → World × Result (StreamError Error) (Unit {0}))
        → World × Result (StreamError Error) (Unit {0})
    handled (w, err e) next = (w, err (handle_failed e))
    handled (w, ok _) next = next w

    unfoldable pub accepted :
        Option Decoder
        → World
        → (Decoder → World × Result (StreamError Error) (Unit {0}))
        → World × Result (StreamError Error) (Unit {0})
    accepted none w next = (w, err too_long)
    accepted (some d) w next = next d

    -- The loop over the lines that the scanner finds, with the error that it ends with.
    unfoldable pub decode_lines :
        List String → Option Error → Decoder → World → World × Result (StreamError Error) (Unit {0})
    unfolding event_of accept_line handled accepted trim_cr
    decode_lines [] (some e) d w = (w, err (if is_canceled w then canceled else read_failed e))
    decode_lines [] none d w = (w, (if is_canceled w then err canceled else ok tt))
    decode_lines (line ∷ later) end d w =
        let rest = decode_lines later end in
        if is_canceled w
        then (w, err canceled)
        else if str_eq (trim_cr line) ""
        then (if is_empty d.lines
            then rest (record d { event_type = ""; id = "" }) w
            else handled (handle (event_of d) w)
                (rest (record new_decoder { retry_delay = d.retry_delay })))
        else accepted (accept_line (trim_cr line) d) w (λ d'. rest d' w)

    -- `decode`. The scanner is a parameter: it splits a body into lines, of which none has as many
    -- bytes as the limit, and ends with an error or with none.
    unfoldable pub decode :
        (ℕ → String → List String × Option Error)
        → String
        → World
        → World × Result (StreamError Error) (Unit {0})
    unfolding decode_lines
    decode scan body w =
        let (lines, end) = scan max_line_bytes body in decode_lines lines end new_decoder w

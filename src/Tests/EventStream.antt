-- ===== src/Tests/EventStream.antt =====
-- A stream of two events.
use Prim.Native.Char.{Char, code}
use Prim.Native.String.{len}
use text.Mathlib.TextLemmas.{nil-append, cons-append}
use ocis_cli.Base.{
  ℕ, ◌≤◌, String, ◌<>◌, Bool, true, false, List, [], ◌∷◌, Option, none, some, ◌≡◌, refl, ap, ◌∙◌,
  arith,
}
use ocis_cli.Base.{All, str_eq, ltb, ◌==◌, if◌then◌else◌}
use ocis_cli.Base.Int.{ℤ}
use ocis_cli.Base.Result.{Result, ok, err}
use ocis_cli.EventStream.{
  Event, handle_failed, max_event_data, decode, trim_cr, has_nul, join_lines,
}
use ocis_cli.EventStream.Bounds.{decode-bounded}
use ocis_cli.EventStream.Lines.{
  Message, IsLine, IsPrintable, has_newline, text_of, print_all, event,
}
use ocis_cli.EventStream.RoundTrip.{deliver, decode-print_all}

abbrev no_numbers : String → Option ℤ
no_numbers s = none

abbrev goes_on : List Event → Bool
goes_on w = false

-- The handler keeps the events, the last one first, and fails on "stop".
abbrev keep_event : Event → List Event → List Event × Result String (Unit {0})
keep_event e w = (e ∷ w, (if str_eq e.type "stop" then err "stopped" else ok tt))

abbrev renamed : Message
renamed = record { type = "item-renamed"; id = "7"; lines = "{\"itemid\":" ∷ " \"a\"}" ∷ [] }

abbrev stopping : Message
stopping = record { type = "stop"; id = ""; lines = "now" ∷ [] }

renamed-IsPrintable : IsPrintable renamed
unfolding str_eq trim_cr has_nul has_newline
renamed-IsPrintable = record {
  named = refl;
  type_line = record { short = omega arith; whole = refl; trimmed = refl };
  id_line = record { short = omega arith; whole = refl; trimmed = refl };
  id_plain = refl;
  lines_given = refl;
  data_lines = (
    record { short = omega arith; whole = refl; trimmed = refl },
    (record { short = omega arith; whole = refl; trimmed = refl }, tt),
  );
  small = omega arith;
}

stopping-IsPrintable : IsPrintable stopping
unfolding str_eq trim_cr has_nul has_newline
stopping-IsPrintable = record {
  named = refl;
  type_line = record { short = omega arith; whole = refl; trimmed = refl };
  id_line = record { short = omega arith; whole = refl; trimmed = refl };
  id_plain = refl;
  lines_given = refl;
  data_lines = (record { short = omega arith; whole = refl; trimmed = refl }, tt);
  small = omega arith;
}

-- A scanner: it splits behind line feeds, drops a carriage return in front of one, and fails at the
-- first line that is too long.
abbrev put_front : Char → List String → List String
put_front c [] = String.◌∷◌ c "" ∷ []
put_front c (x ∷ xs) = String.◌∷◌ c x ∷ xs

unfoldable lines_of : String → List String
lines_of String.[] = []
lines_of (String.◌∷◌ c s) =
    let rest = lines_of s in if code c == 10 then "" ∷ rest else put_front c rest

unfoldable limited : ℕ → List String → List String × Option String
limited limit [] = ([], none)
limited limit (l ∷ ls) =
    let rest = limited limit ls in
    if ltb (len l) limit then (trim_cr l ∷ rest.0, rest.1) else ([], some "token too long")

abbrev scan : ℕ → String → List String × Option String
scan limit body = limited limit (lines_of body)

lines_of-line :
    (l t : String) → has_newline l ≡ false → lines_of (l <> ("\n" <> t)) ≡ l ∷ lines_of t
unfolding lines_of has_newline
lines_of-line String.[] t h = rw (nil-append ("\n" <> t), cons-append "\n" "" t, nil-append t) refl
lines_of-line (String.◌∷◌ c s) t h =
    let rest = lines_of-line s t (ground arith) in
    let here : (code c == 10) ≡ false = ground arith in
    rw (cons-append c s ("\n" <> t), lines_of, rest, here) refl

lines_of-text_of :
    (limit : ℕ) (ls : List String) → All (IsLine limit) ls → lines_of (text_of ls) ≡ ls
unfolding lines_of text_of
lines_of-text_of limit [] h = refl
lines_of-text_of limit (l ∷ ls) h =
    lines_of-line l (text_of ls) h.0.whole ∙ ap (λ t. l ∷ t) (lines_of-text_of limit ls h.1)

limited-lines :
    (limit : ℕ) (ls : List String) → All (IsLine limit) ls → limited limit ls ≡ (ls, none)
unfolding limited
limited-lines limit [] h = refl
limited-lines limit (l ∷ ls) h =
    let fits : ltb (len l) limit ≡ true = ground (arith, h.0.short) in
    rw (limited, fits, h.0.trimmed, limited-lines limit ls h.1) refl

scan-text_of :
    (limit : ℕ) (ls : List String) → All (IsLine limit) ls → scan limit (text_of ls) ≡ (ls, none)
scan-text_of limit ls h = rw (lines_of-text_of limit ls h) (limited-lines limit ls h)

decode-print_all_example :
    decode no_numbers goes_on keep_event scan
      (text_of (print_all (renamed ∷ stopping ∷ renamed ∷ [])))
      []
    ≡ deliver keep_event (renamed ∷ stopping ∷ renamed ∷ []) []
decode-print_all_example =
    decode-print_all no_numbers goes_on keep_event (λ w. refl) scan scan-text_of
      (renamed ∷ stopping ∷ renamed ∷ []) []
      (renamed-IsPrintable, (stopping-IsPrintable, (renamed-IsPrintable, tt)))

delivered_lem :
    deliver keep_event (renamed ∷ stopping ∷ renamed ∷ []) []
    ≡ (event stopping ∷ event renamed ∷ [], err (handle_failed "stopped"))
unfolding deliver str_eq join_lines
delivered_lem = refl

decode-bounded_example :
    All
      (λ e. len e.text ≤ max_event_data)
      (decode no_numbers goes_on keep_event scan "data: now\n\n" []).0
decode-bounded_example =
    decode-bounded no_numbers goes_on keep_event (All (λ e. len e.text ≤ max_event_data))
      (λ e w l q. (l, q)) scan "data: now\n\n" [] tt

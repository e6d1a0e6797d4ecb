-- ===== src/EventStream/RoundTrip.antt =====
-- internal/eventstream/client.go: events that are written as a server writes them are read back.
use mathlib.Core.List.{append_assoc, append-nil}
use ocis_cli.Base.{
  ℕ, ◌+◌, ◌≤◌, String, Bool, false, ◌||◌, List, [], ◌∷◌, ◌++◌, Option, none, some, ◌≡◌, refl, ap,
  sym, ◌∙◌, arith, map,
}
use ocis_cli.Base.{str_eq, str_eq_refl, if◌then◌else◌, All}
use ocis_cli.Base.Int.{ℤ}
use ocis_cli.Base.Result.{Result, ok, err}
use ocis_cli.EventStream.{
  Event, Decoder, new_decoder, StreamError, handle_failed, max_event_data, is_empty, event_of,
  grown, accept_line, handled, accepted, decode_lines, decode, trim_cr, max_line_bytes,
}
use ocis_cli.EventStream.Bounds.{size_of_lines}
use ocis_cli.EventStream.Lines.{
  Message, IsLine, IsPrintable, text_of, print_all-IsLine, field_line, print, print_all, event,
  field_line-nonempty, event-line, id-line, data-line,
}

size-append :
    (xs ys : List String)
    → size_of_lines (xs ++ ys)
      ≡ size_of_lines xs + size_of_lines ys + (if is_empty xs || is_empty ys then 0 else 1)
size-append [] ys = omega arith
size-append (x ∷ []) [] = omega arith
size-append (x ∷ []) (y ∷ ys) = omega arith
size-append (x ∷ x' ∷ xs) ys = omega (arith, size-append (x' ∷ xs) ys)

-- What follows a call of the handler.
delivered :
    {World Error : Type 0}
    → World × Result Error (Unit {0})
    → (World → World × Result (StreamError Error) (Unit {0}))
    → World × Result (StreamError Error) (Unit {0})
delivered (w, err e) next = (w, err (handle_failed e))
delivered (w, ok _) next = next w

-- Each event is handed to the handler, until one fails.
unfoldable pub deliver :
    {World Error : Type 0}
    → (Event → World → World × Result Error (Unit {0}))
    → List Message
    → World
    → World × Result (StreamError Error) (Unit {0})
unfolding delivered
deliver handle [] w = (w, ok tt)
deliver handle (m ∷ ms) w = delivered (handle (event m) w) (deliver handle ms)

module _ (parse_int : String → Option ℤ) {World Error : Type 0} (is_canceled : World → Bool)
    (handle : Event → World → World × Result Error (Unit {0}))
    (goes_on : (w : World) → is_canceled w ≡ false) where
  decode-line :
      (line : String) (later : List String) (d d' : Decoder) (w : World)
      → trim_cr line ≡ line
      → str_eq line "" ≡ false
      → accept_line parse_int line d ≡ some d'
      → decode_lines parse_int is_canceled handle (line ∷ later) none d w
        ≡ decode_lines parse_int is_canceled handle later none d' w
  unfolding accepted decode_lines
  decode-line line later d d' w t n a = rw (goes_on w, t, n, a, decode_lines) refl

  decode-data :
      (ls later : List String) (d : Decoder) (w : World)
      → All (λ l. IsLine max_line_bytes (field_line "data" l)) ls
      → d.data_bytes ≡ size_of_lines d.lines
      → size_of_lines (d.lines ++ ls) ≤ max_event_data
      → decode_lines parse_int is_canceled handle (map (field_line "data") ls ++ later) none d w
        ≡ decode_lines parse_int is_canceled handle later none
            (record d { lines = d.lines ++ ls; data_bytes = size_of_lines (d.lines ++ ls) })
            w
  decode-data [] later d w a c l = rw (append-nil d.lines, ← c) refl
  decode-data (x ∷ ls) later d w a c l =
      let here : size_of_lines (d.lines ++ (x ∷ [])) ≡ grown d x =
        ground (arith, size-append d.lines (x ∷ []), c) in
      let fits : grown d x ≤ max_event_data = ground (arith, l, size-append d.lines (x ∷ ls), c) in
      let d₁ : Decoder = record d { lines = d.lines ++ (x ∷ []); data_bytes = grown d x } in
      let same : (d.lines ++ (x ∷ [])) ++ ls ≡ d.lines ++ (x ∷ ls) =
        append_assoc d.lines (x ∷ []) ls in
      decode-line (field_line "data" x) (map (field_line "data") ls ++ later) d d₁ w a.0.trimmed
        (field_line-nonempty "data" x) (data-line parse_int x d fits)
      ∙ decode-data ls later d₁ w a.1 (sym here) (rw same l)
      ∙ rw same refl

  decode-end :
      (later : List String) (d : Decoder) (w : World)
      → is_empty d.lines ≡ false
      → decode_lines parse_int is_canceled handle ("" ∷ later) none d w
        ≡ handled parse_int is_canceled handle (handle (event_of d) w) (
            decode_lines parse_int is_canceled handle later none
              (record new_decoder { retry_delay = d.retry_delay }))
  unfolding decode_lines trim_cr
  decode-end later d w n = rw (goes_on w, str_eq_refl "", n) refl

  decode-message :
      (m : Message) (later : List String) (w : World)
      → IsPrintable m
      → decode_lines parse_int is_canceled handle (print m ++ later) none new_decoder w
        ≡ handled parse_int is_canceled handle
            (handle (event m) w)
            (decode_lines parse_int is_canceled handle later none new_decoder)
  unfolding print event_of
  decode-message m later w p =
      let named : Decoder = record new_decoder { event_type = m.type } in
      let marked : Decoder = record named { id = m.id } in
      let full : Decoder = record marked { lines = m.lines; data_bytes = size_of_lines m.lines } in
      let same : event_of full ≡ event m = rw p.named refl in
      decode-line (field_line "event" m.type) _ new_decoder named w p.type_line.trimmed
        (field_line-nonempty "event" m.type) (event-line parse_int m.type new_decoder)
      ∙ decode-line (field_line "id" m.id) _ named marked w p.id_line.trimmed
          (field_line-nonempty "id" m.id) (id-line parse_int m.id named p.id_plain)
      ∙ ap (λ ls. decode_lines parse_int is_canceled handle ls none marked w)
          (append_assoc (map (field_line "data") m.lines) ("" ∷ []) later)
      ∙ decode-data m.lines ("" ∷ later) marked w p.data_lines refl p.small
      ∙ decode-end later full w p.lines_given
      ∙ rw same refl

  handled-delivered :
      (o : World × Result Error (Unit {0}))
      (next next' : World → World × Result (StreamError Error) (Unit {0}))
      → ((w : World) → next w ≡ next' w)
      → handled parse_int is_canceled handle o next ≡ delivered o next'
  unfolding handled delivered
  handled-delivered (w, err e) next next' same = refl
  handled-delivered (w, ok _) next next' same = same w

  decode_lines-print_all :
      (ms : List Message) (w : World)
      → All IsPrintable ms
      → decode_lines parse_int is_canceled handle (print_all ms) none new_decoder w
        ≡ deliver handle ms w
  unfolding print_all deliver decode_lines
  decode_lines-print_all [] w h = rw (goes_on w, decode_lines) refl
  decode_lines-print_all (m ∷ ms) w h =
      decode-message m (print_all ms) w h.0
      ∙ handled-delivered (handle (event m) w) _ _ (λ w₁. decode_lines-print_all ms w₁ h.1)

  -- Reading back what was written. Take events that have a name, at least one line of data, data of at
  -- most 4 MiB, no null character in the identifier, and no line that has a line feed, ends in a
  -- carriage return or has 1 MiB or more. Let the scanner read back the lines of a text, if they
  -- are shorter than its limit, have no line feed and do not end in a carriage return, and let the
  -- context go on. Then the reader of these events, written one behind the other, hands over exactly
  -- them, in their order and with all their data, until the handler fails on one, and ends with the
  -- handler's error or with none.
  pub decode-print_all :
      (scan : ℕ → String → List String × Option Error)
      → ((limit : ℕ) (lines : List String)
          → All (IsLine limit) lines
          → scan limit (text_of lines) ≡ (lines, none))
      → (ms : List Message) (w : World) → All IsPrintable ms
      → decode parse_int is_canceled handle scan (text_of (print_all ms)) w ≡ deliver handle ms w
  unfolding decode
  decode-print_all scan reads ms w h =
      rw (reads max_line_bytes (print_all ms) (print_all-IsLine ms h))
        (decode_lines-print_all ms w h)

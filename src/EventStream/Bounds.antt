-- ===== src/EventStream/Bounds.antt =====
-- internal/eventstream/client.go: the size of an event.
use Prim.Native.Char.{Char, len_utf8}
use Prim.Native.String.{len}
use text.Mathlib.TextLemmas.{nil-append, cons-append}
use ocis_cli.Base.{
  ℕ, ◌+◌, ◌≤◌, String, ◌<>◌, Bool, List, [], ◌∷◌, ◌++◌, Option, none, some, ◌≡◌, refl, arith, inl,
  inr,
}
use ocis_cli.Base.{str_eq, ltb, Bool-cases, if◌then◌else◌}
use ocis_cli.Base.Int.{ℤ}
use ocis_cli.Base.Result.{Result, ok, err}
use ocis_cli.EventStream.{
  Event, Decoder, new_decoder, StreamError, max_event_data, is_empty, join_lines, event_of, grown,
  accept, accept_line, handled, accepted, decode_lines, decode, max_line_bytes, trim_cr, is_comment,
  has_nul,
}
use ocis_cli.Run.Session.Kept.{if-ends}

len-cons : (c : Char) (s : String) → len (String.◌∷◌ c s) ≡ len_utf8 c + len s
len-cons c s = λ i. Prim.Native.String.len.cons c s i

pub len-append : (s t : String) → len (s <> t) ≡ len s + len t
len-append String.[] t = rw (nil-append t) (omega arith)
len-append (String.◌∷◌ c s) t =
    rw (cons-append c s t) (omega (arith, len-append s t, len-cons c s, len-cons c (s <> t)))

-- The bytes of the joined lines, as `dataBytes` counts them.
abbrev pub size_of_lines : List String → ℕ
size_of_lines [] = 0
size_of_lines (x ∷ xs) = len x + (if is_empty xs then 0 else 1) + size_of_lines xs

pub len-join_lines : (xs : List String) → len (join_lines xs) ≡ size_of_lines xs
unfolding join_lines
len-join_lines [] = refl
len-join_lines (x ∷ []) = omega arith
len-join_lines (x ∷ y ∷ r) = omega (
  arith,
  len-append x ("\n" <> join_lines (y ∷ r)),
  len-append "\n" (join_lines (y ∷ r)),
  len-join_lines (y ∷ r),
)

size_of_lines-append :
    (xs : List String) (v : String)
    → size_of_lines (xs ++ (v ∷ [])) ≡ size_of_lines xs + len v + (if is_empty xs then 0 else 1)
size_of_lines-append [] v = omega arith
size_of_lines-append (x ∷ []) v = omega arith
size_of_lines-append (x ∷ y ∷ r) v = omega (arith, size_of_lines-append (y ∷ r) v)

-- The counter counts the data, which is within the limit.
record IsWithin (d : Decoder) : Type 0 where
  counted : d.data_bytes ≡ size_of_lines d.lines
  within : d.data_bytes ≤ max_event_data

-- What a line leaves is within the limit, if it leaves anything.
unfoldable Fits : Option Decoder → Type 0
Fits none = Unit
Fits (some d) = IsWithin d

module _ (parse_int : String → Option ℤ) where
  accept-Fits :
      (field value : String) (d : Decoder) → IsWithin d → Fits (accept parse_int field value d)
  unfolding accept Fits
  accept-Fits field value d h =
      if-ends Fits (str_eq field "event") (λ _. record { counted = h.counted; within = h.within })
        (λ _.
          if-ends Fits (str_eq field "data")
            (λ _.
              if-ends Fits (ltb max_event_data (grown d value)) (λ _. tt)
                (λ l. record {
                  counted = omega (arith, h.counted, size_of_lines-append d.lines value);
                  within = ground (arith, l);
                }))
            (λ _.
              if-ends Fits (str_eq field "id")
                (λ _. elim (Bool-cases (has_nul value)) [
                  | inl n ↦ rw n h
                  | inr n ↦ rw n (record { counted = h.counted; within = h.within })
                ])
                (λ _.
                  if-ends Fits (str_eq field "retry")
                    (λ _. record { counted = h.counted; within = h.within }) (λ _. h))))

  accept_line-Fits :
      (line : String) (d : Decoder) → IsWithin d → Fits (accept_line parse_int line d)
  unfolding accept_line Fits
  accept_line-Fits line d h = if-ends Fits (is_comment line) (λ _. h) (λ _. accept-Fits _ _ d h)

Fits-some : (o : Option Decoder) {d : Decoder} → Fits o → o ≡ some d → IsWithin d
unfolding Fits
Fits-some o h e = rw e at h

event_of-bounded : (d : Decoder) → IsWithin d → len (event_of d).text ≤ max_event_data
unfolding event_of
event_of-bounded d h = omega (arith, len-join_lines d.lines, h.counted, h.within)

module _ (parse_int : String → Option ℤ) {World Error : Type 0} (is_canceled : World → Bool)
    (handle : Event → World → World × Result Error (Unit {0})) where
  handled-kept :
      (Q : World → Type 0) (o : World × Result Error (Unit {0}))
      (next : World → World × Result (StreamError Error) (Unit {0}))
      → Q o.0
      → ((w : World) → Q w → Q (next w).0)
      → Q (handled parse_int is_canceled handle o next).0
  unfolding handled
  handled-kept Q (w, err e) next q k = q
  handled-kept Q (w, ok _) next q k = k w q

  accepted-kept :
      (Q : World → Type 0) (o : Option Decoder) (w : World)
      (next : Decoder → World × Result (StreamError Error) (Unit {0}))
      → Q w
      → ((d : Decoder) → o ≡ some d → Q (next d).0)
      → Q (accepted parse_int is_canceled handle o w next).0
  unfolding accepted
  accepted-kept Q none w next q k = q
  accepted-kept Q (some d) w next q k = k d refl

  module _ (Q : World → Type 0)
      (keeps : (e : Event) (w : World) → len e.text ≤ max_event_data → Q w → Q (handle e w).0) where
    -- What is kept of the world.
    unfoldable KeptIn : World × Result (StreamError Error) (Unit {0}) → Type 0
    KeptIn o = Q o.0

    decode_lines-kept :
        (lines : List String) (end : Option Error) (d : Decoder) (w : World)
        → IsWithin d
        → Q w
        → KeptIn (decode_lines parse_int is_canceled handle lines end d w)
    unfolding decode_lines KeptIn
    decode_lines-kept [] none d w h q = q
    decode_lines-kept [] (some e) d w h q = q
    decode_lines-kept (line ∷ later) end d w h q =
        if-ends KeptIn (is_canceled w) (λ _. q)
          (λ _.
            if-ends KeptIn (str_eq (trim_cr line) "")
              (λ _.
                if-ends KeptIn (is_empty d.lines)
                  (λ _.
                    decode_lines-kept later end (record d { event_type = ""; id = "" }) w
                      (record { counted = h.counted; within = h.within }) q)
                  (λ _.
                    handled-kept Q (handle (event_of d) w) _
                      (keeps (event_of d) w (event_of-bounded d h) q)
                      (λ w₁.
                        decode_lines-kept later end
                          (record new_decoder { retry_delay = d.retry_delay }) w₁
                          (record { counted = refl; within = omega arith }))))
              (λ _. accepted-kept Q (accept_line parse_int (trim_cr line) d) w _ q (λ d' e.
                decode_lines-kept later end d' w
                  (Fits-some (accept_line parse_int (trim_cr line) d)
                    (accept_line-Fits parse_int (trim_cr line) d h) e)
                  q)))

    -- What every call of the handler on an event of at most 4 MiB keeps of the world, reading a stream
    -- keeps, whatever the scanner finds in it and however it ends: no event of more data reaches the
    -- handler.
    pub decode-bounded :
        (scan : ℕ → String → List String × Option Error) (body : String) (w : World)
        → Q w
        → Q (decode parse_int is_canceled handle scan body w).0
    unfolding decode KeptIn
    decode-bounded scan body w q =
        decode_lines-kept (scan max_line_bytes body).0 (scan max_line_bytes body).1 new_decoder w
          (record { counted = refl; within = omega arith }) q

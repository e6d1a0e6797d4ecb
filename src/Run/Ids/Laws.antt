-- ===== src/Run/Ids/Laws.antt =====
-- internal/app/sync/state.go: an identifier that is shown is one that resolves.
use Prim.Native.Char.{Char, code}
use text.Mathlib.TextEquality.{Char-path}
use ocis_cli.Base.{
  ℕ, zero, suc, ◌+◌, ◌-◌, ◌<◌, ◌≤◌, String, Bool, true, false, not, List, [], ◌∷◌, ◌≡◌, refl, ap,
  sym, ◌∙◌, arith, inl, inr,
}
use ocis_cli.Base.{Bool-eq, str_eq, str_eq_iff, ltb, ◌==◌, count_if, keep, All, Bool-cases}
use ocis_cli.Base.Map.{contains}
use ocis_cli.Base.Result.{ok}
use ocis_cli.Sync.Pattern.{is_space}
use ocis_cli.Sync.TwoWay.Subtrees.{after_prefix}
use ocis_cli.Run.Names.{trim}
use ocis_cli.Run.Names.Trim.{all_chars, trim-all, trim-all_of, trim-none}
use ocis_cli.Run.Ids.{
  Kind, byte_width, byte_length, take_bytes, is_hex, trims_away, has_prefix, is_key, one_match,
  resolve_id, resolve_sync_state_id, unique_from, unique_sync_state_id, display_length,
  minimum_prefix, conflicting,
}

module _ (test : String → Bool) where
  none_kept : (xs : List String) → count_if test xs ≡ 0 → keep test xs ≡ []
  none_kept [] h = refl
  none_kept (x ∷ xs) h = elim (Bool-cases (test x)) [
    | inl t ↦ absurd (ground (arith, h, t))
    | inr f ↦ rw f (none_kept xs (ground (arith, h, f)))
  ]

  counted_once :
      (k : String) (xs : List String) → contains k xs ≡ true → test k ≡ true → 1 ≤ count_if test xs
  counted_once k [] c t = absurd (ground arith)
  counted_once k (x ∷ xs) c t = elim (Bool-cases (str_eq k x)) [
    | inl e ↦ let same : k ≡ x = (str_eq_iff k x).0 e in ground (arith, rw same at t)
    | inr e ↦ ground (arith, counted_once k xs (ground (arith, c, e)) t)
  ]

  -- The one element that is counted is the one that is kept.
  keep-one :
      (k : String) (xs : List String)
      → contains k xs ≡ true
      → test k ≡ true
      → count_if test xs ≡ 1
      → keep test xs ≡ k ∷ []
  keep-one k [] c t n = absurd (ground arith)
  keep-one k (x ∷ xs) c t n = elim (Bool-cases (test x)) [
    | inl y ↦ elim (Bool-cases (str_eq k x)) [
      | inl e ↦
          let same : k ≡ x = (str_eq_iff k x).0 e in
          rw (y, same) (ap (λ r. x ∷ r) (none_kept xs (ground (arith, n, y))))
      | inr e ↦ absurd (ground (arith, n, y, counted_once k xs (ground (arith, c, e)) t))
    ]
    | inr f ↦ elim (Bool-cases (str_eq k x)) [
      | inl e ↦ let same : k ≡ x = (str_eq_iff k x).0 e in absurd (ground (arith, f, rw same at t))
      | inr e ↦ rw f (keep-one k xs (ground (arith, c, e)) t (ground (arith, n, f)))
    ]
  ]

hex_width : (c : Char) → is_hex c ≡ true → byte_width c ≡ 1
hex_width c h = ground (arith, h)

byte_width-pos : (c : Char) → 1 ≤ byte_width c
byte_width-pos c = ground arith

hex_plain : (s : String) → all_chars is_hex s ≡ true → all_chars (λ c. not (is_space c)) s ≡ true
unfolding all_chars is_space
hex_plain String.[] h = refl
hex_plain (String.◌∷◌ c s) h = ground (arith, hex_plain s, h)

-- A prefix of a text of hexadecimal digits, cut at a number of bytes that the text has.
record IsCut (n : ℕ) (key p : String) : Type 0 where
  long : byte_length p ≡ n
  plain : all_chars is_hex p ≡ true
  prefix : has_prefix p key ≡ true

take_bytes-IsCut :
    (n : ℕ) (key : String)
    → all_chars is_hex key ≡ true
    → n ≤ byte_length key
    → IsCut n key (take_bytes n key)
unfolding take_bytes byte_length all_chars has_prefix after_prefix
take_bytes-IsCut n String.[] h l = record { long = omega (arith, l); plain = refl; prefix = refl }
take_bytes-IsCut zero (String.◌∷◌ c s) h l =
    let e : take_bytes 0 (String.◌∷◌ c s) ≡ "" = ground (arith, byte_width-pos c) in
    rw e (record { long = refl; plain = refl; prefix = refl })
take_bytes-IsCut (suc n) (String.◌∷◌ c s) h l =
    let w : byte_width c ≡ 1 = hex_width c (ground (arith, h)) in
    let m : suc n - byte_width c ≡ n = omega (arith, w) in
    let e : take_bytes (suc n) (String.◌∷◌ c s) ≡ String.◌∷◌ c (take_bytes n s) =
      rw (m, w) (ground arith) in
    let r = take_bytes-IsCut n s (ground (arith, h)) (omega (arith, l, w)) in
    rw e (record {
      long = omega (arith, w, r.long);
      plain = ground (arith, h, r.plain);
      prefix = ground (arith, r.prefix);
    })

-- A key is a text of 64 hexadecimal digits.
is_key-plain : (k : String) → is_key k ≡ true → (byte_length k ≡ 64) × (all_chars is_hex k ≡ true)
unfolding is_key trims_away
is_key-plain k h = (
  ground (arith, h),
  trim-all_of is_hex k ((str_eq_iff (trim is_hex k) "").0 (ground (arith, h))),
)

byte_length-nil : (s : String) → byte_length s ≡ 0 → s ≡ ""
unfolding byte_length
byte_length-nil String.[] h = refl
byte_length-nil (String.◌∷◌ c s) h = absurd (omega (arith, h, byte_width-pos c))

-- A text that begins with another of the same length is the other.
has_prefix-eq : (p k : String) → byte_length k ≡ byte_length p → has_prefix p k ≡ true → p ≡ k
unfolding has_prefix after_prefix byte_length
has_prefix-eq String.[] k l h = sym (byte_length-nil k l)
has_prefix-eq (String.◌∷◌ c p) String.[] l h = absurd (ground (arith, h))
has_prefix-eq (String.◌∷◌ c p) (String.◌∷◌ d k) l h = elim (Bool-cases (code c == code d)) [
  | inl e ↦
      let same : c ≡ d = Char-path c d (ground (arith, e)) in
      rw same (
        ap (λ r. String.◌∷◌ d r)
          (has_prefix-eq p k (ground (arith, l, same)) (ground (arith, h, e))))
  | inr e ↦ absurd (ground (arith, h, e))
]

has_prefix_refl : (p : String) → has_prefix p p ≡ true
unfolding has_prefix after_prefix
has_prefix_refl String.[] = refl
has_prefix_refl (String.◌∷◌ c p) = ground (arith, has_prefix_refl p)

-- Among keys, only a key itself begins with it.
count_if-has_prefix :
    (key : String) (keys : List String)
    → is_key key ≡ true
    → All (λ k. is_key k ≡ true) keys
    → count_if (has_prefix key) keys ≡ count_if (str_eq key) keys
count_if-has_prefix key [] h a = refl
count_if-has_prefix key (k ∷ keys) h a =
    let same : has_prefix key k ≡ str_eq key k =
      Bool-eq (has_prefix key k) (str_eq key k)
        (λ p.
          (str_eq_iff key k).1
            (has_prefix-eq key k ((is_key-plain k a.0).0 ∙ sym (is_key-plain key h).0) p))
        (λ e. let q : key ≡ k = (str_eq_iff key k).0 e in rw q (has_prefix_refl k)) in
    ground (arith, same, count_if-has_prefix key keys h a.1)

unique_from-holds :
    (Q : String → Type 0) (rounds length : ℕ) (key : String) (keys : List String)
    → Q key
    → ((n : ℕ)
        → length ≤ n
        → n < length + rounds
        → count_if (has_prefix (take_bytes n key)) keys ≡ 1
        → Q (take_bytes n key))
    → Q (unique_from rounds length key keys)
unfolding unique_from
unique_from-holds Q zero length key keys q h = q
unique_from-holds Q (suc rounds) length key keys q h =
    elim (Bool-cases (count_if (has_prefix (take_bytes length key)) keys == 1)) [
      | inl e ↦ rw e (h length (omega arith) (omega arith) (ground (arith, e)))
      | inr e ↦ rw e (
          unique_from-holds Q rounds (suc length) key keys q
            (λ n l m c. h n (omega (arith, l)) (omega (arith, m)) c))
    ]

module _ (to_lower : String → String)
    (lower_plain : (s : String) → all_chars is_hex s ≡ true → to_lower s ≡ s) where
  -- A prefix of one key resolves to it.
  resolve-cut :
      (ambiguity : Kind) (keys : List String) (key p : String) (n : ℕ)
      → IsCut n key p
      → minimum_prefix ≤ n
      → contains key keys ≡ true
      → count_if (has_prefix p) keys ≡ 1
      → resolve_id to_lower ambiguity (ok keys) p ≡ ok key
  unfolding resolve_id trims_away one_match
  resolve-cut ambiguity keys key p n cut l c once =
      let same : to_lower (trim is_space p) ≡ p =
        ap to_lower (trim-none is_space p (hex_plain p cut.plain)) ∙ lower_plain p cut.plain in
      let t : str_eq (trim is_hex p) "" ≡ true =
        (str_eq_iff (trim is_hex p) "").1 (trim-all is_hex p cut.plain) in
      let k : keep (has_prefix p) keys ≡ key ∷ [] =
        keep-one (has_prefix p) key keys c cut.prefix once in
      let b : ltb (byte_length p) minimum_prefix ≡ false = ground (arith, l, cut.long) in
      rw (same, t, b, k) refl

  -- An identifier that the list of states shows is accepted by the other commands, and names the
  -- state it was shown for: where the keys are texts of 64 hexadecimal digits, as `Keys` makes sure,
  -- and a key is listed once, the shortened key of at least 12 digits resolves to the key, if lower
  -- case changes no such text.
  pub resolve_sync_state_id_unique :
      (key : String) (keys : List String)
      → All (λ k. is_key k ≡ true) keys
      → is_key key ≡ true
      → contains key keys ≡ true
      → count_if (str_eq key) keys ≡ 1
      → resolve_sync_state_id to_lower (ok keys) (unique_sync_state_id key keys) ≡ ok key
  unfolding resolve_sync_state_id unique_sync_state_id
  resolve_sync_state_id_unique key keys a h c once =
      let (long, plain) = is_key-plain key h in
      let small : ltb (byte_length key) display_length ≡ false = ground (arith, long) in
      let whole : IsCut 64 key key = record {
        long = long;
        plain = plain;
        prefix = has_prefix_refl key;
      } in
      rw small (
        unique_from-holds (λ p. resolve_id to_lower conflicting (ok keys) p ≡ ok key)
          (byte_length key - 12) 12 key keys
          (resolve-cut conflicting keys key key 64 whole (omega arith) c
            (count_if-has_prefix key keys h a ∙ once))
          (λ n l m e.
            resolve-cut conflicting keys key (take_bytes n key) n
              (take_bytes-IsCut n key plain (omega (arith, m, long))) (omega (arith, l)) c e))

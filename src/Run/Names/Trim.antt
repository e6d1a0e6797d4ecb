-- ===== src/Run/Names/Trim.antt =====
-- internal/app/sync: what `strings.Trim` and its variants leave.
use Prim.Native.Char.{Char}
use text.Mathlib.TextLemmas.{cons≢nil}
use ocis_cli.Base.{String, Bool, true, not, ◌&&◌, ◌≡◌, refl, ap, sym, ◌∙◌, arith, inl, inr}
use ocis_cli.Base.{Bool-cases}
use ocis_cli.Run.Names.{trim_left, trim_right, trim}

-- Every character passes the test.
unfoldable pub all_chars : (Char → Bool) → String → Bool
all_chars test String.[] = true
all_chars test (String.◌∷◌ c s) = test c && all_chars test s

module _ (test : Char → Bool) where
  trim_left-all : (s : String) → all_chars test s ≡ true → trim_left test s ≡ ""
  unfolding trim_left all_chars
  trim_left-all String.[] h = refl
  trim_left-all (String.◌∷◌ c s) h = ground (arith, trim_left-all s)

  -- A text of characters that all pass is trimmed away.
  pub trim-all : (s : String) → all_chars test s ≡ true → trim test s ≡ ""
  unfolding trim trim_right
  trim-all s h = rw (trim_left-all s h) refl

  -- A text that is trimmed away has characters that all pass.
  pub trim-all_of : (s : String) → trim test s ≡ "" → all_chars test s ≡ true
  unfolding trim trim_left trim_right all_chars
  trim-all_of String.[] h = refl
  trim-all_of (String.◌∷◌ c s) h = elim (Bool-cases (test c)) [
    | inl t ↦ rw t (trim-all_of s (rw t at h))
    | inr f ↦
        let e : trim_left test (String.◌∷◌ c s) ≡ String.◌∷◌ c s = rw f refl in
        let g : trim_right test (String.◌∷◌ c s) ≡ String.◌∷◌ c (trim_right test s) = rw f refl in
        absurd (cons≢nil (sym g ∙ sym (ap (trim_right test) e) ∙ h))
  ]

  trim_right-none : (s : String) → all_chars (λ c. not (test c)) s ≡ true → trim_right test s ≡ s
  unfolding trim_right all_chars
  trim_right-none String.[] h = refl
  trim_right-none (String.◌∷◌ c s) h = elim (Bool-cases (test c)) [
    | inl t ↦ absurd (ground (arith, h, t))
    | inr f ↦ rw f (ap (λ r. String.◌∷◌ c r) (trim_right-none s (ground (arith, h))))
  ]

  -- A text of characters that do not pass is left as it is.
  pub trim-none : (s : String) → all_chars (λ c. not (test c)) s ≡ true → trim test s ≡ s
  unfolding trim trim_left trim_right all_chars
  trim-none String.[] h = refl
  trim-none (String.◌∷◌ c s) h = elim (Bool-cases (test c)) [
    | inl t ↦ absurd (ground (arith, h, t))
    | inr f ↦ rw f (trim_right-none (String.◌∷◌ c s) h)
  ]

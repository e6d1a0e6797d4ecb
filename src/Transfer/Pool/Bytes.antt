-- ===== src/Transfer/Pool/Bytes.antt =====
-- internal/transfer/transfer.go: the sums of bytes, as `int64`.
use ocis_cli.Base.{ℕ, suc, ◌+◌, ◌%◌, ◌<◌, List, [], ◌∷◌, some, ◌≡◌, refl, ap, ◌∙◌, arith, map}
use ocis_cli.Base.{length, All}
use ocis_cli.Base.Int.{ℤ, pos, negsuc, pos_part, sub_ℕ, add_64, from_bits, to_bits, two_64, ◌≤ℤ◌}
use ocis_cli.Base.Seq.{get_elem?, sum}
use ocis_cli.Transfer.Pool.{Task, total_bytes}

to_bits-from_bits : (b : ℕ) → b < two_64 → to_bits (from_bits b) ≡ b
to_bits-from_bits b l = ground arith

-- The counter of all bytes after the counter of one task is replaced.
pub add-delta :
    (a b old now : ℕ)
    → b + old ≡ a + now
    → add_64 (from_bits (a % two_64)) (sub_ℕ now old) ≡ from_bits (b % two_64)
add-delta a b old now e = ap from_bits (
    ap (λ n. (n + to_bits (sub_ℕ now old)) % two_64) (to_bits-from_bits (a % two_64) (omega arith))
    ∙ shifted)
  where
    shifted : (a % two_64 + to_bits (sub_ℕ now old)) % two_64 ≡ b % two_64
    shifted = ground arith

abbrev pub size_of : Task → ℕ
size_of t = pos_part t.size

add-size :
    (a : ℕ) (z : ℤ)
    → pos 0 ≤ℤ z
    → add_64 (from_bits (a % two_64)) z ≡ from_bits ((a + pos_part z) % two_64)
add-size a (negsuc n) h = absurd (omega (arith, h))
add-size a (pos n) h =
    ap from_bits
      (ap (λ m. (m + n % two_64) % two_64) (to_bits-from_bits (a % two_64) (omega arith)) ∙ shifted)
  where
    shifted : (a % two_64 + n % two_64) % two_64 ≡ (a + n) % two_64
    shifted = omega arith

pub total_bytes-sum :
    (ts : List Task) (a : ℕ)
    → All (λ t. pos 0 ≤ℤ t.size) ts
    → total_bytes ts (from_bits (a % two_64)) ≡ from_bits ((a + sum (map size_of ts)) % two_64)
unfolding total_bytes
total_bytes-sum [] a h = ap (λ n. from_bits (n % two_64)) (omega arith)
total_bytes-sum (t ∷ ts) a h =
    ap (total_bytes ts) (add-size a t.size h.0)
    ∙ total_bytes-sum ts (a + size_of t) h.1
    ∙ ap (λ n. from_bits (n % two_64)) (omega arith)

pub reported_all :
    (ts : List Task) (ns : List ℕ)
    → length ns ≡ length ts
    → ((i : ℕ) (t : Task) → get_elem? ts i ≡ some t → get_elem? ns i ≡ some (size_of t))
    → ns ≡ map size_of ts
unfolding get_elem?
reported_all [] [] l h = refl
reported_all [] (n ∷ ns) l h = absurd (omega (arith, l))
reported_all (t ∷ ts) [] l h = absurd (omega (arith, l))
reported_all (t ∷ ts) (n ∷ ns) l h =
    let first : some n ≡ some (size_of t) = h 0 t refl in
    let rest : ns ≡ map size_of ts =
      reported_all ts ns (omega (arith, l)) (λ i u e. h (suc i) u e) in
    cc (first, rest)

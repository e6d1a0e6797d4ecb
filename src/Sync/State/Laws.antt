-- ===== src/Sync/State/Laws.antt =====
-- internal/sync/model.go: what `unionPaths` and `NewState` hold.
use ocis_cli.Base.{String, ◌||◌, List, [], ◌∷◌, ◌++◌, none, some, map}
use ocis_cli.Base.{
  ◌≡◌, refl, ◌∙◌, arith, str_eq, str_eq_iff, str_eq_refl, if◌then◌else◌, count_if, Bool-cases, inl,
  inr,
}
use ocis_cli.Base.Map.{Map, lookup, keys, has, contains, contains-append, contains-keys, SameMap}
use ocis_cli.Base.Sets.{contains-sorted_set, sorted_set-eq, count_if-sorted_set}
use ocis_cli.Sync.Entry.{Snapshot}
use ocis_cli.Sync.State.{Binding, union_paths, new_state, record_at, entry_or_zero}

contains-keys-append :
    {V W : Type 0} (s : Map V) (t : Map W) (k : String)
    → contains k (keys s ++ keys t) ≡ (has k s || has k t)
contains-keys-append s t k =
    contains-append k (keys s) (keys t) ∙ ground (arith, contains-keys k s, contains-keys k t)

pub contains-union_paths :
    (s t : Snapshot) (k : String) → contains k (union_paths s t) ≡ (has k s || has k t)
unfolding union_paths
contains-union_paths s t k = contains-sorted_set k (keys s ++ keys t) ∙ contains-keys-append s t k

pub count_if-union_paths :
    (s t : Snapshot) (k : String)
    → count_if (str_eq k) (union_paths s t) ≡ (if has k s || has k t then 1 else 0)
unfolding union_paths
count_if-union_paths s t k =
    ground (arith, count_if-sorted_set k (keys s ++ keys t), contains-keys-append s t k)

pub union_paths-same :
    (s s' t t' : Snapshot) → SameMap s s' → SameMap t t' → union_paths s t ≡ union_paths s' t'
unfolding union_paths
union_paths-same s s' t t' p q =
    sorted_set-eq (keys s ++ keys t) (keys s' ++ keys t')
      λ k. ground (arith, contains-keys-append s t k, contains-keys-append s' t' k, p k, q k)

lookup-record_at :
    (s t : Snapshot) (k : String) (xs : List String)
    → lookup k (map (record_at s t) xs) ≡ (
        if contains k xs
        then some (record {
          source = entry_or_zero (lookup k s);
          destination = entry_or_zero (lookup k t);
        })
        else none)
unfolding record_at
lookup-record_at s t k [] = refl
lookup-record_at s t k (x ∷ xs) = elim (Bool-cases (str_eq k x)) [
  | inl e ↦ let same = (str_eq_iff k x).0 e in rw same (rw (str_eq_refl x))
  | inr e ↦ rw e (lookup-record_at s t k xs)
]

-- The saved state holds a record for exactly the paths of the two trees, with the entries that
-- the trees hold there, and Go's zero entry for a side that lacks the path.
pub lookup-new_state :
    (binding : Binding) (s t : Snapshot) (k : String)
    → lookup k (new_state binding s t).entries ≡ (
        if has k s || has k t
        then some (record {
          source = entry_or_zero (lookup k s);
          destination = entry_or_zero (lookup k t);
        })
        else none)
unfolding new_state
lookup-new_state binding s t k =
    rw (← contains-union_paths s t k) (lookup-record_at s t k (union_paths s t))

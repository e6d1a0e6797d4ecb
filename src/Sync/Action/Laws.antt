-- ===== src/Sync/Action/Laws.antt =====
-- internal/sync/model.go: the order of `sortActions` is a strict weak order, and the counters count.
use ocis_cli.Base.{ℕ, ◌+◌, ◌<◌, String, Bool, true, false, List, [], ◌∷◌, ◌==◌, if◌then◌else◌}
use ocis_cli.Base.{
  ltb, str_lt_asymm, count_if, ◌≡◌, refl, arith, All, All-mono, ◌⊎◌, inl, inr, Bool-cases,
}
use ocis_cli.Base.{not, str_lt, length, suc}
use ocis_cli.GoPath.{split_slash}
use ocis_cli.GoPath.Laws.{length-split_slash_cons}
use ocis_cli.Base.Sort.{IsSorted, sort_stable-IsSorted, sort_stable-count_if, sort_stable-All}
use ocis_cli.Base.Sets.{not_above}
use ocis_cli.Sync.Action.{
  ActionKind, conflict, delete, create_directory, transfer, move, copy, skip, Action, Plan,
  action_rank, path_depth, action_less, same_rank_less, sort_actions, tally, tally_all, is_conflict,
  is_transfer, is_move, is_copy, is_delete,
}

rank-delete : (k : ActionKind) → (action_rank k == 1) ≡ is_delete k
unfolding action_rank
rank-delete conflict = refl
rank-delete _ = refl

same_rank_asymm :
    (d : Bool) (m n : ℕ) (p q : String)
    → same_rank_less d m n p q ≡ true
    → same_rank_less d n m q p ≡ false
unfolding same_rank_less
same_rank_asymm d m n p q h = ground (arith, str_lt_asymm p q)

same_rank_weak :
    (d : Bool) (m n o : ℕ) (p q r : String)
    → same_rank_less d n m q p ≡ false
    → same_rank_less d o n r q ≡ false
    → same_rank_less d o m r p ≡ false
unfolding same_rank_less
same_rank_weak true m n o p q r h k = ground (arith, not_above p q r)
same_rank_weak false m n o p q r h k = ground (arith, not_above p q r)

weak :
    (i j k : ℕ) (d e f : Bool)
    → (i == 1) ≡ d
    → (j == 1) ≡ e
    → (k == 1) ≡ f
    → (m n o : ℕ) (p q r : String)
    → (if not (j == i) then ltb j i else same_rank_less e n m q p) ≡ false
    → (if not (k == j) then ltb k j else same_rank_less f o n r q) ≡ false
    → (if not (k == i) then ltb k i else same_rank_less f o m r p) ≡ false
weak i j k d e f u v w m n o p q r x y = ground (arith, same_rank_weak f m n o p q r)

pub action_less_asymm : (a b : Action) → action_less a b ≡ true → action_less b a ≡ false
unfolding action_less
action_less_asymm a b h = ground (
  arith,
  rank-delete a.action,
  rank-delete b.action,
  same_rank_asymm (is_delete a.action) (path_depth a.path) (path_depth b.path) a.path b.path,
)

pub action_less_weak :
    (a b c : Action) → action_less b a ≡ false → action_less c b ≡ false → action_less c a ≡ false
unfolding action_less
action_less_weak a b c h k =
    weak (action_rank a.action) (action_rank b.action) (action_rank c.action) (is_delete a.action)
      (is_delete b.action) (is_delete c.action) (rank-delete a.action) (rank-delete b.action)
      (rank-delete c.action) (path_depth a.path) (path_depth b.path) (path_depth c.path) a.path
      b.path c.path h k

-- No action of a sorted list belongs before an earlier one.
pub sort_actions-IsSorted : (xs : List Action) → IsSorted action_less (sort_actions xs)
unfolding sort_actions
sort_actions-IsSorted xs = sort_stable-IsSorted action_less action_less_asymm action_less_weak xs

pub sort_actions-count_if :
    (p : Action → Bool) (xs : List Action) → count_if p (sort_actions xs) ≡ count_if p xs
unfolding sort_actions
sort_actions-count_if p xs = sort_stable-count_if action_less p xs

pub sort_actions-All {κ} :
    (P : Action → Type κ) (xs : List Action) → All P xs → All P (sort_actions xs)
unfolding sort_actions
sort_actions-All P xs h = sort_stable-All action_less P xs h

-- A plan whose counters start at some values, after the loop that counts.
abbrev pub Counts : Plan → List Action → Plan → Type 0
Counts before xs after =
    (after.actions ≡ before.actions)
    × (after.direction ≡ before.direction)
    × (after.conflicts ≡ before.conflicts + count_if (λ a. is_conflict a.action) xs)
    × (after.transfers ≡ before.transfers + count_if (λ a. is_transfer a.action) xs)
    × (after.moves ≡ before.moves + count_if (λ a. is_move a.action) xs)
    × (after.copies ≡ before.copies + count_if (λ a. is_copy a.action) xs)
    × (after.deletions ≡ before.deletions + count_if (λ a. is_delete a.action) xs)

pub tally_all-Counts : (xs : List Action) (plan : Plan) → Counts plan xs (tally_all xs plan)
unfolding tally_all
tally_all-Counts [] plan = ground arith
tally_all-Counts (a ∷ rest) plan = ground (arith, tally_all-Counts rest (tally a plan))

-- The place of a kind of action in a plan.
abbrev pub place : ActionKind → ℕ
place conflict = 0
place delete = 1
place create_directory = 2
place transfer = 3
place move = 3
place copy = 3
place skip = 4

action_rank-place : (k : ActionKind) → action_rank k ≡ place k
unfolding action_rank
action_rank-place conflict = refl
action_rank-place delete = refl
action_rank-place create_directory = refl
action_rank-place transfer = refl
action_rank-place move = refl
action_rank-place copy = refl
action_rank-place skip = refl

-- The names between the slashes of a path.
abbrev pub depth : String → ℕ
depth p = length (split_slash p)

depth-path_depth : (p : String) → depth p ≡ suc (path_depth p)
unfolding path_depth split_slash
depth-path_depth String.[] = refl
depth-path_depth (String.◌∷◌ c s) = omega (arith, length-split_slash_cons c s, depth-path_depth s)

-- An action may stand before another: its place is in front, or of two with the same place its path
-- has more names, for deletions, or fewer, for others, or as many and is not the greater text.
abbrev pub MayPrecede : Action → Action → Type 0
MayPrecede a b =
    (place a.action < place b.action)
    ⊎ ((place a.action ≡ place b.action)
        × ((if is_delete a.action then depth b.path < depth a.path else depth a.path < depth b.path)
            ⊎ ((depth a.path ≡ depth b.path) × (str_lt b.path a.path ≡ false))))

abbrev pub InOrder : List Action → Type 0
InOrder [] = Unit
InOrder (a ∷ rest) = All (MayPrecede a) rest × InOrder rest

same_rank_cases :
    (d : Bool) (m n : ℕ) (p q : String)
    → same_rank_less d n m q p ≡ false
    → (if d then n < m else m < n) ⊎ ((m ≡ n) × (str_lt q p ≡ false))
unfolding same_rank_less
same_rank_cases d m n p q h = elim (Bool-cases (m == n)) [
  | inl e ↦ inr (ground arith, ground arith)
  | inr e ↦ inl (deeper d (ground arith) e)
]
  where
    deeper :
        (d : Bool)
        → (if d then ltb m n else ltb n m) ≡ false
        → (m == n) ≡ false
        → (if d then n < m else m < n)
    deeper true k e = ground arith
    deeper false k e = ground arith

deeper_cases :
    (d : Bool) (a b : Action)
    → (if d then path_depth b.path < path_depth a.path else path_depth a.path < path_depth b.path)
      ⊎ ((path_depth a.path ≡ path_depth b.path) × (str_lt b.path a.path ≡ false))
    → (if d then depth b.path < depth a.path else depth a.path < depth b.path)
      ⊎ ((depth a.path ≡ depth b.path) × (str_lt b.path a.path ≡ false))
deeper_cases true a b (inl l) =
    inl (omega (arith, l, depth-path_depth a.path, depth-path_depth b.path))
deeper_cases false a b (inl l) =
    inl (omega (arith, l, depth-path_depth a.path, depth-path_depth b.path))
deeper_cases d a b (inr (e, t)) =
    inr (omega (arith, e, depth-path_depth a.path, depth-path_depth b.path), t)

may_precede : (a b : Action) → action_less b a ≡ false → MayPrecede a b
unfolding action_less
may_precede a b h = elim (Bool-cases (ltb (action_rank a.action) (action_rank b.action))) [
  | inl e ↦ inl (ground (arith, e, action_rank-place a.action, action_rank-place b.action))
  | inr e ↦
      let same : action_rank a.action ≡ action_rank b.action =
        ground (arith, rank-delete a.action, rank-delete b.action) in
      let d : is_delete b.action ≡ is_delete a.action =
        ground (arith, rank-delete a.action, rank-delete b.action) in
      inr (
        omega (arith, same, action_rank-place a.action, action_rank-place b.action),
        deeper_cases (is_delete a.action) a b (
            same_rank_cases (is_delete a.action) (path_depth a.path) (path_depth b.path) a.path
              b.path (ground (arith, same, d, h))),
      )
]

InOrder-of_sorted : (xs : List Action) → IsSorted action_less xs → InOrder xs
InOrder-of_sorted [] s = tt
InOrder-of_sorted (a ∷ rest) s = (
  All-mono (λ b. action_less b a ≡ false) (MayPrecede a) rest (may_precede a) s.0,
  InOrder-of_sorted rest s.1,
)

pub sort_actions-InOrder : (xs : List Action) → InOrder (sort_actions xs)
sort_actions-InOrder xs = InOrder-of_sorted (sort_actions xs) (sort_actions-IsSorted xs)

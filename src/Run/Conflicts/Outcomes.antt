-- ===== src/Run/Conflicts/Outcomes.antt =====
-- internal/app/sync/conflict.go: what becomes of an action of a plan with conflicts.
use mathlib.Core.List.{append_assoc}
use ocis_cli.Base.{String, true, false, List, [], ◌∷◌, ◌++◌}
use ocis_cli.Base.{if◌then◌else◌, str_eq, ◌≡◌, refl, ap, sym, ◌∙◌, All}
use ocis_cli.Base.Map.{has}
use ocis_cli.Sync.Entry.{Entry, Snapshot}
use ocis_cli.Sync.Action.{Action, Side, local, remote, copy, transfer, is_conflict}
use ocis_cli.Run.Conflicts.{Printer, Resolution, keep_both}

-- A list has some actions one behind the other.
abbrev pub Holds : List Action → List Action → Type 0
Holds block xs =
    (before : List Action) × ((after : List Action) × (xs ≡ before ++ (block ++ after)))

Holds-front : (block more xs : List Action) → Holds block xs → Holds block (more ++ xs)
Holds-front block more xs (before, (after, e)) =
    (more ++ before, (after, rw e (sym (append_assoc more before (block ++ after)))))

Holds-back : (block xs more : List Action) → Holds block xs → Holds block (xs ++ more)
Holds-back block xs more (before, (after, e)) = (
  before,
  (
    after ++ more,
    rw e (
        append_assoc before (block ++ after) more
        ∙ ap (λ t. before ++ t) (append_assoc block after more)),
  ),
)

-- The version that loses, and its side.
abbrev pub losing_side : Resolution → Side
losing_side request = if str_eq request.prefer "local" then remote else local

abbrev pub winning_side : Resolution → Side
winning_side request = if str_eq request.prefer "local" then local else remote

abbrev pub losing_entry : Resolution → Action → Entry
losing_entry request a = if str_eq request.prefer "local" then a.destination else a.source

abbrev pub winning_entry : Resolution → Action → Entry
winning_entry request a = if str_eq request.prefer "local" then a.source else a.destination

module _ (l r : Snapshot) where
  -- The losing version is copied on its side to a path that neither tree has, this copy is sent to
  -- the winning side, and the winning version replaces the losing one.
  pub record IsPreserved (losing winning : Side) (lost won : Entry)
      (a copied shared replaced : Action) : Type 0 where
    pub copies : (copied.action ≡ copy) × (copied.from_path ≡ a.path)
    pub copies_loser : (copied.target ≡ losing) × (copied.source ≡ lost)
    pub fresh : (has copied.path l ≡ false) × (has copied.path r ≡ false)
    pub shares :
        (shared.action ≡ transfer) × (shared.from_path ≡ copied.path) × (shared.path ≡ copied.path)
    pub shares_loser : (shared.target ≡ winning) × (shared.source ≡ lost)
    pub replaces :
        (replaced.action ≡ transfer) × (replaced.path ≡ a.path) × (replaced.from_path ≡ "")
    pub replaces_loser :
        (replaced.target ≡ losing) × (replaced.source ≡ won) × (replaced.destination ≡ lost)

  -- What `keep_both` gives.
  abbrev pub Preserves : Side → Side → Entry → Entry → Action → List Action → Type 0
  Preserves losing winning lost won a xs =
      (copied : Action) × ((shared : Action) × ((replaced : Action) × (xs
            ≡ copied ∷ shared ∷ replaced ∷ [])
          × IsPreserved losing winning lost won a copied shared replaced))

  pub keep_both-Preserves :
      (H : Printer) (losing winning : Side) (path : String) (a : Action) (lost won : Entry)
      → has path l ≡ false
      → has path r ≡ false
      → Preserves losing winning lost won a (keep_both H losing winning path a lost won)
  unfolding keep_both
  keep_both-Preserves H losing winning path a lost won h k = (
    _,
    (
      _,
      (
        _,
        refl,
        record {
          copies = (refl, refl);
          copies_loser = (refl, refl);
          fresh = (h, k);
          shares = (refl, refl, refl);
          shares_loser = (refl, refl);
          replaces = (refl, refl, refl);
          replaces_loser = (refl, refl, refl);
        },
      ),
    ),
  )

module _ (l r : Snapshot) (request : Resolution) where
  -- An action stays in the plan that results, or it is a conflict and its losing version is kept.
  pub data Outcome (a : Action) (xs : List Action) : Type 0 where
    stays : is_conflict a.action ≡ false → Holds (a ∷ []) xs → Outcome a xs
    preserved :
        (copied shared replaced : Action)
        → is_conflict a.action ≡ true
        → IsPreserved l r
            (losing_side request)
            (winning_side request)
            (losing_entry request a)
            (winning_entry request a)
            a
            copied
            shared
            replaced
        → Holds (copied ∷ shared ∷ replaced ∷ []) xs
        → Outcome a xs

  pub Outcome-front : (a : Action) (more xs : List Action) → Outcome a xs → Outcome a (more ++ xs)
  Outcome-front a more xs (stays c h) = stays c (Holds-front (a ∷ []) more xs h)
  Outcome-front a more xs (preserved x y z c p h) =
      preserved x y z c p (Holds-front (x ∷ y ∷ z ∷ []) more xs h)

  pub Outcome-back : (a : Action) (xs more : List Action) → Outcome a xs → Outcome a (xs ++ more)
  Outcome-back a xs more (stays c h) = stays c (Holds-back (a ∷ []) xs more h)
  Outcome-back a xs more (preserved x y z c p h) =
      preserved x y z c p (Holds-back (x ∷ y ∷ z ∷ []) xs more h)

  -- What the resolution of one action gives.
  abbrev pub Resolved : Action → List Action → Type 0
  Resolved a xs = All (λ (b : Action). is_conflict b.action ≡ false) xs × Outcome a xs

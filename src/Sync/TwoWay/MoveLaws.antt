-- ===== src/Sync/TwoWay/MoveLaws.antt =====
-- internal/sync/bidirectional.go: what the detection of renames does to a list of actions.
use mathlib.Core.Option.{some-injective}
use ocis_cli.Base.{ℕ, zero, suc, String, true, false, List, [], ◌∷◌}
use ocis_cli.Base.{some, ◌≡◌, refl, arith, ◌⊎◌}
use ocis_cli.Base.{map}
use ocis_cli.Base.Map.{Map, lookup, has}
use ocis_cli.Sync.Platform.{Platform}
use ocis_cli.Sync.Entry.{Snapshot, Record}
use ocis_cli.Sync.Action.{Action, move, skip, is_delete, is_move, Side, no_side}
use ocis_cli.Sync.TwoWay.Subtrees.{side_snapshot, is_blocked}
use ocis_cli.Sync.TwoWay.PathLaws.{TargetKept, target_exists}
use ocis_cli.Sync.TwoWay.Moves.{action_at, update_at, is_removed, is_added}

module _ (P : Platform) (l r : Snapshot) (saved : Map Record) where
  -- The entry of a side under a path equals the one that the baseline holds, if there is one.
  abbrev pub PathKept : Side → String → Type 0
  PathKept target p = TargetKept P target (lookup p l) (lookup p r) (lookup p saved)

  -- What holds of every action of a plan, from protection to the end.
  pub record IsSafe (a : Action) : Type 0 where
    pub kept : PathKept a.target a.path
    pub kept_from : (is_move a.action ≡ false) ⊎ PathKept a.target a.from_path
    pub replaces :
        (a.replace ≡ false) ⊎ (target_exists P a.target (lookup a.path l) (lookup a.path r) ≡ true)
    pub deletes : (is_delete a.action ≡ false) ⊎ (a.replace ≡ false)
    pub protected : is_blocked P l r saved a ≡ false

  module _ (target : Side) where
    abbrev pub current : Snapshot
    current = side_snapshot target l r

    -- What a pass can make of an action.
    pub data Becomes (o : Action) : Action → Type 0 where
      same : Becomes o o
      moved :
          {c : Action}
          → is_added target o ≡ true
          → has o.path current ≡ false
          → c.path ≡ o.path
          → c.target ≡ o.target
          → c.replace ≡ o.replace
          → c.action ≡ move
          → PathKept target c.from_path
          → Becomes o c
      taken :
          {c : Action}
          → is_removed target saved o ≡ true
          → c.path ≡ o.path
          → c.target ≡ no_side
          → c.replace ≡ o.replace
          → c.action ≡ skip
          → Becomes o c

    abbrev pub AllBecome : List Action → List Action → Type 0
    AllBecome [] [] = Unit
    AllBecome (o ∷ os) (c ∷ cs) = Becomes o c × AllBecome os cs
    AllBecome _ _ = ⊥

    pub AllBecome-refl : (os : List Action) → AllBecome os os
    AllBecome-refl [] = tt
    AllBecome-refl (o ∷ os) = (same, AllBecome-refl os)

    pub Becomes-path : {o c : Action} → Becomes o c → c.path ≡ o.path
    Becomes-path same = refl
    Becomes-path (moved _ _ p _ _ _ _) = p
    Becomes-path (taken _ p _ _ _) = p

    pub AllBecome-paths :
        (os cs : List Action)
        → AllBecome os cs
        → map (λ (a : Action). a.path) cs ≡ map (λ (a : Action). a.path) os
    AllBecome-paths [] [] h = refl
    AllBecome-paths (o ∷ os) (c ∷ cs) h = cc (Becomes-path h.0, AllBecome-paths os cs h.1)
    AllBecome-paths [] (c ∷ cs) h = absurd h
    AllBecome-paths (o ∷ os) [] h = absurd h

    -- The action at an index, before and after.
    pub AllBecome-at :
        (i : ℕ) (os cs : List Action) {o c : Action}
        → AllBecome os cs
        → action_at i os ≡ some o
        → action_at i cs ≡ some c
        → Becomes o c
    AllBecome-at i [] [] h p q = absurd (ground arith)
    AllBecome-at zero (o ∷ os) (c ∷ cs) h p q =
        rw (← some-injective _ _ p, ← some-injective _ _ q) h.0
    AllBecome-at (suc i) (o ∷ os) (c ∷ cs) h p q = AllBecome-at i os cs h.1 p q
    AllBecome-at i [] (c ∷ cs) h p q = absurd h
    AllBecome-at i (o ∷ os) [] h p q = absurd h

    pub AllBecome-update :
        (i : ℕ) (f : Action → Action) (os cs : List Action) {o : Action}
        → AllBecome os cs
        → action_at i os ≡ some o
        → ((c : Action) → action_at i cs ≡ some c → Becomes o (f c))
        → AllBecome os (update_at i f cs)
    AllBecome-update i f [] [] h p g = tt
    AllBecome-update zero f (o ∷ os) (c ∷ cs) h p g = (rw (some-injective _ _ p) (g c refl), h.1)
    AllBecome-update (suc i) f (o ∷ os) (c ∷ cs) h p g = (h.0, AllBecome-update i f os cs h.1 p g)
    AllBecome-update i f [] (c ∷ cs) h p g = absurd h
    AllBecome-update i f (o ∷ os) [] h p g = absurd h

-- ===== src/Sync/TwoWay/SubtreeLaws.antt =====
-- internal/sync/bidirectional.go: a directory is not removed or replaced over changes below it.
use ocis_cli.Base.{String, Bool, true, false, ◌&&◌, List, [], ◌∷◌, none, some}
use ocis_cli.Base.{
  ◌≡◌, refl, ◌∙◌, arith, inl, inr, ◌⊎◌, Bool-cases, str_eq, str_eq_iff, any, keep, map, All,
}
use ocis_cli.Base.Map.{Map, lookup, contains}
use ocis_cli.Base.Sets.{contains-sort_stable}
use ocis_cli.Sync.Platform.{Platform}
use ocis_cli.Sync.Entry.{Snapshot, Record}
use ocis_cli.Sync.State.{State}
use ocis_cli.Sync.Action.{Action, skip, is_conflict, is_skip, no_side}
use ocis_cli.Sync.TwoWay.Subtrees.{
  is_blocked, block, shield, conflict_parents, protect_changed_subtrees, find_first, is_descendant,
  shallower,
}
use ocis_cli.Sync.TwoWay.PathLaws.{PlannedWell}

module _ (P : Platform) (l r : Snapshot) (saved : Map Record) where
  abbrev pub PlannedAt : Action → Type 0
  PlannedAt a = PlannedWell P a.path (lookup a.path l) (lookup a.path r) (lookup a.path saved) a

  -- What protection adds: no destructive directory action is left whose target changed below it.
  abbrev pub IsProtected : Action → Type 0
  IsProtected a = PlannedAt a × (is_blocked P l r saved a ≡ false)

  block-IsProtected : (a : Action) → PlannedAt a → IsProtected (block P l r saved a)
  unfolding block
  block-IsProtected a h = ground arith

  shield-cases :
      (parents : List String) (a : Action)
      → (shield parents a ≡ a)
        ⊎ (((shield parents a).action ≡ skip)
            × ((shield parents a).path ≡ a.path)
            × ((shield parents a).target ≡ no_side)
            × ((shield parents a).replace ≡ false)
            × ((shield parents a).destination ≡ a.destination))
  unfolding shield
  shield-cases parents a = ground arith

  skipped-IsProtected :
      (a : Action) → a.action ≡ skip → a.target ≡ no_side → a.replace ≡ false → IsProtected a
  unfolding is_blocked
  skipped-IsProtected a k t c = ground arith

  shield-IsProtected :
      (parents : List String) (a : Action) → IsProtected a → IsProtected (shield parents a)
  shield-IsProtected parents a h = elim (shield-cases parents a) [
    | inl e ↦ rw e h
    | inr (k, p, t, c, d) ↦ skipped-IsProtected (shield parents a) k t c
  ]

  -- Every action that protection returns keeps what was planned well, and none removes or replaces
  -- a directory below which the target side has changed.
  IsProtected-All :
      (parents : List String) (actions : List Action)
      → All PlannedAt actions
      → All IsProtected (map (shield parents) (map (block P l r saved) actions))
  IsProtected-All parents [] h = tt
  IsProtected-All parents (a ∷ rest) h = (
    shield-IsProtected parents (block P l r saved a) (block-IsProtected a h.0),
    IsProtected-All parents rest h.1,
  )

  block-path : (a : Action) → (block P l r saved a).path ≡ a.path
  unfolding block
  block-path a = ground arith

  shield-path : (parents : List String) (a : Action) → (shield parents a).path ≡ a.path
  unfolding shield
  shield-path parents a = ground arith

  protected-paths :
      (parents : List String) (actions : List Action)
      → map (λ (a : Action). a.path) (map (shield parents) (map (block P l r saved) actions))
        ≡ map (λ (a : Action). a.path) actions
  protected-paths parents [] = refl
  protected-paths parents (a ∷ rest) =
      ground (
        arith,
        shield-path parents (block P l r saved a),
        block-path a,
        protected-paths parents rest,
      )

  find_first-none :
      (test : String → Bool) (parents : List String) (p : String)
      → find_first test parents ≡ none
      → any (str_eq p) parents ≡ true
      → test p ≡ false
  unfolding find_first
  find_first-none test [] p h m = cc
  find_first-none test (x ∷ xs) p h m = elim (Bool-cases (str_eq p x)) [
    | inl e ↦ let same = (str_eq_iff p x).0 e in ground arith
    | inr e ↦ ground (arith, find_first-none test xs p)
  ]

  -- Below a conflict parent there are conflicts and skipped actions only.
  shield_below :
      (parents : List String) (p : String) (a : Action)
      → contains p parents ≡ true
      → is_descendant a.path p ≡ true
      → (is_conflict (shield parents a).action ≡ true) ⊎ (is_skip (shield parents a).action ≡ true)
  unfolding shield
  shield_below parents p a m d = ground (arith, find_first-none (is_descendant a.path) parents p)

  contains-blocked :
      (actions : List Action) (p : String)
      → contains p (map (λ (a : Action). a.path) (keep (is_blocked P l r saved) actions))
        ≡ any (λ (a : Action). is_blocked P l r saved a && str_eq p a.path) actions
  contains-blocked [] p = refl
  contains-blocked (a ∷ rest) p = ground (arith, contains-blocked rest p)

  -- The directories that protection turns into conflicts are the conflict parents.
  contains-conflict_parents :
      (actions : List Action) (p : String)
      → contains p (conflict_parents P l r saved actions)
        ≡ any (λ (a : Action). is_blocked P l r saved a && str_eq p a.path) actions
  unfolding conflict_parents
  contains-conflict_parents actions p =
      contains-sort_stable shallower p
        (map (λ (a : Action). a.path) (keep (is_blocked P l r saved) actions))
      ∙ contains-blocked actions p

  shield-All_below :
      (parents : List String) (p : String) (actions : List Action)
      → contains p parents ≡ true
      → All
          (λ c.
            (is_descendant c.path p ≡ false)
            ⊎ (is_conflict c.action ≡ true)
            ⊎ (is_skip c.action ≡ true))
          (map (shield parents) actions)
  shield-All_below parents p [] m = tt
  shield-All_below parents p (a ∷ rest) m = (
    elim (Bool-cases (is_descendant a.path p)) [
      | inl d ↦ inr (shield_below parents p a m d)
      | inr d ↦ inl (rw (shield-path parents a) d)
    ],
    shield-All_below parents p rest m,
  )

module _ (P : Platform) (l r : Snapshot) (previous : State) (actions : List Action) where
  -- Where an action that removes or replaces a directory is turned into a conflict, because the
  -- target side has changed below the directory, all that stands below it becomes a conflict or
  -- is skipped.
  pub protect_below :
      (p : String)
      → any (λ (a : Action). is_blocked P l r previous.entries a && str_eq p a.path) actions ≡ true
      → All
          (λ c.
            (is_descendant c.path p ≡ false)
            ⊎ (is_conflict c.action ≡ true)
            ⊎ (is_skip c.action ≡ true))
          (protect_changed_subtrees P actions l r (some previous))
  unfolding protect_changed_subtrees
  protect_below p h =
      shield-All_below P l r previous.entries (conflict_parents P l r previous.entries actions) p
        (map (block P l r previous.entries) actions)
        (contains-conflict_parents P l r previous.entries actions p ∙ h)

  pub protect-All :
      All (PlannedAt P l r previous.entries) actions
      → All
          (IsProtected P l r previous.entries)
          (protect_changed_subtrees P actions l r (some previous))
  unfolding protect_changed_subtrees
  protect-All h =
      IsProtected-All P l r previous.entries (conflict_parents P l r previous.entries actions)
        actions h

  pub protect-paths :
      map (λ (a : Action). a.path) (protect_changed_subtrees P actions l r (some previous))
      ≡ map (λ (a : Action). a.path) actions
  unfolding protect_changed_subtrees
  protect-paths =
      protected-paths P l r previous.entries (conflict_parents P l r previous.entries actions)
        actions

-- ===== src/Transfer/Gather/Laws.antt =====
-- internal/transfer/transfer.go: a download stays inside its destination.
use ocis_cli.Sync.TwoWay.Subtrees.{after_prefix}
use ocis_cli.Base.{
  String, ◌<>◌, is_some, false, ◌||◌, List, [], ◌∷◌, ◌++◌, Option, none, some, ◌≡◌, refl, arith,
}
use ocis_cli.Base.{All, All-append, str_eq, if◌then◌else◌}
use ocis_cli.Base.Result.{Result, ok, err}
use ocis_cli.Run.Names.{has_separator}
use ocis_cli.Run.Session.Kept.{if-ends}
use ocis_cli.Transfer.Pool.{Task}
use ocis_cli.Transfer.Gather.{
  FilePath, RemoteEntry, GatherError, escapes, Directory, not_listed, listed, Children, no_children,
  more_children, Gathered, made, placed, gathered, task_of, safe_local_child, collect_downloads,
  collect_children,
}

-- A name of one component that is neither the directory itself nor its parent.
pub record IsPlain (name : String) : Type 0 where
  pub nonempty : str_eq name "" ≡ false
  pub not_self : str_eq name "." ≡ false
  pub not_parent : str_eq name ".." ≡ false
  pub one_component : has_separator name ≡ false

-- The root, and what plain names lead to below it.
pub data Inside (F : FilePath) (root : String) : String → Type 0 where
  here : Inside F root root
  below :
      {directory : String} (name : String)
      → Inside F root directory
      → IsPlain name
      → Inside F root (F.join (F.clean directory) name)

-- A file's name, if there is one, is inside.
unfoldable IsNamed :
    {Error : Type 0} → FilePath → String → Result (GatherError Error) String → Type 0
IsNamed F root (err e) = Unit
IsNamed F root (ok name) = Inside F root name

module _ (Error : Type 0) (F : FilePath) (root : String) where
  safe_local_child-IsNamed :
      (directory name : String)
      → Inside F root directory
      → IsNamed {Error = Error} F root (safe_local_child F directory name)
  unfolding safe_local_child IsNamed
  safe_local_child-IsNamed directory name i =
      if-ends (IsNamed F root)
        (str_eq name ""
          || str_eq name "."
          || str_eq name ".."
          || F.is_absolute name
          || has_separator name)
        (λ _. tt)
        (λ n.
          let plain : IsPlain name = record {
            nonempty = ground (arith, n);
            not_self = ground (arith, n);
            not_parent = ground (arith, n);
            one_component = ground (arith, n);
          } in
          within (F.relative (F.clean directory) (F.join (F.clean directory) name))
            (below name i plain))
    where
      within :
          (o : Option String)
          → Inside F root (F.join (F.clean directory) name)
          → IsNamed F root (elim o as (λ _. Result (GatherError Error) String) [
            | none ↦ err (escapes name)
            | some r ↦
                if str_eq r ".." || is_some (after_prefix (".." <> F.separator) r)
                then err (escapes name)
                else ok (F.join (F.clean directory) name)
          ])
      within none c = tt
      within (some r) c =
          if-ends (IsNamed {Error = Error} F root)
            (str_eq r ".." || is_some (after_prefix (".." <> F.separator) r)) (λ _. tt) (λ _. c)

IsNamed-ok :
    {Error : Type 0} (F : FilePath) (root : String) (r : Result (GatherError Error) String)
    {name : String}
    → IsNamed F root r
    → r ≡ ok name
    → Inside F root name
unfolding IsNamed
IsNamed-ok F root r n e = rw e at n

-- What holds of the world and of the tasks so far.
unfoldable HoldsIn :
    {Error World : Type 0} → (World × List Task → Type 0) → Gathered Error World → Type 0
HoldsIn G o = G o.0

module _ {Error World : Type 0} (G : World × List Task → Type 0) where
  made-holds :
      (o : World × Result Error (Unit {0})) (tasks : List Task)
      (next : World → Gathered Error World)
      → G (o.0, tasks)
      → (G (o.0, tasks) → HoldsIn G (next o.0))
      → HoldsIn G (made o tasks next)
  unfolding made HoldsIn
  made-holds (w, err e) tasks next g k = g
  made-holds (w, ok _) tasks next g k = k g

  placed-holds :
      (r : Result (GatherError Error) String) (s : World × List Task)
      (next : String → Gathered Error World)
      → G s
      → ((name : String) → r ≡ ok name → HoldsIn G (next name))
      → HoldsIn G (placed r s next)
  unfolding placed HoldsIn
  placed-holds (err e) s next g k = g
  placed-holds (ok name) s next g k = k name refl

  gathered-holds :
      (o : Gathered Error World) (next : World × List Task → Gathered Error World)
      → HoldsIn G o
      → ((s : World × List Task) → G s → HoldsIn G (next s))
      → HoldsIn G (gathered o next)
  unfolding gathered HoldsIn
  gathered-holds (s, err e) next g k = g
  gathered-holds (s, ok _) next g k = k s g

module _ {Error World : Type 0} (F : FilePath)
    (make : String → World → World × Result Error (Unit {0})) (root : String) (Q : World → Type 0)
    (makes_keep : (directory : String) (w : World)
      → Inside F root directory
      → Q w
      → Q (make directory w).0) where
  -- The world is kept, and every task writes inside the root.
  abbrev IsGood : World × List Task → Type 0
  IsGood s = Q s.0 × All (λ t. Inside F root t.destination) s.1

  file-IsGood :
      (child : RemoteEntry) (name : String) (s : World × List Task)
      → Inside F root name
      → IsGood s
      → IsGood (s.0, s.1 ++ (task_of child name ∷ []))
  file-IsGood child name s i g =
      (g.0, All-append (λ t. Inside F root t.destination) s.1 (task_of child name ∷ []) g.1 (i, tt))

  child-holds :
      (child : RemoteEntry) (local : String) (s : World × List Task)
      (descend : String → World × List Task → Gathered Error World)
      (rest : World × List Task → Gathered Error World)
      → Inside F root local
      → IsGood s
      → ((name : String) → Inside F root name → HoldsIn IsGood (descend name s))
      → ((s₁ : World × List Task) → IsGood s₁ → HoldsIn IsGood (rest s₁))
      → HoldsIn IsGood (
          placed (safe_local_child F local child.name) s (λ name.
            if str_eq child.type "directory"
            then gathered (descend name s) rest
            else rest (s.0, s.1 ++ (task_of child name ∷ []))))
  child-holds child local s descend rest i g d k =
      placed-holds IsGood (safe_local_child F local child.name) s _ g (λ name e.
        let inside =
          IsNamed-ok F root (safe_local_child F local child.name)
            (safe_local_child-IsNamed Error F root local child.name i) e in
        if-ends (HoldsIn IsGood) (str_eq child.type "directory")
          (λ _. gathered-holds IsGood _ _ (d name inside) k)
          (λ _. k _ (file-IsGood child name s inside g)))

  mutual
    unfolding collect_downloads HoldsIn

    downloads-holds :
        (directory : Directory Error) (local : String) (s : World × List Task)
        → Inside F root local
        → IsGood s
        → HoldsIn IsGood (collect_downloads F make directory local s)
    downloads-holds (not_listed e) local (w, tasks) i g =
        made-holds IsGood (make local w) tasks _ (makes_keep local w i g.0, g.1) (λ h. h)
    downloads-holds (listed children) local (w, tasks) i g =
        made-holds IsGood (make local w) tasks _ (makes_keep local w i g.0, g.1)
          (λ h. children-holds children local ((make local w).0, tasks) i h)

    children-holds :
        (children : Children Error) (local : String) (s : World × List Task)
        → Inside F root local
        → IsGood s
        → HoldsIn IsGood (collect_children F make children local s)
    children-holds no_children local s i g = g
    children-holds (more_children child directory later) local s i g =
        child-holds child local s (collect_downloads F make directory)
          (collect_children F make later local) i g
          (λ name inside. downloads-holds directory name s inside g)
          (λ s₁ g₁. children-holds later local s₁ i g₁)

  -- A download stays inside its destination, whatever names the server sends: each directory that
  -- it makes, and the destination of each of its tasks, is the destination itself or below it, where
  -- every step down is by a name of one component that is not "." or "..". What making such
  -- directories keeps of the world is kept, also if the listing fails in the middle.
  pub collect_downloads-Inside :
      (directory : Directory Error) (w : World)
      → Q w
      → Q (collect_downloads F make directory root (w, [])).0.0
        × All
            (λ t. Inside F root t.destination)
            (collect_downloads F make directory root (w, [])).0.1
  unfolding HoldsIn
  collect_downloads-Inside directory w q = downloads-holds directory root (w, []) here (q, tt)

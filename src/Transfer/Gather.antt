-- ===== src/Transfer/Gather.antt =====
-- internal/transfer/transfer.go: the tasks of a download, `DownloadWithOptions`, `directoryDestination`,
-- `collectDownloads` and `SafeLocalChild`.
pub mod Laws
use ocis_cli.Base.{
  String, ◌<>◌, Bool, true, false, not, ◌&&◌, ◌||◌, List, [], ◌∷◌, ◌++◌, Option, none, some,
  is_some, if◌then◌else◌, str_eq,
}
use ocis_cli.Base.Int.{ℤ}
use ocis_cli.Base.Result.{Result, ok, err}
use ocis_cli.Sync.TwoWay.Subtrees.{after_prefix}
use ocis_cli.Run.Names.{has_separator}
use ocis_cli.Transfer.Pool.{Task}

-- `path/filepath`.
pub record FilePath : Type 0 where
  pub clean : String → String
  pub join : String → String → String
  pub relative : String → String → Option String
  pub is_absolute : String → Bool
  pub base : String → String
  pub separator : String

pub record RemoteEntry : Type 0 where
  pub name : String
  pub path : String
  pub type : String
  pub size : ℤ

-- Why the tasks cannot be gathered.
pub data GatherError (Error : Type 0) : Type 0 where
  unsafe_name escapes : String → GatherError Error
  call_failed : Error → GatherError Error

abbrev pub task_of : RemoteEntry → String → Task
task_of entry destination = record {
  source = entry.path;
  destination = destination;
  size = entry.size;
}

-- What `client.List` answers for a directory, with the answers for the directories in it.
mutual
  pub data Directory (Error : Type 0) : Type 0 where
    not_listed : Error → Directory Error
    listed : Children Error → Directory Error

  pub data Children (Error : Type 0) : Type 0 where
    no_children : Children Error
    more_children : RemoteEntry → Directory Error → Children Error → Children Error

-- What `os.Stat` answers.
pub data Found (Error : Type 0) : Type 0 where
  not_there : Found Error
  stat_failed : Error → Found Error
  is_there : Bool → Found Error

-- The world and the tasks so far, and the error if there is one.
abbrev pub Gathered : Type 0 → Type 0 → Type 0
Gathered Error World = (World × List Task) × Result (GatherError Error) (Unit {0})

module _ {Error World : Type 0} where
  -- `if err := …; err != nil { return err }` behind `os.MkdirAll`, a check and a call.
  unfoldable pub made :
      World × Result Error (Unit {0})
      → List Task
      → (World → Gathered Error World)
      → Gathered Error World
  made (w, err e) tasks next = ((w, tasks), err (call_failed e))
  made (w, ok _) tasks next = next w

  unfoldable pub placed :
      Result (GatherError Error) String
      → World × List Task
      → (String → Gathered Error World)
      → Gathered Error World
  placed (err e) s next = (s, err e)
  placed (ok name) s next = next name

  unfoldable pub gathered :
      Gathered Error World → (World × List Task → Gathered Error World) → Gathered Error World
  gathered (s, err e) next = (s, err e)
  gathered (s, ok _) next = next s

module _ {Error : Type 0} (F : FilePath) where
  unfoldable pub safe_local_child : String → String → Result (GatherError Error) String
  safe_local_child root name =
      if str_eq name ""
        || str_eq name "."
        || str_eq name ".."
        || F.is_absolute name
        || has_separator name
      then err (unsafe_name name)
      else let child = F.join (F.clean root) name in
        elim (F.relative (F.clean root) child) [
          | none ↦ err (escapes name)
          | some within ↦
              if str_eq within ".." || is_some (after_prefix (".." <> F.separator) within)
              then err (escapes name)
              else ok child
        ]

  unfoldable pub directory_destination :
      Found Error → String → RemoteEntry → Result (GatherError Error) String
  unfolding safe_local_child
  directory_destination not_there local remote = ok local
  directory_destination (stat_failed e) local remote = err (call_failed e)
  directory_destination (is_there is_directory) local remote =
      if not is_directory || str_eq remote.name "" || str_eq (F.base (F.clean local)) remote.name
      then ok local
      else safe_local_child local remote.name

  -- `os.MkdirAll` can change the world.
  module _ {World : Type 0} (make : String → World → World × Result Error (Unit {0})) where
    -- `collectDownloads`, and its loop over the children.
    unfoldable mutual
      unfolding safe_local_child

      pub collect_downloads : Directory Error → String → World × List Task → Gathered Error World
      collect_downloads (not_listed e) local (w, tasks) =
          made (make local w) tasks (λ w₁. ((w₁, tasks), err (call_failed e)))
      collect_downloads (listed children) local (w, tasks) =
          let rounds = collect_children children local in
          made (make local w) tasks (λ w₁. rounds (w₁, tasks))

      pub collect_children : Children Error → String → World × List Task → Gathered Error World
      collect_children no_children local s = (s, ok tt)
      collect_children (more_children child directory later) local s =
          let descend = collect_downloads directory in
          let rest = collect_children later local in
          placed (safe_local_child local child.name) s (λ name.
            if str_eq child.type "directory"
            then gathered (descend name s) rest
            else rest (s.0, s.1 ++ (task_of child name ∷ [])))

    -- `DownloadWithOptions` up to the call of `runTasks`: what `client.Stat` and `os.Stat` answer is
    -- given.
    unfoldable pub gather_download :
        RemoteEntry → Directory Error → Found Error → String → World → Gathered Error World
    unfolding directory_destination collect_downloads
    gather_download meta directory found local w =
        if not (str_eq meta.type "directory")
        then ((w, task_of meta local ∷ []), ok tt)
        else placed (directory_destination found local meta) (w, [])
            (λ name. collect_downloads directory name (w, []))

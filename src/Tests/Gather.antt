-- ===== src/Tests/Gather.antt =====
-- A download of a directory whose server sends a name that leaves it.
use ocis_cli.Base.{String, ◌<>◌, false, List, [], ◌∷◌, some, ◌≡◌, refl, str_eq}
use ocis_cli.Base.{All}
use ocis_cli.Base.Int.{pos}
use ocis_cli.Base.Result.{Result, ok, err}
use ocis_cli.Sync.TwoWay.Subtrees.{after_prefix}
use ocis_cli.Run.Names.{has_separator}
use ocis_cli.Transfer.Gather.{
  FilePath, RemoteEntry, unsafe_name, Directory, listed, no_children, more_children,
  collect_downloads, task_of, safe_local_child, made, placed, gathered,
}
use ocis_cli.Transfer.Gather.Laws.{Inside, collect_downloads-Inside}

abbrev paths : FilePath
paths = record {
  clean = λ s. s;
  join = λ a b. a <> "/" <> b;
  relative = λ a b. some "child";
  is_absolute = λ s. false;
  base = λ s. s;
  separator = "/";
}

-- The world is the list of the directories made.
abbrev make : String → List String → List String × Result String (Unit {0})
make directory w = (directory ∷ w, ok tt)

abbrev entry : String → String → RemoteEntry
entry name type = record { name = name; path = "/notes"; type = type; size = pos 3 }

abbrev tree : Directory String
tree = listed (
    more_children (entry "sub" "directory")
      (listed (more_children (entry "a" "file") (listed no_children) no_children))
      (more_children (entry ".." "directory") (listed no_children) no_children))

collect_downloads-Inside_example :
    All (Inside paths "/home/ada") (collect_downloads paths make tree "/home/ada" ([], [])).0.0
    × All
        (λ t. Inside paths "/home/ada" t.destination)
        (collect_downloads paths make tree "/home/ada" ([], [])).0.1
collect_downloads-Inside_example =
    collect_downloads-Inside paths make "/home/ada" (All (Inside paths "/home/ada"))
      (λ directory w i q. (i, q)) tree [] tt

collected_lem : collect_downloads paths make tree "/home/ada" ([], []) ≡ (
  (("/home/ada/sub" ∷ "/home/ada" ∷ []), task_of (entry "a" "file") "/home/ada/sub/a" ∷ []),
  err (unsafe_name ".."),
)
unfolding collect_downloads safe_local_child made placed gathered has_separator str_eq after_prefix
collected_lem = refl

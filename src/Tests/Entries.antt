-- ===== src/Tests/Entries.antt =====
-- Entries, patterns, path identities and saved states.
use ocis_cli.Base.{◌+◌, ◌≤◌, String, true, false, List, [], ◌∷◌, ◌++◌, ◌≡◌, refl, ◌⊎◌, ◌↔◌}
use ocis_cli.Base.{arith, any, str_eq, str_lt}
use ocis_cli.Base.Int.{two_63}
use ocis_cli.Base.Result.{ok, err}
use ocis_cli.Base.Map.{has, keys, contains}
use ocis_cli.Base.Sets.{sorted_set, set_of, sort_strings}
use ocis_cli.Base.Sort.{sort_stable}
use ocis_cli.GoPath.{ancestors, base, dir, join_slash, split_slash}
use ocis_cli.Sync.Errors.{unsafe_path_identity}
use ocis_cli.Sync.Entry.{Entry, Snapshot, equal}
use ocis_cli.Sync.Entry.Time.{timestamps_equivalent, two_seconds}
use ocis_cli.Sync.Entry.Laws.{AreNear, timestamps_equivalent_iff}
use ocis_cli.Sync.Pattern.{
  contains_slash, is_blank, filter_snapshot, validate_patterns, keeps, selected, selected_by,
  excluded, matches_any, matches, normalize_patterns, sorted_unique,
}
use ocis_cli.Sync.Pattern.Laws.{filter_iff, IsSelected}
use ocis_cli.Sync.Pattern.Normal.{filter-normalized}
use ocis_cli.Sync.Identity.{validate_path_identity, check_identities, spellings}
use ocis_cli.Sync.Identity.Laws.{validate_path_identity_lem, AreConfused}
use ocis_cli.Tests.Samples.{file, directory, plain, source_tree}

timestamps_equivalent_iff_example :
    (timestamps_equivalent plain "0001-01-01T00:00:00Z" "2024-01-01T00:00:00Z" ≡ true) ↔ (
      ((1000 ≤ 63808000000000001000 + two_seconds) × (63808000000000001000 ≤ 1000 + two_seconds))
      ⊎ (1000 + two_63 ≤ 63808000000000001000))
unfolding str_eq
timestamps_equivalent_iff_example =
    timestamps_equivalent_iff plain "0001-01-01T00:00:00Z" "2024-01-01T00:00:00Z" refl refl refl
      refl refl

abbrev dated : String → Entry
dated time = record (file "a" "") { modified = time }

dated-AreNear : AreNear plain "2024-01-01T00:00:00Z" "2024-01-01T00:00:00Z"
unfolding str_eq
dated-AreNear t u p q = ground (arith, p, q)

same_checksum : equal plain (file "a" "1") (file "b" "1") ≡ true
unfolding equal str_eq
same_checksum = refl

docs_ancestors : ancestors "docs/notes" ≡ "docs/notes" ∷ "docs" ∷ "." ∷ []
unfolding ancestors dir split_slash join_slash str_eq
docs_ancestors = refl

abbrev kept_tree : Snapshot
kept_tree = ("", directory "") ∷ ("kept", file "kept" "k2") ∷ []

filtered_kept : filter_snapshot plain source_tree ("kept" ∷ []) ("both" ∷ []) ≡ ok kept_tree
unfolding filter_snapshot validate_patterns keeps selected is_blank selected_by excluded matches_any
    matches ancestors dir split_slash join_slash str_eq contains_slash base
filtered_kept = refl

filter_iff_example : (has "kept" kept_tree ≡ true) ↔ (
    (has "kept" source_tree ≡ true)
    × IsSelected plain source_tree ("kept" ∷ []) "kept"
    × (any (λ a. matches_any plain a ("both" ∷ [])) (ancestors "kept") ≡ false))
filter_iff_example = filter_iff plain source_tree ("kept" ∷ []) ("both" ∷ []) "kept" filtered_kept

abbrev repeated : List String
repeated = "b" ∷ "a" ∷ []

abbrev ordered : List String
ordered = "a" ∷ "b" ∷ "a" ∷ []

repeated-same : (k : String) → contains k repeated ≡ contains k ordered
repeated-same k = ground arith

normalized : normalize_patterns plain ordered [] ≡ ok ("a" ∷ "b" ∷ [], [])
unfolding normalize_patterns validate_patterns sorted_unique sort_strings sort_stable str_eq str_lt
    is_blank
normalized = refl

filter-normalized_example :
    filter_snapshot plain source_tree ("a" ∷ "b" ∷ []) []
    ≡ filter_snapshot plain source_tree ordered []
filter-normalized_example = filter-normalized plain source_tree ordered [] normalized

abbrev upper : Snapshot
upper = ("A", file "A" "1") ∷ []

abbrev lower : Snapshot
lower = ("a", file "a" "1") ∷ []

confused : validate_path_identity plain upper lower ≡ err (unsafe_path_identity "A" "a")
unfolding validate_path_identity sorted_set set_of sort_strings sort_stable str_eq str_lt
    check_identities spellings
confused = refl

validate_path_identity_lem_example :
    ((validate_path_identity plain upper lower ≡ ok tt)
      × ((p q : String)
          → contains p (keys upper ++ keys lower) ≡ true
          → contains q (keys upper ++ keys lower) ≡ true
          → plain.identity_form p ≡ plain.identity_form q
          → p ≡ q))
    ⊎ ((first : String) × (second : String) × (validate_path_identity plain upper lower
          ≡ err (unsafe_path_identity first second))
        × AreConfused plain (keys upper ++ keys lower) first second)
validate_path_identity_lem_example = validate_path_identity_lem plain upper lower

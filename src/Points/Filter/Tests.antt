-- ===== src/Points/Filter/Tests.antt =====
-- The lookup rows and the filters on concrete paths.
use ydb_qdrant.Prelude.{[], ◌∷◌, ◌≡◌, refl, some}
use ydb_qdrant.Text.{codes, includes, join}
use ydb_qdrant.Json.{arr, obj, str, value, no_value, prop, no_prop}
use ydb_qdrant.Points.Paths.{expand_path_prefixes}
use ydb_qdrant.Points.Filter.{extract_must, prefix_matches, parse_path_segments_filter_to_paths}
use ydb_qdrant.Points.Filter.Lookup.{expand_path_prefixes-prefix_matches}

expanded : expand_path_prefixes (codes "src/a.ts") ≡ codes "src" ∷ codes "src/a.ts" ∷ []
unfolding expand_path_prefixes join
expanded = refl

parsed :
    parse_path_segments_filter_to_paths (
      some (
        obj (
          prop
            (codes "must")
            (arr (
              value
                (obj (
                  prop (codes "key") (str (codes "pathSegments.1")) (
                    prop
                      (codes "match")
                      (obj (prop (codes "value") (str (codes "a.ts")) no_prop))
                      no_prop)))
                (value
                  (obj (
                    prop (codes "key") (str (codes "pathSegments.0")) (
                      prop
                        (codes "match")
                        (obj (prop (codes "value") (str (codes "src")) no_prop))
                        no_prop)))
                  no_value)))
            no_prop)))
    ≡ some ((codes "src" ∷ codes "a.ts" ∷ []) ∷ [])
unfolding parse_path_segments_filter_to_paths extract_must
parsed = refl

expand_path_prefixes-prefix_matches_example :
    includes (codes "src") (expand_path_prefixes (codes "src/a.ts"))
    ≡ prefix_matches (codes "src/a.ts") (codes "src")
expand_path_prefixes-prefix_matches_example =
    expand_path_prefixes-prefix_matches (codes "src/a.ts") (codes "src") refl

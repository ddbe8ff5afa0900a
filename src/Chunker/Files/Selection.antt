-- ===== src/Chunker/Files/Selection.antt =====
-- Which files are indexed.
use ydb_qdrant.Prelude.{
  ℕ, ◌≤◌, Bool, true, false, not, ◌&&◌, ◌||◌, ◌≡◌, ◌↔◌, ◌⊎◌, refl, arith, Option, none, some,
  get_or, is_some, if◌then◌else◌,
}
use ydb_qdrant.Text.{Text, includes}
use ydb_qdrant.Chunker.{ChunkingOptions, default_max_file_bytes}
use ydb_qdrant.Chunker.Paths.{
  extension_of, filename_of, contains_excluded_directory, excluded_filenames, binary_extensions,
}
use ydb_qdrant.Chunker.Files.{matches_any_path_pattern, is_too_large, should_index_file}

-- The size is not known or is within the limit.
abbrev pub HasPlace : Option ℕ → ℕ → Type 0
HasPlace none limit = Unit
HasPlace (some size) limit = size ≤ limit

HasPlace-iff :
    (size : Option ℕ) (limit : ℕ) → (is_too_large size limit ≡ false) ↔ HasPlace size limit
HasPlace-iff none limit = (λ h. tt, λ h. refl)
HasPlace-iff (some size) limit = ground arith

-- The early returns on their tests: `x` for the exclude patterns, `d` and `f` for the directories and
-- file names, `e` for an explicit include, `b` for a binary file, `i` for include patterns, `l` for size.
passes : (x d f e b i l : Bool) → Bool
passes x d f e b i l =
    if x
    then false
    else if (d || f) && not e
    then false
    else if b
    then false
    else if i && not e
    then false
    else if l
    then false
    else true

passes_iff :
    (x d f e b i l : Bool)
    → (passes x d f e b i l ≡ true) ↔ (
        (x ≡ false)
        × (b ≡ false)
        × (l ≡ false)
        × ((e ≡ true) ⊎ ((i ≡ false) × (d ≡ false) × (f ≡ false))))
unfolding passes
passes_iff x d f true b i l = ground arith
passes_iff x d f false b i l = ground arith

module _ (to_lower : Text → Text) (path : Text) (size : Option ℕ) (options : ChunkingOptions) where
  -- A file is indexed exactly if no exclude pattern matches it, its extension is not that of a
  -- binary file, its size is unknown or within the limit, and either an include pattern matches it,
  -- or there are no include patterns and neither its folders nor its name are excluded.
  pub should_index_file_iff : (should_index_file to_lower path size options ≡ true) ↔ (
      (matches_any_path_pattern to_lower path options.exclude_patterns ≡ false)
      × (includes (extension_of to_lower path) binary_extensions ≡ false)
      × HasPlace size (get_or options.max_file_bytes default_max_file_bytes)
      × ((matches_any_path_pattern to_lower path options.include_patterns ≡ true)
          ⊎ ((is_some options.include_patterns ≡ false)
              × (contains_excluded_directory to_lower path ≡ false)
              × (includes (filename_of to_lower path) excluded_filenames ≡ false))))
  unfolding should_index_file passes
  should_index_file_iff =
      let (a, b) = HasPlace-iff size (get_or options.max_file_bytes default_max_file_bytes) in
      let (p, q) =
        passes_iff (matches_any_path_pattern to_lower path options.exclude_patterns)
          (contains_excluded_directory to_lower path)
          (includes (filename_of to_lower path) excluded_filenames)
          (matches_any_path_pattern to_lower path options.include_patterns)
          (includes (extension_of to_lower path) binary_extensions)
          (is_some options.include_patterns)
          (is_too_large size (get_or options.max_file_bytes default_max_file_bytes)) in
      (λ h. let (x, y, z, w) = p h in (x, y, a z, w), λ (x, y, z, w). q (x, y, b z, w))

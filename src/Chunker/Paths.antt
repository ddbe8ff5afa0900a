-- ===== src/Chunker/Paths.antt =====
-- The names of files in src/code-indexer/chunker.ts and naming.ts: extensions, languages, segments.
use ydb_qdrant.Prelude.{
  ℕ, List, [], ◌∷◌, Bool, not, ◌||◌, ◌==◌, Option, none, some, if◌then◌else◌, filter, any,
}
use ydb_qdrant.Text.{Text, codes, text_eq, is_empty, starts_with, split_on, includes}

abbrev pub slash : ℕ
slash = b'/'

-- `parts.at(-1)`, of a list that is never empty.
abbrev pub last : Text → List Text → Text
last p [] = p
last p (q ∷ qs) = last q qs

abbrev last_of : List Text → Text → Text
last_of [] path = path
last_of (p ∷ ps) path = last p ps

unfoldable pub basename : Text → Text
basename path = last_of (split_on slash path) path

-- `s.slice(s.lastIndexOf(c))` when `c` occurs
unfoldable pub from_last : ℕ → Text → Option Text
from_last c [] = none
from_last c (x ∷ xs) = elim (from_last c xs) [
  | some rest ↦ some rest
  | none ↦ if x == c then some (x ∷ xs) else none
]

-- `Record<string, string>`, with `none` for a missing key.
abbrev pub lookup : Text → List (Text × Text) → Option Text
lookup k [] = none
lookup k ((l, v) ∷ t) = let rest = lookup k t in if text_eq k l then some v else rest

abbrev excluded_directories : List Text
excluded_directories =
    codes ".git"
    ∷ codes ".next"
    ∷ codes ".turbo"
    ∷ codes "build"
    ∷ codes "coverage"
    ∷ codes "dist"
    ∷ codes "node_modules"
    ∷ codes "target"
    ∷ codes "vendor"
    ∷ []

abbrev pub excluded_filenames : List Text
excluded_filenames =
    codes "package-lock.json"
    ∷ codes "pnpm-lock.yaml"
    ∷ codes "yarn.lock"
    ∷ codes "bun.lockb"
    ∷ codes "composer.lock"
    ∷ codes "poetry.lock"
    ∷ codes "cargo.lock"
    ∷ []

abbrev pub binary_extensions : List Text
binary_extensions =
    codes ".7z"
    ∷ codes ".avi"
    ∷ codes ".bmp"
    ∷ codes ".class"
    ∷ codes ".dll"
    ∷ codes ".dylib"
    ∷ codes ".exe"
    ∷ codes ".gif"
    ∷ codes ".gz"
    ∷ codes ".ico"
    ∷ codes ".jar"
    ∷ codes ".jpeg"
    ∷ codes ".jpg"
    ∷ codes ".mov"
    ∷ codes ".mp3"
    ∷ codes ".mp4"
    ∷ codes ".pdf"
    ∷ codes ".png"
    ∷ codes ".so"
    ∷ codes ".tar"
    ∷ codes ".wasm"
    ∷ codes ".webp"
    ∷ codes ".zip"
    ∷ []

abbrev language_by_extension : List (Text × Text)
language_by_extension =
    (codes ".c", codes "C")
    ∷ (codes ".cc", codes "C++")
    ∷ (codes ".cpp", codes "C++")
    ∷ (codes ".cs", codes "C#")
    ∷ (codes ".css", codes "CSS")
    ∷ (codes ".go", codes "Go")
    ∷ (codes ".graphql", codes "GraphQL")
    ∷ (codes ".h", codes "C/C++")
    ∷ (codes ".hpp", codes "C++")
    ∷ (codes ".html", codes "HTML")
    ∷ (codes ".java", codes "Java")
    ∷ (codes ".js", codes "JavaScript")
    ∷ (codes ".json", codes "JSON")
    ∷ (codes ".jsx", codes "JavaScript")
    ∷ (codes ".kt", codes "Kotlin")
    ∷ (codes ".md", codes "Markdown")
    ∷ (codes ".mdx", codes "MDX")
    ∷ (codes ".mjs", codes "JavaScript")
    ∷ (codes ".mts", codes "TypeScript")
    ∷ (codes ".py", codes "Python")
    ∷ (codes ".rb", codes "Ruby")
    ∷ (codes ".rs", codes "Rust")
    ∷ (codes ".rst", codes "reStructuredText")
    ∷ (codes ".sh", codes "Shell")
    ∷ (codes ".sql", codes "SQL")
    ∷ (codes ".swift", codes "Swift")
    ∷ (codes ".toml", codes "TOML")
    ∷ (codes ".ts", codes "TypeScript")
    ∷ (codes ".tsx", codes "TypeScript")
    ∷ (codes ".txt", codes "Text")
    ∷ (codes ".yaml", codes "YAML")
    ∷ (codes ".yml", codes "YAML")
    ∷ (codes ".adoc", codes "AsciiDoc")
    ∷ (codes ".asciidoc", codes "AsciiDoc")
    ∷ []

-- Named `pathSegmentsForPath` in naming.ts.
unfoldable pub path_segments_for_path : Text → List Text
path_segments_for_path path = filter (λ segment. not (is_empty segment)) (split_on slash path)

module _ (to_lower : Text → Text) where
  unfoldable pub extension_of : Text → Text
  extension_of path = elim (from_last b'.' (basename path)) [
    | some rest ↦ to_lower rest
    | none ↦ []
  ]

  unfoldable pub filename_of : Text → Text
  filename_of path = to_lower (basename path)

  unfoldable pub contains_excluded_directory : Text → Bool
  contains_excluded_directory path =
      any (λ segment. includes (to_lower segment) excluded_directories) (split_on slash path)

  unfoldable pub language_for_path : Text → Option Text
  language_for_path path =
      let filename = filename_of path in
      if text_eq filename (codes "dockerfile") || starts_with (codes "dockerfile.") filename
      then some (codes "Dockerfile")
      else lookup (extension_of path) language_by_extension

-- ===== src/Chunker/Syntax.antt =====
-- TreeSitterChunker of src/code-indexer/chunker.ts: a source file is cut at its top-level declarations.
-- The parsers of tree-sitter and their nodes are a parameter, and so is the UTF-8 coding of a buffer.
use ydb_qdrant.Prelude.{
  ℕ, ◌+◌, ◌-◌, List, [], ◌∷◌, ◌++◌, Bool, not, ltb, Option, none, some, get_or, if◌then◌else◌,
  length, take, drop, map,
}
use ydb_qdrant.Prelude.Options.{cat_some}
use ydb_qdrant.Text.{Text, codes, text_eq, trim, is_empty, includes}
use ydb_qdrant.Chunker.{ChunkingOptions, CodeChunk, normalized_max_chunk_chars}
use ydb_qdrant.Chunker.Grammars.{Language, chunk_kind_for_type}
use ydb_qdrant.Chunker.Paths.{path_segments_for_path}
use ydb_qdrant.Chunker.Windows.{chunk_file_with_line_windows}

-- What the code calls of the packages, and of `Buffer`. A parser that throws returns `none`.
pub record TreeSitter : Type 1 where
  pub Node : Type 0
  pub parse : Language → Text → Option Node
  pub has_error : Node → Bool
  pub type_of : Node → Text
  pub named_children : Node → List Node
  pub child_for_field_name : Text → Node → Option Node
  pub node_text : Node → Text
  pub start_index : Node → ℕ
  pub end_index : Node → ℕ
  pub start_row : Node → ℕ
  pub end_row : Node → ℕ
  pub utf8_bytes : Text → List ℕ
  pub utf8_text : List ℕ → Text

abbrev skipped_types : List Text
skipped_types =
    codes "decorator" ∷ codes "export_clause" ∷ codes "namespace_export" ∷ codes "string" ∷ []

abbrev identifier_types : List Text
identifier_types =
    codes "field_identifier"
    ∷ codes "identifier"
    ∷ codes "package_identifier"
    ∷ codes "property_identifier"
    ∷ codes "type_identifier"
    ∷ []

-- `list.find(p) ?? null`
abbrev pub find {ℓ} : {A : Type ℓ} → (A → Bool) → List A → Option A
find p [] = none
find p (x ∷ xs) = let rest = find p xs in if p x then some x else rest

-- `o ?? p` on two values that may be null.
abbrev pub or_else {ℓ} : {A : Type ℓ} → Option A → Option A → Option A
or_else none p = p
or_else (some a) p = some a

abbrev first_some {ℓ} : {A : Type ℓ} → List (Option A) → Option A
first_some [] = none
first_some (none ∷ os) = first_some os
first_some (some a ∷ os) = some a

-- `o?.f`
abbrev map_some {ℓ} : {A B : Type ℓ} → (A → B) → Option A → Option B
map_some f none = none
map_some f (some a) = some (f a)

module _ (ts : TreeSitter) where
  unfoldable pub first_semantic_child : ts.Node → Option ts.Node
  first_semantic_child node =
      find (λ child. not (includes (ts.type_of child) skipped_types)) (ts.named_children node)

  -- The names and the types of the children, in order.
  abbrev named_fields : List ts.Node → List (Option ts.Node)
  named_fields [] = []
  named_fields (child ∷ rest) =
      ts.child_for_field_name (codes "name") child
      ∷ ts.child_for_field_name (codes "type") child
      ∷ named_fields rest

  unfoldable pub symbol_name_for_node : ts.Node → Option Text
  symbol_name_for_node node = map_some ts.node_text (
      or_else (ts.child_for_field_name (codes "name") node) (
        or_else (ts.child_for_field_name (codes "type") node) (
          or_else (first_some (named_fields (ts.named_children node))) (
            find (λ child. includes (ts.type_of child) identifier_types)
              (ts.named_children node)))))

  -- A child of the root that is cut out: its kind, the node, and the name of its symbol.
  pub record SemanticNode : Type 0 where
    pub node_kind : Text
    pub node : ts.Node
    pub node_symbol : Option Text

  unfoldable pub semantic_node_for_top_level_child : List Text → ts.Node → Option SemanticNode
  semantic_node_for_top_level_child types child =
      let wrapped =
        if text_eq (ts.type_of child) (codes "export_statement")
        then first_semantic_child child
        else none in
      let symbol_node = get_or wrapped child in
      if includes (ts.type_of child) types
      then some (record {
        node_kind = chunk_kind_for_type (ts.type_of symbol_node);
        node = child;
        node_symbol = symbol_name_for_node symbol_node;
      })
      else none

  unfoldable pub collect_semantic_nodes : List Text → ts.Node → List SemanticNode
  collect_semantic_nodes types root =
      cat_some (map (semantic_node_for_top_level_child types) (ts.named_children root))

  unfoldable pub slice_by_utf8_bytes : Text → ℕ → ℕ → Text
  slice_by_utf8_bytes content start_byte end_byte =
      ts.utf8_text (take (end_byte - start_byte) (drop start_byte (ts.utf8_bytes content)))

  module _ (to_lower : Text → Text) (options : ChunkingOptions) (path content : Text) where
    unfoldable pub chunk_semantic_node : Text → SemanticNode → List CodeChunk
    chunk_semantic_node language semantic =
        let text = trim (
          slice_by_utf8_bytes content (ts.start_index semantic.node)
            (ts.end_index semantic.node)) in
        let first = ts.start_row semantic.node + 1 in
        if is_empty text
        then []
        else if ltb (normalized_max_chunk_chars options) (length text)
        then chunk_file_with_line_windows to_lower
            (record {
              label_chunker = some (codes "tree-sitter");
              label_kind = some semantic.node_kind;
              label_symbol = semantic.node_symbol;
            })
            path options text first
        else (record {
          chunker = some (codes "tree-sitter");
          chunk_index = 0;
          chunk_kind = some semantic.node_kind;
          end_line = ts.end_row semantic.node + 1;
          language = some language;
          path = path;
          path_segments = path_segments_for_path path;
          start_line = first;
          symbol_name = semantic.node_symbol;
          symbol_path = semantic.node_symbol;
          text = text;
        })
          ∷ []

    -- `semanticNodes.flatMap(...)`
    unfoldable pub chunk_semantic_nodes : Text → List SemanticNode → List CodeChunk
    chunk_semantic_nodes language [] = []
    chunk_semantic_nodes language (semantic ∷ rest) =
        chunk_semantic_node language semantic ++ chunk_semantic_nodes language rest

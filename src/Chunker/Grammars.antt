-- ===== src/Chunker/Grammars.antt =====
-- The languages that TreeSitterChunker of src/code-indexer/chunker.ts registers, the types of their
-- top-level nodes, and the kinds of chunk that it names them by.
use Prim.Native.String.{String}
use ydb_qdrant.Prelude.{List, [], ◌∷◌, Bool, ◌||◌, Option, none, some, if◌then◌else◌}
use ydb_qdrant.Text.{Text, codes, text_eq, is_empty, starts_with, includes}

-- The parsers that are loaded.
pub data Language : Type 0 where
  javascript typescript tsx python go rust : Language

pub record LanguageRegistration : Type 0 where
  pub grammar : Language
  pub language_name : Text
  pub top_level_types : List Text

abbrev typescript_types : List Text
typescript_types =
    codes "abstract_class_declaration"
    ∷ codes "class_declaration"
    ∷ codes "enum_declaration"
    ∷ codes "export_statement"
    ∷ codes "function_declaration"
    ∷ codes "generator_function_declaration"
    ∷ codes "import_statement"
    ∷ codes "interface_declaration"
    ∷ codes "lexical_declaration"
    ∷ codes "type_alias_declaration"
    ∷ codes "variable_declaration"
    ∷ []

abbrev javascript_types : List Text
javascript_types =
    codes "class_declaration"
    ∷ codes "export_statement"
    ∷ codes "function_declaration"
    ∷ codes "generator_function_declaration"
    ∷ codes "import_statement"
    ∷ codes "lexical_declaration"
    ∷ codes "variable_declaration"
    ∷ []

abbrev python_types : List Text
python_types =
    codes "class_definition"
    ∷ codes "function_definition"
    ∷ codes "future_import_statement"
    ∷ codes "import_from_statement"
    ∷ codes "import_statement"
    ∷ []

abbrev go_types : List Text
go_types =
    codes "const_declaration"
    ∷ codes "function_declaration"
    ∷ codes "import_declaration"
    ∷ codes "method_declaration"
    ∷ codes "type_declaration"
    ∷ codes "var_declaration"
    ∷ []

abbrev rust_types : List Text
rust_types =
    codes "const_item"
    ∷ codes "enum_item"
    ∷ codes "function_item"
    ∷ codes "impl_item"
    ∷ codes "mod_item"
    ∷ codes "static_item"
    ∷ codes "struct_item"
    ∷ codes "trait_item"
    ∷ codes "type_item"
    ∷ codes "use_declaration"
    ∷ []

abbrev register : Language → String → List Text → Option LanguageRegistration
register grammar name types =
    some (record { grammar = grammar; language_name = codes name; top_level_types = types })

-- `languagesByExtension.get(extension)`
unfoldable pub registration_for : Text → Option LanguageRegistration
registration_for extension =
    if includes extension (codes ".js" ∷ codes ".jsx" ∷ codes ".mjs" ∷ [])
    then register javascript "JavaScript" javascript_types
    else if includes extension (codes ".ts" ∷ codes ".mts" ∷ [])
    then register typescript "TypeScript" typescript_types
    else if text_eq extension (codes ".tsx")
    then register tsx "TypeScript" typescript_types
    else if text_eq extension (codes ".py")
    then register python "Python" python_types
    else if text_eq extension (codes ".go")
    then register go "Go" go_types
    else if text_eq extension (codes ".rs")
    then register rust "Rust" rust_types
    else none

-- `s.includes(p)` on a text.
abbrev pub contains : Text → Text → Bool
contains p [] = is_empty p
contains p (x ∷ xs) = starts_with p (x ∷ xs) || contains p xs

abbrev import_types : List Text
import_types =
    codes "import_declaration"
    ∷ codes "import_from_statement"
    ∷ codes "import_statement"
    ∷ codes "future_import_statement"
    ∷ codes "use_declaration"
    ∷ []

abbrev class_types : List Text
class_types =
    codes "class_declaration" ∷ codes "abstract_class_declaration" ∷ codes "class_definition" ∷ []

abbrev function_types : List Text
function_types =
    codes "function_declaration"
    ∷ codes "function_definition"
    ∷ codes "function_item"
    ∷ codes "generator_function_declaration"
    ∷ []

abbrev declaration_types : List Text
declaration_types =
    codes "const_declaration"
    ∷ codes "const_item"
    ∷ codes "lexical_declaration"
    ∷ codes "static_item"
    ∷ codes "var_declaration"
    ∷ codes "variable_declaration"
    ∷ []

unfoldable pub chunk_kind_for_type : Text → Text
chunk_kind_for_type t =
    if includes t import_types
    then codes "import"
    else if includes t class_types
    then codes "class"
    else if includes t function_types
    then codes "function"
    else if text_eq t (codes "method_declaration")
    then codes "method"
    else if contains (codes "interface") t
    then codes "interface"
    else if contains (codes "trait") t
    then codes "trait"
    else if contains (codes "enum") t
    then codes "enum"
    else if contains (codes "struct") t
    then codes "struct"
    else if contains (codes "impl") t
    then codes "impl"
    else if contains (codes "type") t
    then codes "type"
    else if includes t declaration_types
    then codes "declaration"
    else codes "code"

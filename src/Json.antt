-- ===== src/Json.antt =====
-- Values that `JSON.parse` returns. Numbers are the non-negative integers, the only ones that the
-- modelled code gives a meaning to; an object lists its properties, each name once.
use ydb_qdrant.Prelude.{ℕ, List, [], ◌∷◌, Bool, true, false, Option, none, some, if◌then◌else◌}
use ydb_qdrant.Text.{Text, text_eq}

mutual
  pub data Json : Type 0 where
    null : Json
    bool : Bool → Json
    num : ℕ → Json
    str : Text → Json
    arr : Values → Json
    obj : Props → Json

  -- The properties of an object.
  pub data Props : Type 0 where
    prop : Text → Json → Props → Props
    no_prop : Props

  -- The values of an array.
  pub data Values : Type 0 where
    value : Json → Values → Values
    no_value : Values

abbrev pub values : Values → List Json
values (value v later) = v ∷ values later
values no_value = []

abbrev pub props : Props → List (Text × Json)
props (prop name v later) = (name, v) ∷ props later
props no_prop = []

abbrev pub lookup {ℓ} : {V : Type ℓ} → Text → List (Text × V) → Option V
lookup k [] = none
lookup k ((j, v) ∷ m) = if text_eq j k then some v else lookup k m

-- `value[key]` on an object; undefined on anything else, where the source reads none of the
-- properties that arrays and strings have.
abbrev pub get : Text → Json → Option Json
get k (obj ps) = lookup k (props ps)
get k v = none

-- `typeof value === "object" && value !== null`, which holds of arrays too.
abbrev pub is_record : Json → Bool
is_record (arr vs) = true
is_record (obj ps) = true
is_record v = false

-- A value that may be undefined, read at one of the types that the source tests for.
abbrev pub as_record : Option Json → Option Json
as_record none = none
as_record (some v) = if is_record v then some v else none

abbrev pub as_text : Option Json → Option Text
as_text (some (str s)) = some s
as_text v = none

abbrev pub as_num : Option Json → Option ℕ
as_num (some (num n)) = some n
as_num v = none

abbrev pub as_list : Option Json → Option (List Json)
as_list (some (arr vs)) = some (values vs)
as_list v = none

-- `value === true`
abbrev pub is_true : Option Json → Bool
is_true (some (bool b)) = b
is_true v = false

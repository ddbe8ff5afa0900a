-- ===== src/Webhooks/Payload.antt =====
-- The readers of src/code-indexer/webhooks.ts.
use ydb_qdrant.Prelude.{
  ℕ, List, [], ◌∷◌, Bool, ◌&&◌, ◌||◌, ◌==◌, leb, Option, none, some, get_or, map, all, length,
}
use ydb_qdrant.Prelude.Options.{◌>>=◌, cat_some}
use ydb_qdrant.Text.{Text, codes, split_on}
use ydb_qdrant.Json.{Json, get, as_record, as_text, as_num, as_list}
use ydb_qdrant.Jobs.{RepositoryRef}

-- `/^[a-f0-9]{40}$/i`
unfoldable pub is_sha : Text → Bool
is_sha s =
    length s == 40
    && all
        (λ c.
          (leb b'a' c && leb c b'f') || (leb b'A' c && leb c b'F') || (leb b'0' c && leb c b'9'))
        s

abbrev first : List Text → Option Text
first [] = none
first (s ∷ ss) = some s

abbrev second : List Text → Option Text
second [] = none
second (s ∷ ss) = first ss

abbrev or_text : Option Text → Option Text → Option Text
or_text (some s) o = some s
or_text none o = o

unfoldable pub read_repository : Option Json → Option RepositoryRef
unfolding split_on
read_repository value = do
  repo ← as_record value
  let full_name : List Text = elim (as_text (get (codes "full_name") repo)) [
    | some s ↦ split_on b'/' s
    | none ↦ []
  ]
  let owner : Option Text = elim (as_record (get (codes "owner") repo)) [
    | some o ↦ as_text (get (codes "login") o)
    | none ↦ first full_name
  ]
  let name = or_text (as_text (get (codes "name") repo)) (second full_name)
  id ← as_num (get (codes "id") repo)
  name ← name
  owner ← owner
  some (record {
    owner = owner;
    repo = name;
    repo_id = id;
    default_branch = get_or (as_text (get (codes "default_branch") repo)) (codes "HEAD");
  })

unfoldable pub read_installation_id : Json → Option ℕ
read_installation_id payload = do
  p ← as_record (some payload)
  installation ← as_record (get (codes "installation") p)
  as_num (get (codes "id") installation)

unfoldable pub read_repository_list : Json → Text → List RepositoryRef
unfolding read_repository
read_repository_list payload key = elim (as_list (get key payload)) [
  | none ↦ []
  | some values ↦ cat_some (map (λ v. read_repository (some v)) values)
]

pub record Account : Type 0 where
  pub login : Text
  pub kind : Text

unfoldable pub read_installation_account : Json → Option Account
read_installation_account payload = do
  p ← as_record (some payload)
  installation ← as_record (get (codes "installation") p)
  account ← as_record (get (codes "account") installation)
  login ← as_text (get (codes "login") account)
  kind ← as_text (get (codes "type") account)
  some (record { login = login; kind = kind })

-- `typeof value === "string" ? value : ""`
abbrev pub text_or_empty : Option Json → Text
text_or_empty v = get_or (as_text v) []

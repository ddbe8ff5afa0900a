-- ===== src/Access/Agreement.antt =====
-- The two access checks agree.
use ydb_qdrant.Prelude.{
  List, [], ◌∷◌, Bool, true, false, ◌≡◌, refl, ap, sym, ◌∙◌, inl, inr, ◌↔◌, arith, some, any,
  is_some, ok, Option-cases,
}
use ydb_qdrant.Text.{Text}
use ydb_qdrant.Access.{
  AccessStore, AccessContext, RepositoryRecord, InstallationRecord, find, grants, is_deleted,
  require_installation_access, require_repository_access,
}

any-find : {A : Type 0} (p : A → Bool) (xs : List A) → any p xs ≡ is_some (find p xs)
any-find p [] = refl
any-find p (x ∷ xs) = ground (arith, any-find p xs)

-- A repository is given to a user exactly if the store has it, it is not deleted, and the user is
-- given the installation that it belongs to: the two checks never disagree about an installation.
pub require_repository_access-require_installation_access :
    (context : AccessContext) (store : AccessStore) (repo_id : Text) (repository : RepositoryRecord)
    → (require_repository_access context repo_id store ≡ ok repository) ↔ (
        (store.get_repository repo_id ≡ some repository)
        × (is_deleted repository.status ≡ false)
        × ((installation : InstallationRecord) × (require_installation_access context
                repository.installation_id store
              ≡ ok installation)))
unfolding require_repository_access require_installation_access
require_repository_access-require_installation_access context store repo_id repository =
    let installations : List InstallationRecord =
      store.list_installations_for_user context.github_user_id in
    let found = any-find (grants repository.installation_id) installations in
    let granted : (h : require_repository_access context repo_id store ≡ ok repository)
        → (store.get_repository repo_id ≡ some repository)
          × (is_deleted repository.status ≡ false)
          × (any (grants repository.installation_id) installations ≡ true) =
      λ h. grind arith in
    (
      λ h.
          (let (same, alive, some_grant) = granted h in
            elim (Option-cases (find (grants repository.installation_id) installations)) [
              | inl e ↦
                  (let no : false ≡ true = sym (ap (λ o. is_some o) e) ∙ sym found ∙ some_grant in
                    cc)
              | inr (i, e) ↦ (same, alive, (i, rw (e, require_installation_access) refl))
            ]),
      λ h. grind (arith, found),
    )

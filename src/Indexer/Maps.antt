-- ===== src/Indexer/Maps.antt =====
-- What a map gives after a key was set or deleted.
use ydb_qdrant.Prelude.{[], ◌∷◌, ◌≡◌, refl, inl, inr, arith, Bool-cases, none, some, if◌then◌else◌}
use ydb_qdrant.Text.{Text, text_eq}
use ydb_qdrant.Text.Laws.{text_eq_refl, text_eq_sound, text_eq_comm}
use ydb_qdrant.Indexer.{ManifestFile, FileMap, map_get, map_delete, map_set}

pub map_get-map_delete :
    (k l : Text) (m : FileMap)
    → map_get k (map_delete l m) ≡ (if text_eq k l then none else map_get k m)
unfolding map_get map_delete
map_get-map_delete k l [] = ground arith
map_get-map_delete k l ((j, f) ∷ m) = elim (Bool-cases (text_eq j l)) [
  | inl e ↦
      (let same : j ≡ l = text_eq_sound j l e in
        rw e (ground (arith, map_get-map_delete k l m, text_eq_comm k l, text_eq_sound j l)))
  | inr e ↦ rw e (ground (arith, map_get-map_delete k l m, text_eq_comm k l, text_eq_sound j k))
]

pub map_get-map_set :
    (k l : Text) (f : ManifestFile) (m : FileMap)
    → map_get k (map_set l f m) ≡ (if text_eq k l then some f else map_get k m)
unfolding map_get map_set
map_get-map_set k l f [] = rw (text_eq_comm k l) refl
map_get-map_set k l f ((j, g) ∷ m) = elim (Bool-cases (text_eq j l)) [
  | inl e ↦
      (let same : j ≡ l = text_eq_sound j l e in
        let flag : text_eq j k ≡ text_eq k l = rw same (text_eq_comm l k) in
        rw (e, flag) (ground arith))
  | inr e ↦ rw e (
      ground (arith, map_get-map_set k l f m, text_eq_sound k l, text_eq_sound j k, text_eq_refl l))
]

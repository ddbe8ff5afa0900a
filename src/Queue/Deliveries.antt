-- ===== src/Queue/Deliveries.antt =====
-- A delivery is reserved once until it is released.
use ydb_qdrant.Prelude.{
  List, [], ◌∷◌, true, false, not, ◌≡◌, refl, if◌then◌else◌, filter, arith, Bool-cases, inl, inr,
}
use ydb_qdrant.Text.{Text, text_eq, includes}
use ydb_qdrant.Text.Laws.{text_eq_iff}
use ydb_qdrant.Queue.{DeliveryStore, has, mark, release, reserve}

includes-filter :
    (a b : Text) (ts : List Text)
    → includes b (filter (λ t. not (text_eq t a)) ts)
      ≡ (if text_eq a b then false else includes b ts)
includes-filter a b [] = ground arith
includes-filter a b (t ∷ ts) =
    ground (arith, includes-filter a b ts, text_eq_iff t a, text_eq_iff t b, text_eq_iff a b)

-- What has answers after each operation, for every identifier: a reservation or a mark adds its
-- identifier alone, a release removes its identifier alone, and reserve reports whether the
-- identifier was free.
pub has-store :
    (s : DeliveryStore) (a b : Text)
    → (has (mark s a) b ≡ (if text_eq a b then true else has s b))
      × (has (reserve s a).0 b ≡ (if text_eq a b then true else has s b))
      × ((reserve s a).1 ≡ not (has s a))
      × (has (release s a) b ≡ (if text_eq a b then false else has s b))
unfolding has mark release reserve
has-store s a b = elim (Bool-cases (includes a s.delivery_ids)) [
  | inl e ↦ rw e (
    ground (arith, text_eq_iff a b),
    ground (arith, text_eq_iff a b),
    refl,
    includes-filter a b s.delivery_ids,
  )
  | inr e ↦ rw e (ground arith, ground arith, refl, includes-filter a b s.delivery_ids)
]

-- ===== src/Router/Producers.antt =====
-- Adding, finding and removing producers.
use singal.Common.{
  ◌≡◌, refl, ◌&&◌, String, none, some, List, [], ◌∷◌, ◌++◌, arith, str_eq, eq_iff, if◌then◌else◌,
}
use singal.Dict.{lookup-insert}
use singal.Router.{
  Router, Producer, slice_of, add_producer, find_producer, get_producer, cut_producer,
  remove_producer,
}

-- No two producers of a user share an id.
abbrev pub IsDistinct : List Producer → Type 0
IsDistinct [] = Unit
IsDistinct (p ∷ ps) = (find_producer p.producer_id ps ≡ none) × IsDistinct ps

get_producer-slice :
    (r : Router) (user id : String)
    → get_producer r user id ≡ find_producer id (slice_of user r.producers)
unfolding get_producer find_producer
get_producer-slice r user id = ground arith

find_producer-append :
    (id : String) (ps : List Producer) (p : Producer)
    → find_producer id (ps ++ p ∷ []) ≡ elim (find_producer id ps) [
      | none ↦ if str_eq p.producer_id id then some p else none
      | some q ↦ some q
    ]
unfolding find_producer
find_producer-append id [] p = refl
find_producer-append id (q ∷ ps) p = ground (arith, find_producer-append id ps p)

find_producer-cut :
    (id j : String) (ps : List Producer)
    → IsDistinct ps
    → find_producer j (cut_producer id ps) ≡ (if str_eq id j then none else find_producer j ps)
unfolding find_producer cut_producer
find_producer-cut id j [] h = ground arith
find_producer-cut id j (p ∷ ps) h = ground (
  arith,
  find_producer-cut id j ps h.1,
  h.0,
  eq_iff p.producer_id id,
  eq_iff p.producer_id j,
  eq_iff id j,
)

-- After `addProducer`, `GetProducer` finds what it found before, and the new producer where the
-- user had none of that id.
pub get_producer-add :
    (r : Router) (user v id : String) (p : Producer)
    → get_producer (add_producer r user (some p)) v id ≡ (
        if str_eq user v
        then elim (get_producer r user id) [
          | none ↦ if str_eq p.producer_id id then some p else none
          | some q ↦ some q
        ]
        else get_producer r v id)
unfolding get_producer add_producer
get_producer-add r user v id p = ground (
  arith,
  lookup-insert user v (slice_of user r.producers ++ p ∷ []) r.producers,
  find_producer-append id (slice_of user r.producers) p,
  get_producer-slice r user id,
  find_producer-nil id,
)
  where
    find_producer-nil : (id : String) → find_producer id [] ≡ none
    find_producer-nil id = unfold find_producer in refl

-- Where the ids of the user's producers differ, `removeProducer` takes away the one that is named
-- and no other, of that user or of another.
get_producer-remove :
    (r : Router) (user id v j : String)
    → IsDistinct (slice_of user r.producers)
    → get_producer (remove_producer r user id) v j
      ≡ (if str_eq user v && str_eq id j then none else get_producer r v j)
unfolding get_producer remove_producer
get_producer-remove r user id v j h = ground (
  arith,
  eq_iff user v,
  lookup-insert user v (cut_producer id (slice_of user r.producers)) r.producers,
  find_producer-cut id j (slice_of user r.producers) h,
)

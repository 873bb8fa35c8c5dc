-- ===== src/Router/Closing.antt =====
-- What `removeConsumerByProducerId` reports, and what it leaves behind.
use singal.Common.{
  suc, ◌≡◌, ◌≢◌, refl, false, String, Option, none, some, List, [], ◌∷◌, ◌++◌, arith, str_eq,
  eq_iff, if◌then◌else◌, Option-cases, inl, inr, length, ap,
}
use singal.Dict.{Dict, lookup, lookup-insert, IsMap}
use singal.Router.{
  Router, Consumer, slice_of, consumes, add_consumer, find_consumer, shift_down, cut_in_place,
  cut_others, removed_ids, remove_consumer_by_producer_id, get_consumer_by_id,
}
use singal.Router.Consumers.{consumes-append}

abbrev pub closed_id : Option Consumer → Option String
closed_id none = none
closed_id (some c) = some c.consumer_id

lookup-removed_absent :
    (user producer k : String) (m : Dict (List Consumer))
    → lookup k m ≡ none
    → lookup k (removed_ids user producer m) ≡ none
unfolding lookup removed_ids
lookup-removed_absent user producer k [] h = refl
lookup-removed_absent user producer k ((u, cs) ∷ m) h =
    elim (Option-cases (find_consumer producer cs)) [
      | inl e ↦ rw (e, removed_ids) (ground (arith, lookup-removed_absent user producer k m))
      | inr (c, e) ↦
          rw (e, removed_ids)
            (ground (
              arith,
              lookup-removed_absent user producer k m,
              lookup-insert u k c.consumer_id (removed_ids user producer m),
            ))
    ]

lookup-removed_ids :
    (user producer k : String) (m : Dict (List Consumer))
    → IsMap m
    → lookup k (removed_ids user producer m)
      ≡ (if str_eq k user then none else closed_id (find_consumer producer (slice_of k m)))
unfolding lookup removed_ids find_consumer
lookup-removed_ids user producer k [] h = ground arith
lookup-removed_ids user producer k ((u, cs) ∷ m) h =
    elim (Option-cases (find_consumer producer cs)) [
      | inl e ↦
          rw (e, removed_ids)
            (ground (
              arith,
              lookup-removed_ids user producer k m h.1,
              eq_iff u k,
              eq_iff u user,
              eq_iff k user,
              h.0,
              e,
              lookup-removed_absent user producer k m,
            ))
      | inr (c, e) ↦
          rw (e, removed_ids)
            (ground (
              arith,
              lookup-removed_ids user producer k m h.1,
              eq_iff u k,
              eq_iff u user,
              eq_iff k user,
              h.0,
              e,
              lookup-removed_absent user producer k m,
              lookup-insert u k c.consumer_id (removed_ids user producer m),
            ))
    ]

-- Where each user is stored once, `removeConsumerByProducerId` reports each other user that
-- consumes the producer with its first consumer of it, and no other user.
pub lookup-remove_consumer :
    (r : Router) (user producer k : String)
    → IsMap r.consumers
    → lookup k (remove_consumer_by_producer_id r user producer).1 ≡ (
        if str_eq k user then none else closed_id (find_consumer producer (get_consumer_by_id r k)))
unfolding remove_consumer_by_producer_id get_consumer_by_id
lookup-remove_consumer r user producer k h = lookup-removed_ids user producer k r.consumers h

lookup-cut_others :
    (user producer k : String) (m : Dict (List Consumer))
    → slice_of k (cut_others user producer m)
      ≡ (if str_eq k user then slice_of k m else cut_in_place producer (slice_of k m))
unfolding lookup cut_others cut_in_place
lookup-cut_others user producer k [] = ground arith
lookup-cut_others user producer k ((u, cs) ∷ m) =
    ground (arith, lookup-cut_others user producer k m, eq_iff u k, eq_iff u user, eq_iff k user)

length-shift_down : (c : Consumer) (cs : List Consumer) → length (shift_down c cs) ≡ suc (length cs)
unfolding shift_down
length-shift_down c [] = refl
length-shift_down c (d ∷ cs) = ap suc (length-shift_down d cs)

length-cut_in_place :
    (producer : String) (cs : List Consumer) → length (cut_in_place producer cs) ≡ length cs
unfolding cut_in_place
length-cut_in_place producer [] = refl
length-cut_in_place producer (c ∷ cs) =
    ground (arith, length-cut_in_place producer cs, length-shift_down c cs)

-- `removeConsumerByProducerId` makes no user's list of consumers shorter.
pub length-remove_consumer :
    (r : Router) (user producer k : String)
    → length (get_consumer_by_id (remove_consumer_by_producer_id r user producer).0 k)
      ≡ length (get_consumer_by_id r k)
unfolding remove_consumer_by_producer_id get_consumer_by_id
length-remove_consumer r user producer k = ground (
  arith,
  lookup-cut_others user producer k r.consumers,
  length-cut_in_place producer (slice_of k r.consumers),
)

cut_in_place-last :
    (producer : String) (cs : List Consumer) (c : Consumer)
    → consumes producer cs ≡ false
    → c.producer_id ≡ producer
    → cut_in_place producer (cs ++ c ∷ []) ≡ cs ++ c ∷ []
unfolding cut_in_place consumes shift_down
cut_in_place-last producer [] c h e = ground arith
cut_in_place-last producer (d ∷ cs) c h e = ground (arith, cut_in_place-last producer cs c)

-- Another user whose one consumer of the closed producer stands last in its list keeps it, and a
-- new consumer of that producer is refused to it.
pub remove_consumer_keeps_last :
    (r : Router) (user producer k : String) (cs : List Consumer) (c d : Consumer)
    → k ≢ user
    → lookup k r.consumers ≡ some (cs ++ c ∷ [])
    → consumes producer cs ≡ false
    → c.producer_id ≡ producer
    → d.producer_id ≡ producer
    → let r' = (remove_consumer_by_producer_id r user producer).0 in
      (get_consumer_by_id r' k ≡ cs ++ c ∷ []) × ((add_consumer r' k (some d)).1 ≡ false)
unfolding remove_consumer_by_producer_id get_consumer_by_id add_consumer
remove_consumer_keeps_last r user producer k cs c d ne e h p q = (kept, refused)
  where
    kept : slice_of k (cut_others user producer r.consumers) ≡ cs ++ c ∷ []
    kept = ground (
      arith,
      lookup-cut_others user producer k r.consumers,
      eq_iff k user,
      cut_in_place-last producer cs c h p,
    )

    refused :
        (add_consumer (record r { consumers = cut_others user producer r.consumers }) k (some d)).1
        ≡ false
    refused = ground (
      arith,
      kept,
      consumes-append d.producer_id cs c,
      eq_iff c.producer_id d.producer_id,
      q,
      p,
      h,
    )

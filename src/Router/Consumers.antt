-- ===== src/Router/Consumers.antt =====
-- One consumer for each producer: what `addConsumer` refuses and keeps.
use singal.Common.{
  ◌≡◌, refl, true, false, not, String, Option, none, some, List, [], ◌∷◌, ◌++◌, arith, str_eq,
  eq_iff, eq_refl, if◌then◌else◌, inl, inr, Bool-cases,
}
use singal.Dict.{insert}
use singal.Dict.{
  lookup-insert_self, lookup, lookup-insert, AllEntries, AllEntries-insert, AllEntries-lookup,
}
use singal.Router.{
  Router, Consumer, slice_of, consumes, add_consumer, create_consumes, get_consumer_by_id,
  get_consumer_transport_id,
}

-- No two consumers of a user take the same producer.
abbrev pub OneEach : List Consumer → Type 0
OneEach [] = Unit
OneEach (c ∷ cs) = (consumes c.producer_id cs ≡ false) × OneEach cs

abbrev pub IsSingle : Router → Type 0
IsSingle r = AllEntries (λ _ cs. OneEach cs) r.consumers

pub consumes-append :
    (producer : String) (cs : List Consumer) (c : Consumer)
    → consumes producer (cs ++ c ∷ [])
      ≡ (if consumes producer cs then true else str_eq c.producer_id producer)
unfolding consumes
consumes-append producer [] c = ground arith
consumes-append producer (d ∷ cs) c = ground (arith, consumes-append producer cs c)

OneEach-append :
    (cs : List Consumer) (c : Consumer)
    → OneEach cs
    → consumes c.producer_id cs ≡ false
    → OneEach (cs ++ c ∷ [])
unfolding consumes
OneEach-append [] c h e = (refl, tt)
OneEach-append (d ∷ cs) c h e = ground (
  arith,
  OneEach-append cs c h.1,
  consumes-append d.producer_id cs c,
  eq_iff c.producer_id d.producer_id,
  eq_iff d.producer_id c.producer_id,
)

OneEach-slice : (r : Router) (user : String) → IsSingle r → OneEach (slice_of user r.consumers)
OneEach-slice r user h = go (lookup user r.consumers) refl
  where
    go :
        (o : Option (List Consumer))
        → lookup user r.consumers ≡ o
        → OneEach (elim o [ none ↦ [] | some l ↦ l ])
    go none e = tt
    go (some cs) e = AllEntries-lookup (λ _ l. OneEach l) user cs r.consumers e h

-- `addConsumer` succeeds exactly where the user has no consumer of that producer; then it has one,
-- and in either case no user has two of the same producer.
pub add_consumer-IsSingle :
    (r : Router) (user : String) (c : Consumer)
    → IsSingle r
    → ((add_consumer r user (some c)).1 ≡ not (consumes c.producer_id (slice_of user r.consumers)))
      × (consumes c.producer_id (get_consumer_by_id (add_consumer r user (some c)).0 user) ≡ true)
      × IsSingle (add_consumer r user (some c)).0
unfolding add_consumer get_consumer_by_id
add_consumer-IsSingle r user c h =
    elim (Bool-cases (consumes c.producer_id (slice_of user r.consumers))) [
      | inl e ↦ rw (e, add_consumer) (refl, e, h)
      | inr e ↦
          rw (e, add_consumer)
            (
              refl,
              ground (
                arith,
                eq_iff user user,
                eq_refl c.producer_id,
                lookup-insert user user (slice_of user r.consumers ++ c ∷ []) r.consumers,
                consumes-append c.producer_id (slice_of user r.consumers) c,
              ),
              AllEntries-insert (λ _ l. OneEach l) user _ r.consumers
                  (OneEach-append (slice_of user r.consumers) c (OneEach-slice r user h) e) h,
            )
    ]

abbrev initial_consumer : String → String → String → Consumer
initial_consumer id transport kind = record {
  consumer_id = id;
  transport_id = transport;
  producer_id = "";
  kind = kind;
  origin_ssrc = 0;
  new_ssrc = 0;
}

add_consumer_first :
    (r : Router) (user : String) (c : Consumer)
    → lookup user r.consumers ≡ none
    → add_consumer r user (some c)
      ≡ (record r { consumers = insert user (c ∷ []) r.consumers }, true)
unfolding add_consumer consumes
add_consumer_first r user c h = ground (arith, h)

add_consumer_again :
    (r : Router) (user : String) (c d : Consumer)
    → lookup user r.consumers ≡ some (c ∷ [])
    → c.producer_id ≡ d.producer_id
    → add_consumer r user (some d) ≡ (r, false)
unfolding add_consumer consumes
add_consumer_again r user c d h e = ground (arith, h, eq_iff c.producer_id d.producer_id)

-- `CreateConsumes` gives a user without consumers the audio consumer only: the video consumer has
-- the same empty producer id, and is refused.
create_consumes_audio :
    (r : Router) (user audio_id video_id : String)
    → lookup user r.consumers ≡ none
    → get_consumer_by_id (create_consumes r user audio_id video_id) user
      ≡ initial_consumer audio_id (get_consumer_transport_id r user) "audio" ∷ []
unfolding create_consumes get_consumer_by_id
create_consumes_audio r user audio_id video_id h =
    let audio : Consumer = initial_consumer audio_id (get_consumer_transport_id r user) "audio" in
    let r' : Router = record r { consumers = insert user (audio ∷ []) r.consumers } in
    let there : lookup user r'.consumers ≡ some (audio ∷ []) =
      lookup-insert_self user (audio ∷ []) r.consumers in
    let video : Consumer = initial_consumer video_id (get_consumer_transport_id r' user) "video" in
    rw (add_consumer_first r user audio h, create_consumes)
      (rw (add_consumer_again r' user audio video there refl, create_consumes)
        (rw (there, slice_of)))

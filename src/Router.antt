-- ===== src/Router.antt =====
-- The media router of a room: `Producer`, `Consumer`, `Router` and its methods in
-- src/server/worker.go. A method that changes the router returns the new one.
pub mod Producers
pub mod Consumers
pub mod Closing
pub mod Transports
use singal.Common.{
  length, ℕ, Bool, true, false, String, Option, none, some, List, [], ◌∷◌, ◌++◌, str_eq,
  if◌then◌else◌,
}
use singal.Dict.{Dict, lookup, insert}

-- `parameters` is a pointer: it names a place in the store of request data (see Room).
pub record Producer : Type 0 where
  pub producer_id : String
  pub transport_id : String
  pub kind : String
  pub ssrc : ℕ
  pub parameters : ℕ

pub record Consumer : Type 0 where
  pub consumer_id : String
  pub transport_id : String
  pub producer_id : String
  pub kind : String
  pub origin_ssrc : ℕ
  pub new_ssrc : ℕ

pub record Router : Type 0 where
  pub router_id : String
  pub public_ip : String
  pub min_port : ℕ
  pub port : ℕ
  pub max_port : ℕ
  pub preference_udp : Bool
  pub send_buf_size : ℕ
  pub recv_buf_size : ℕ
  pub worker_id : String
  pub producers : Dict (List Producer)
  pub consumers : Dict (List Consumer)
  pub produce_transport_ids : Dict String
  pub consume_transport_ids : Dict String

-- Reading a missing key of a map of slices gives the nil slice.
abbrev pub slice_of : {A : Type 0} → String → Dict (List A) → List A
slice_of k m = elim (lookup k m) [ none ↦ [] | some l ↦ l ]

-- `addProducer`; a nil producer changes nothing.
unfoldable pub add_producer : Router → String → Option Producer → Router
add_producer r user none = r
add_producer r user (some p) = record r {
  producers = insert user (slice_of user r.producers ++ p ∷ []) r.producers;
}

unfoldable pub find_producer : String → List Producer → Option Producer
find_producer id [] = none
find_producer id (p ∷ ps) = if str_eq p.producer_id id then some p else find_producer id ps

unfoldable pub get_producer : Router → String → String → Option Producer
get_producer r user id = elim (lookup user r.producers) [
  | none ↦ none
  | some ps ↦ find_producer id ps
]

-- The first producer of that id is cut out of the slice.
unfoldable pub cut_producer : String → List Producer → List Producer
cut_producer id [] = []
cut_producer id (p ∷ ps) = if str_eq p.producer_id id then ps else p ∷ cut_producer id ps

unfoldable pub remove_producer : Router → String → String → Router
remove_producer r user id = elim (lookup user r.producers) [
  | none ↦ r
  | some ps ↦ record r { producers = insert user (cut_producer id ps) r.producers }
]

unfoldable pub consumes : String → List Consumer → Bool
consumes producer [] = false
consumes producer (c ∷ cs) = if str_eq c.producer_id producer then true else consumes producer cs

-- `addConsumer`: refused for nil, and where the user has a consumer of that producer.
unfoldable pub add_consumer : Router → String → Option Consumer → Router × Bool
add_consumer r user none = (r, false)
add_consumer r user (some c) =
    if consumes c.producer_id (slice_of user r.consumers) then (r, false) else (
      record r { consumers = insert user (slice_of user r.consumers ++ c ∷ []) r.consumers },
      true,
    )

unfoldable pub find_consumer : String → List Consumer → Option Consumer
find_consumer producer [] = none
find_consumer producer (c ∷ cs) =
    if str_eq c.producer_id producer then some c else find_consumer producer cs

abbrev pub cons_some : {A : Type 0} → Option A → List A → List A
cons_some none xs = xs
cons_some (some x) xs = x ∷ xs

-- The first consumer of that producer, of each user but one.
unfoldable pub consumers_of_others : String → String → Dict (List Consumer) → List Consumer
consumers_of_others user producer [] = []
consumers_of_others user producer ((u, cs) ∷ m) =
    let rest = consumers_of_others user producer m in
    if str_eq u user then rest else cons_some (find_consumer producer cs) rest

unfoldable pub get_consumer_by_producer_id : Router → String → String → List Consumer
get_consumer_by_producer_id r user producer = consumers_of_others user producer r.consumers

-- `append(s[:i], s[i+1:]...)` moves the tail one place down in the array that the map's slice still
-- shows at its old length: the last element stays where it was, too.
unfoldable pub shift_down : Consumer → List Consumer → List Consumer
shift_down x [] = x ∷ []
shift_down x (y ∷ ys) = y ∷ shift_down y ys

unfoldable pub cut_in_place : String → List Consumer → List Consumer
cut_in_place producer [] = []
cut_in_place producer (c ∷ cs) =
    if str_eq c.producer_id producer then shift_down c cs else c ∷ cut_in_place producer cs

unfoldable pub cut_others : String → String → Dict (List Consumer) → Dict (List Consumer)
cut_others user producer [] = []
cut_others user producer ((u, cs) ∷ m) =
    (u, if str_eq u user then cs else cut_in_place producer cs) ∷ cut_others user producer m

-- The result of `removeConsumerByProducerId`: the consumer that each other user loses.
unfoldable pub removed_ids : String → String → Dict (List Consumer) → Dict String
removed_ids user producer [] = []
removed_ids user producer ((u, cs) ∷ m) =
    let rest = removed_ids user producer m in
    if str_eq u user
    then rest
    else elim (find_consumer producer cs) [ none ↦ rest | some c ↦ insert u c.consumer_id rest ]

unfoldable pub remove_consumer_by_producer_id : Router → String → String → Router × Dict String
remove_consumer_by_producer_id r user producer = (
  record r { consumers = cut_others user producer r.consumers },
  removed_ids user producer r.consumers,
)

unfoldable pub get_consumer_transport_id : Router → String → String
get_consumer_transport_id r user = elim (lookup user r.consume_transport_ids) [
  | none ↦ ""
  | some t ↦ t
]

-- The two consumers that `CreateConsumes` adds; their ids come from `RandString`.
unfoldable pub create_consumes : Router → String → String → String → Router
create_consumes r user audio_id video_id =
    let (r', _) = add_consumer r user (
      some (record {
        consumer_id = audio_id;
        transport_id = get_consumer_transport_id r user;
        producer_id = "";
        kind = "audio";
        origin_ssrc = 0;
        new_ssrc = 0;
      })) in
    let (r'', _) = add_consumer r' user (
      some (record {
        consumer_id = video_id;
        transport_id = get_consumer_transport_id r' user;
        producer_id = "";
        kind = "video";
        origin_ssrc = 0;
        new_ssrc = 0;
      })) in
    r''

-- The first transport id that is saved for a user stays.
abbrev pub save_once : String → String → Dict String → Dict String
save_once user transport m = elim (lookup user m) [ none ↦ insert user transport m | some _ ↦ m ]

unfoldable pub save_consume_transport_id : Router → String → String → Router
save_consume_transport_id r user transport = record r {
  consume_transport_ids = save_once user transport r.consume_transport_ids;
}

unfoldable pub save_producer_transport_id : Router → String → String → Router
save_producer_transport_id r user transport = record r {
  produce_transport_ids = save_once user transport r.produce_transport_ids;
}

unfoldable pub get_producer_by_id : Router → String → List Producer
get_producer_by_id r user = slice_of user r.producers

unfoldable pub get_consumer_by_id : Router → String → List Consumer
get_consumer_by_id r user = slice_of user r.consumers

unfoldable pub of_others : {A : Type 0} → String → Dict (List A) → List A
of_others user [] = []
of_others user ((u, xs) ∷ m) =
    let rest = of_others user m in if str_eq u user then rest else xs ++ rest

unfoldable pub get_other_consumers_by_id : Router → String → List Consumer
get_other_consumers_by_id r user = of_others user r.consumers

unfoldable pub get_other_producers_by_id : Router → String → List Producer
get_other_producers_by_id r user = of_others user r.producers

-- `getConsumerStreamMid`; `itoa` is `strconv.Itoa`.
abbrev pub get_consumer_stream_mid : (ℕ → String) → Router → String → String
get_consumer_stream_mid itoa r user = itoa (length (get_consumer_by_id r user))

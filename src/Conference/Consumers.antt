-- ===== src/Conference/Consumers.antt =====
-- The consumers that rooms make for producers: the rest of src/server/room.go up to
-- `ReqOtherNewConsumer`.
use singal.Common.{
  ℕ, ◌+◌, ℤ, pos, negsuc, Bool, true, false, String, none, some, List, [], ◌∷◌, ◌++◌, str_eq,
  if◌then◌else◌, length, get_elem?, set,
}
use singal.Conference.{
  Env, User, M, ◌>>=◌, ◌>>◌, pure, load, load_room, save_room, request_new_data_consumer,
  request_new_consumer,
}
use singal.Dict.{Dict}
use singal.Media.{
  NewConsumerReqData, ProduceReqData, CodecCapabilities, ProducerHeadExtension, RtcpFeedback,
  RtpCapabilities,
}
use singal.Router.{
  Router, Producer, Consumer, get_consumer_transport_id, get_producer_by_id,
  get_consumer_stream_mid, add_consumer,
}
use singal.Rtc.Media.{Outcome, ok, err, panic}
use singal.Rtc.{create_consumer_request, consumer_finish, and_then}

-- The extension ids of room.go; -1 for a URI that none of the tests fits.
unfoldable pub get_new_extension_id : (String → String → Bool) → String → ℤ
get_new_extension_id contains uri =
    if contains uri "mid"
    then pos 1
    else if contains uri "abs-send-time"
    then pos 4
    else if contains uri "transport-wide-cc-extensions"
    then pos 5
    else if contains uri "ssrc-audio-level"
    then pos 6
    else if contains uri "abs-capture-time"
    then pos 10
    else if contains uri "video-orientation"
    then pos 8
    else if contains uri "toffset"
    then pos 9
    else if contains uri "playout-delay"
    then pos 11
    else if contains uri "repaired-rtp-stream-id"
    then pos 3
    else if contains uri "rtp-stream-id"
    then pos 2
    else negsuc 0

unfoldable pub change_extension_id :
    (String → String → Bool) → List ProducerHeadExtension → List ProducerHeadExtension
change_extension_id contains [] = []
change_extension_id contains (e ∷ es) =
    record e { id = get_new_extension_id contains e.uri } ∷ change_extension_id contains es

abbrev pub last_of : {A : Type 0} → A → List A → A
last_of x [] = x
last_of x (y ∷ ys) = last_of y ys

-- The loop of `RemoveFeedbackRemb`, over the cells of the array from its index on: a removal moves
-- the later cells down, and the last cell, which now lies past the end of the local slice, keeps its
-- value. The result is the whole array, which the caller's slice still shows.
unfoldable pub remb_loop : List RtcpFeedback → List RtcpFeedback → List RtcpFeedback
remb_loop [] past = past
remb_loop (f ∷ fs) past = elim (str_eq f.type "goog-remb") [
  | true ↦ remb_loop fs (last_of f fs ∷ past)
  | false ↦ f ∷ remb_loop fs past
]

unfoldable pub remove_feedback_remb : List RtcpFeedback → List RtcpFeedback
remove_feedback_remb fs = remb_loop fs []

abbrev pub strip_codec : CodecCapabilities → CodecCapabilities
strip_codec c = record c { feedbacks = remove_feedback_remb c.feedbacks }

abbrev pub load_params : ℕ → M ProduceReqData
load_params a w = elim (get_elem? w.store a) [ none ↦ panic | some d ↦ ok (d, w) ]

abbrev pub store_params : ℕ → ProduceReqData → M (Unit {0})
store_params a d w = ok (tt, record w { store = set w.store a d })

-- `&ProduceReqData{...}` of a request that came in.
abbrev pub allocate : ProduceReqData → M ℕ
allocate d w = ok (length w.store, record w { store = w.store ++ d ∷ [] })

abbrev pub lift : {A : Type 0} → Outcome A → M A
lift o w = elim o [ ok a ↦ ok (a, w) | err e ↦ err e | panic ↦ panic ]

-- A call whose error is only logged.
abbrev pub logged : {A : Type 0} → Outcome A → M (Unit {0})
logged o w = elim o [ panic ↦ panic | _ ↦ ok (tt, w) ]

abbrev pub save_router : String → Router → M (Unit {0})
save_router room_id router = do
  r ← load_room room_id
  save_room room_id (record r { router = router })

abbrev pub with_payload_type : CodecCapabilities → ℕ → CodecCapabilities
with_payload_type c n = record c { payload_type = pos n }

-- The payload types that a consumer's codecs get; an index or a nil pointer may panic.
unfoldable pub consumer_codecs : String → List CodecCapabilities → Outcome (List CodecCapabilities)
consumer_codecs kind [] = panic
consumer_codecs kind (c ∷ cs) = elim (str_eq kind "video") [
  | true ↦ elim cs [
    | [] ↦ panic
    | d ∷ ds ↦ elim d.parameters [
      | none ↦ panic
      | some q ↦ ok (
          with_payload_type c 101
          ∷ record (with_payload_type d 102) { parameters = some (record q { apt = pos 101 }) }
          ∷ ds)
    ]
  ]
  | false ↦ ok (with_payload_type c 100 ∷ cs)
]

module _ (env : Env) where
  abbrev pub rand_string : ℕ → M String
  rand_string n w = ok (env.rand_string w.draws n, record w { draws = w.draws + 1 })

  unfoldable pub req_new_data_consumers : User → Router → Dict ℕ → M (Unit {0})
  req_new_data_consumers u router [] = pure tt
  req_new_data_consumers u router ((k, p) ∷ m) = elim (str_eq k u.user_id) [
    | true ↦ req_new_data_consumers u router m
    | false ↦ do
      producer_id ← rand_string 36
      consumer_id ← rand_string 36
      request_new_data_consumer p (record {
        peer_id = u.peer_id;
        transport_id = get_consumer_transport_id router u.user_id;
        data_producer_id = producer_id;
        data_consumer_id = consumer_id;
        sctp_stream_parameters = record { stream_id = 0; orderd = true };
        label = "chat";
        app_data = record { direction = ""; channel = "chat"; source = ""; peer_id = u.peer_id };
      })
      req_new_data_consumers u router m
  ]

  -- `ReqOtherNewDataConsumer`
  unfoldable pub req_other_new_data_consumer : String → ℕ → M (Unit {0})
  req_other_new_data_consumer room_id p = do
    r ← load_room room_id
    u ← load p
    req_new_data_consumers u r.router r.users

  -- `CreateNewConsumerData`: the request data shares the arrays of codecs and header extensions with
  -- the producer's parameters, so the changes are written there too.
  unfoldable pub create_new_consumer_data :
      String → Consumer → Producer → String → String → M NewConsumerReqData
  create_new_consumer_data room_id consumer producer peer_id user_id = do
    r ← load_room room_id
    params ← load_params producer.parameters
    c_name ← elim (str_eq consumer.kind "video") [
      | true ↦ rand_string 20
      | false ↦ pure params.rtp_parameters.rtcp.c_name
    ]
    codecs ← lift (consumer_codecs consumer.kind params.rtp_parameters.media_codecs)
    let rtp : RtpCapabilities = record (params.rtp_parameters) {
      mid = get_consumer_stream_mid env.itoa r.router user_id;
      media_codecs = codecs;
      rtcp = record (params.rtp_parameters.rtcp) { c_name = c_name };
    }
    let video : Bool = str_eq consumer.kind "video"
    let created : NewConsumerReqData = record {
      peer_id = peer_id;
      transport_id = consumer.transport_id;
      consumer_id = consumer.consumer_id;
      producer_id = consumer.producer_id;
      kind = consumer.kind;
      rtp_parameters = rtp;
      type = "simple";
      producer_paused = false;
      app_data = record {
        direction = "";
        channel = "";
        source = if video then "video" else "audio";
        peer_id = peer_id;
      };
      consumer_score = record {
        score = 10;
        producer_score = 0;
        producer_scores = if video then 0 ∷ 0 ∷ 0 ∷ [] else 0 ∷ [];
      };
    }
    logged (
        and_then (create_consumer_request (some r.router) created)
          λ m. consumer_finish (env.remote m))
    let extensions : List ProducerHeadExtension =
        change_extension_id env.contains rtp.header_extensions
    store_params producer.parameters (record params {
      rtp_parameters = record (params.rtp_parameters) {
        media_codecs = codecs;
        header_extensions = extensions;
      };
    })
    pure (record created { rtp_parameters = record rtp { header_extensions = extensions } })

  abbrev pub new_consumer : String → String → String → String → Consumer
  new_consumer id transport_id producer_id kind = record {
    consumer_id = id;
    transport_id = transport_id;
    producer_id = producer_id;
    kind = kind;
    origin_ssrc = 0;
    new_ssrc = 0;
  }

  -- The inner loop of `ReqPullOtherNewProducer`, over the producers of one other user.
  unfoldable pub pull_producers : String → ℕ → User → String → String → List Producer → M (Unit {0})
  pull_producers room_id p u kind peer_id [] = pure tt
  pull_producers room_id p u kind peer_id (q ∷ qs) = elim (str_eq q.kind kind) [
    | false ↦ pull_producers room_id p u kind peer_id qs
    | true ↦ do
      r ← load_room room_id
      id ← rand_string 36
      let c : Consumer =
          new_consumer id (get_consumer_transport_id r.router u.user_id) q.producer_id kind
      let added : Router × Bool = add_consumer r.router u.user_id (some c)
      save_router room_id added.0
      elim added.1 [
        | true ↦ do
          d ← create_new_consumer_data room_id c q peer_id u.user_id
          request_new_consumer p d
        | false ↦ pure tt
      ]
      pull_producers room_id p u kind peer_id qs
  ]

  unfoldable pub pull_users : String → ℕ → User → String → Dict ℕ → M (Unit {0})
  pull_users room_id p u kind [] = pure tt
  pull_users room_id p u kind ((k, v) ∷ m) = elim (str_eq k u.user_id) [
    | true ↦ pull_users room_id p u kind m
    | false ↦ do
      r ← load_room room_id
      other ← load v
      pull_producers room_id p u kind other.peer_id (get_producer_by_id r.router k)
      pull_users room_id p u kind m
  ]

  -- `ReqPullOtherNewProducer`
  unfoldable pub req_pull_other_new_producer : String → ℕ → Producer → M (Unit {0})
  req_pull_other_new_producer room_id p producer = do
    r ← load_room room_id
    u ← load p
    pull_users room_id p u producer.kind r.users

  unfoldable pub push_users : String → User → Producer → Dict ℕ → M (Unit {0})
  push_users room_id u producer [] = pure tt
  push_users room_id u producer ((k, v) ∷ m) = elim (str_eq k u.user_id) [
    | true ↦ push_users room_id u producer m
    | false ↦ do
      r ← load_room room_id
      other ← load v
      id ← rand_string 36
      let c : Consumer =
          new_consumer id (get_consumer_transport_id r.router other.user_id) producer.producer_id
            producer.kind
      save_router room_id (add_consumer r.router other.user_id (some c)).0
      d ← create_new_consumer_data room_id c producer u.peer_id other.user_id
      request_new_consumer v d
      push_users room_id u producer m
  ]

  -- `ReqOtherNewConsumer`: whether the consumer was added is not asked.
  unfoldable pub req_other_new_consumer : String → ℕ → Producer → M (Unit {0})
  req_other_new_consumer room_id p producer = do
    r ← load_room room_id
    u ← load p
    push_users room_id u producer r.users

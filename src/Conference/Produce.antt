-- ===== src/Conference/Produce.antt =====
-- The methods of `Room` that a client's request runs (src/server/room.go): transports, producing
-- and closing a producer. `none` stands for an error that the handler logs.
use singal.Common.{
  ℕ, ◌+◌, true, false, String, Option, none, some, [], ◌∷◌, map, str_eq, if◌then◌else◌,
}
use singal.Conference.{Env, M, ◌>>=◌, ◌>>◌, pure, load, load_room, notify_consumer_closed}
use singal.Conference.Consumers.{
  rand_string, save_router, allocate, store_params, load_params, strip_codec, logged,
  req_other_new_consumer, req_pull_other_new_producer,
}
use singal.Dict.{Dict, lookup}
use singal.Media.{
  CreateTransportReqData, NewDataConsumerReqData, CreateTransportResData, ProduceReqData,
  ConnectTransportReqData,
}
use singal.Proto.{CreateTransportResponse}
use singal.Router.{
  Router, Producer, get_consumer_transport_id, add_producer, get_producer, remove_producer,
  remove_consumer_by_producer_id, save_producer_transport_id, save_consume_transport_id,
}
use singal.Rtc.Media.{Outcome, ok, err, panic}
use singal.Rtc.{
  create_transport_request, create_transport_finish, connect_transport_request,
  connect_transport_finish, create_producer_request, close_producer_request, producer_finish,
  and_then,
}

-- The reply to the client, from the worker's response.
unfoldable pub transport_data : CreateTransportResponse → CreateTransportResData
transport_data res = record {
  transport_id = res.transport_id;
  ice_parameters = record {
    username_fragment = res.ice_ufrag;
    password = res.ice_pwd;
    ice_lite = true;
  };
  ice_candidates =
      map
        (λ v. record {
          foundation = v.foundation;
          priority = v.priority;
          ip = v.ip;
          address = v.ip;
          protocol = v.protocol;
          port = v.port;
          type = "host";
          tcp_type = "";
        })
        res.ice_candidates;
  dtls_parameters = record {
    fingerprints =
        map (λ v. record { algorithm = v.algorithm; value = v.value }) res.dtls_fingerprints;
    role = "auto";
  };
  sctp_parameters = record {
    port = 5000;
    os = 1024;
    mis = 1024;
    max_message_size = 262144;
    send_buffer_size = 262144;
    sctp_buffered_amount = 0;
    is_data_channel = true;
  };
}

-- The switch on the direction: which table of the router takes the transport id.
unfoldable pub save_transport : String → Router → String → String → Option Router
save_transport direction router user_id transport_id =
    if str_eq direction "producer"
    then some (save_producer_transport_id router user_id transport_id)
    else if str_eq direction "consumer"
    then some (save_consume_transport_id router user_id transport_id)
    else none

-- A Go call whose error is returned as it is.
abbrev pub attempt : {A : Type 0} → Outcome A → M (Option A)
attempt o w = elim o [ ok a ↦ ok (some a, w) | err e ↦ ok (none, w) | panic ↦ panic ]

-- The number of the next draw.
abbrev pub next_draw : M ℕ
next_draw w = ok (w.draws, record w { draws = w.draws + 1 })

-- The notices of `CloseProducer`, over the consumers that it removed.
unfoldable pub notify_consumers : Dict ℕ → Dict String → M (Unit {0})
notify_consumers users [] = pure tt
notify_consumers users ((user, consumer_id) ∷ m) = elim (lookup user users) [
  | none ↦ notify_consumers users m
  | some p ↦ do
    notify_consumer_closed p (record { consumer_id = consumer_id })
    notify_consumers users m
]

module _ (env : Env) where
  -- `CreateWebrtcTransport`
  unfoldable pub create_webrtc_transport :
      String → ℕ → CreateTransportReqData → M (Option CreateTransportResData)
  create_webrtc_transport room_id p req = do
    r ← load_room room_id
    u ← load p
    id ← rand_string env 36
    res ← attempt (
        and_then (create_transport_request (some r.router) id)
          λ m. create_transport_finish (env.remote m))
    elim res [
      | none ↦ pure none
      | some t ↦ elim (save_transport req.app_data.direction r.router u.user_id t.transport_id) [
        | none ↦ pure none
        | some router ↦ do save_router room_id router; pure (some (transport_data t))
      ]
    ]

  -- `CreateNewDataConsumer`
  unfoldable pub create_new_data_consumer : String → ℕ → String → M (Option NewDataConsumerReqData)
  create_new_data_consumer room_id p transport_id = do
    r ← load_room room_id
    u ← load p
    elim (str_eq (get_consumer_transport_id r.router u.user_id) transport_id) [
      | true ↦ pure none
      | false ↦ do
        producer_id ← rand_string env 36
        consumer_id ← rand_string env 36
        pure (
            some (record {
              peer_id = "";
              transport_id = get_consumer_transport_id r.router u.user_id;
              data_producer_id = producer_id;
              data_consumer_id = consumer_id;
              sctp_stream_parameters = record { stream_id = 0; orderd = true };
              label = "bot";
              app_data = record { direction = ""; channel = "bot"; source = ""; peer_id = "" };
            }))
    ]

  -- `ConnectWebrtcTransport`
  unfoldable pub connect_webrtc_transport : String → ConnectTransportReqData → M (Option (Unit {0}))
  connect_webrtc_transport room_id req = do
    r ← load_room room_id
    attempt (
        and_then (connect_transport_request (some r.router) req)
          λ m. connect_transport_finish (env.remote m))

  -- `gRtcServer.CreateProducer` as `Produce` calls it: its error is only logged.
  unfoldable pub create_producer : Router → Producer → M (Unit {0})
  create_producer router producer = do
    params ← load_params producer.parameters
    n ← next_draw
    made ← attempt (create_producer_request (some router) producer params (env.rand_uint32 n))
    elim made [
      | none ↦ pure tt
      | some (kept, m) ↦ do
        store_params producer.parameters kept
        logged (producer_finish (env.remote m))
    ]

  -- `Produce`
  unfoldable pub produce : String → ℕ → ProduceReqData → M String
  produce room_id p req = do
    r ← load_room room_id
    u ← load p
    id ← rand_string env 36
    a ← allocate req
    let producer : Producer = record {
      producer_id = id;
      transport_id = req.transport_id;
      kind = req.kind;
      ssrc = 0;
      parameters = a;
    }
    save_router room_id (add_producer r.router u.user_id (some producer))
    store_params a (record req {
      rtp_parameters = record (req.rtp_parameters) {
        media_codecs = map strip_codec req.rtp_parameters.media_codecs;
      };
    })
    create_producer r.router producer
    req_other_new_consumer env room_id p producer
    req_pull_other_new_producer env room_id p producer
    pure id

  -- `CloseProducer`; `none` where the user has no producer of that id.
  unfoldable pub close_producer : String → ℕ → String → M (Option (Unit {0}))
  close_producer room_id p producer_id = do
    r ← load_room room_id
    u ← load p
    elim (get_producer r.router u.user_id producer_id) [
      | none ↦ pure none
      | some q ↦ do
        logged (
            and_then (close_producer_request (some r.router) q) λ m. producer_finish (env.remote m))
        let closed : Router × Dict String =
            remove_consumer_by_producer_id (remove_producer r.router u.user_id producer_id)
              u.user_id producer_id
        save_router room_id closed.0
        notify_consumers r.users closed.1
        pure (some tt)
    ]

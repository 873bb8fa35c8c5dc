-- ===== src/Conference/Handlers.antt =====
-- The handlers of `User` (src/server/user.go). `made` is what `CreateRouterOnWorker` returns if the
-- room has to be created; the data of a message is `none` where it does not decode.
use singal.Common.{
  ℤ, pos, str_eq, if◌then◌else◌, ℕ, Bool, true, false, String, Option, none, some, List, [], ◌∷◌,
}
use singal.Conference.{
  Env, WsMessage, M, ◌>>=◌, ◌>>◌, pure, crash, load, update_user, next_req_id, send, request_of,
  response_of, get_or_create_room, no_data, config, transport, produce_data, peers, produced,
  data_consumer,
}
use singal.Conference.Rooms.{notify_other_users, get_other_users}
use singal.Conference.Consumers.{rand_string}
use singal.Conference.Produce.{
  create_webrtc_transport, create_new_data_consumer, connect_webrtc_transport, produce,
  close_producer,
}
use singal.Media.{
  CreateTransportReqData, ConnectTransportReqData, JoinReqData, ProduceDataReqData, ProduceReqData,
  ProduceResData,
}
use singal.Router.{Router}
use singal.Rtc.Media.{Outcome}

unfoldable pub handle_get_router_rtp_capabilities : ℕ → ℤ → M (Unit {0})
handle_get_router_rtp_capabilities p id = send p (response_of id true config)

module _ (env : Env) (made : Outcome Router) where
  unfoldable pub handle_create_webrtc_transport :
      ℕ → ℤ → Option CreateTransportReqData → M (Unit {0})
  handle_create_webrtc_transport p id body = do
    u ← load p
    room ← get_or_create_room made u.room_id
    elim room [
      | none ↦ send p (response_of id false no_data)
      | some r ↦ elim body [
        | none ↦ send p (response_of id false no_data)
        | some req ↦ do
          res ← create_webrtc_transport env u.room_id p req
          elim res [
            | none ↦ send p (response_of id false no_data)
            | some t ↦ send p (response_of id true (transport t))
          ]
      ]
    ]

  -- The data consumer that a first connect may ask for.
  unfoldable pub offer_data_consumer : ℕ → String → M (Unit {0})
  offer_data_consumer p transport_id = do
    u ← load p
    elim u.new_data_consumer_req [
      | true ↦ pure tt
      | false ↦ do
        offer ← create_new_data_consumer env u.room_id p transport_id
        elim offer [
          | none ↦ pure tt
          | some d ↦ do
            update_user p next_req_id
            send p (request_of (pos u.req_id) "newDataConsumer" (data_consumer d))
            update_user p (λ v. record v { new_data_consumer_req = true })
        ]
    ]

  unfoldable pub handle_connect_webrtc_transport :
      ℕ → ℤ → Option ConnectTransportReqData → M (Unit {0})
  handle_connect_webrtc_transport p id body = do
    u ← load p
    room ← get_or_create_room made u.room_id
    elim room [
      | none ↦ send p (response_of id false no_data)
      | some r ↦ elim body [
        | none ↦ send p (response_of id false no_data)
        | some req ↦ do
          offer_data_consumer p req.transport_id
          connected ← connect_webrtc_transport env u.room_id req
          elim connected [
            | none ↦ send p (response_of id false no_data)
            | some _ ↦
                send p (response_of id true (produce_data (record { data_producer_id = "" })))
          ]
      ]
    ]

  -- Where there is no room, `GetOtherUsers` is called on a nil pointer.
  unfoldable pub handle_join : ℕ → ℤ → Option JoinReqData → M (Unit {0})
  handle_join p id body = do
    u ← load p
    room ← get_or_create_room made u.room_id
    elim room [
      | none ↦ crash
      | some r ↦ do
        elim body [
          | none ↦ pure tt
          | some req ↦
              update_user p (λ v. record v { device = req.device; display_name = req.display_name })
        ]
        notify_other_users u.room_id p
        others ← get_other_users u.room_id p
        send p (response_of id true (peers (record { peers = others })))
    ]

  unfoldable pub handle_produce_data : ℕ → ℤ → Option ProduceDataReqData → M (Unit {0})
  handle_produce_data p id body = do
    u ← load p
    room ← get_or_create_room made u.room_id
    elim room [
      | none ↦ send p (response_of id false no_data)
      | some r ↦ elim body [
        | none ↦ send p (response_of id false no_data)
        | some _ ↦ do
          producer_id ← rand_string env 12
          send p (response_of id true (produce_data (record { data_producer_id = producer_id })))
      ]
    ]

  -- The response says that it succeeded whether or not it did.
  unfoldable pub handle_produce : ℕ → ℤ → Option ProduceReqData → M (Unit {0})
  handle_produce p id body = do
    u ← load p
    room ← get_or_create_room made u.room_id
    elim room [
      | none ↦ send p (response_of id true no_data)
      | some r ↦ elim body [
        | none ↦ send p (response_of id true no_data)
        | some req ↦ do
          producer_id ← produce env u.room_id p req
          send p (response_of id true (produced (record { producer_id = producer_id })))
      ]
    ]

  unfoldable pub handle_close_producer : ℕ → Option ProduceResData → M (Unit {0})
  handle_close_producer p body = do
    u ← load p
    room ← get_or_create_room made u.room_id
    elim room [
      | none ↦ pure tt
      | some r ↦ elim body [
        | none ↦ pure tt
        | some req ↦ do close_producer env u.room_id p req.producer_id; pure tt
      ]
    ]

-- A `WsMessage` that came in. Its data is given by what it decodes to as data of each kind.
pub record Received : Type 0 where
  pub id : ℤ
  pub method : String
  pub as_create_transport : Option CreateTransportReqData
  pub as_connect_transport : Option ConnectTransportReqData
  pub as_join : Option JoinReqData
  pub as_produce_data : Option ProduceDataReqData
  pub as_produce : Option ProduceReqData
  pub as_close_producer : Option ProduceResData

pub data Method : Type 0 where
  get_router_rtp_capabilities create_transport connect_transport join : Method
  produce_data_req produce_req close_producer_req unknown : Method

-- The names in the switch of `ReadMessage`.
unfoldable pub method_of : String → Method
method_of name =
    if str_eq name "getRouterRtpCapabilities"
    then get_router_rtp_capabilities
    else if str_eq name "createWebRtcTransport"
    then create_transport
    else if str_eq name "connectWebRtcTransport"
    then connect_transport
    else if str_eq name "join"
    then join
    else if str_eq name "produceData"
    then produce_data_req
    else if str_eq name "produce"
    then produce_req
    else if str_eq name "closeProducer"
    then close_producer_req
    else unknown

-- One round of `ReadMessage`, for a message that decodes.
unfoldable pub read_message : Env → Outcome Router → ℕ → Received → M (Unit {0})
read_message env made p m = elim (method_of m.method) [
  | get_router_rtp_capabilities ↦ handle_get_router_rtp_capabilities p m.id
  | create_transport ↦ handle_create_webrtc_transport env made p m.id m.as_create_transport
  | connect_transport ↦ handle_connect_webrtc_transport env made p m.id m.as_connect_transport
  | join ↦ handle_join env made p m.id m.as_join
  | produce_data_req ↦ handle_produce_data env made p m.id m.as_produce_data
  | produce_req ↦ handle_produce env made p m.id m.as_produce
  | close_producer_req ↦ handle_close_producer env made p m.as_close_producer
  | unknown ↦ pure tt
]

-- The loop of `ReadMessage` over what the socket gives until it fails; `none` is a message that does
-- not decode, and `made` is for a room that a message has to create.
unfoldable pub read_messages : Env → Outcome Router → ℕ → List (Option Received) → M (Unit {0})
read_messages env made p [] = pure tt
read_messages env made p (none ∷ frames) = read_messages env made p frames
read_messages env made p (some m ∷ frames) = do
  read_message env made p m
  read_messages env made p frames

-- The loop of `WriteMessage` over the channel: the text that each message becomes, `none` where it is
-- not encoded, and whether the socket takes a text. The result is what the client gets, and whether
-- the loop is still running.
unfoldable pub write_messages :
    (WsMessage → Option String) → (String → Bool) → List WsMessage → List String × Bool
write_messages encode writes [] = ([], true)
write_messages encode writes (m ∷ ms) =
    let rest = write_messages encode writes ms in
    elim (encode m) [
      | none ↦ rest
      | some text ↦ if writes text then (text ∷ rest.0, rest.1) else ([], false)
    ]

-- ===== src/Conference/Responses.antt =====
-- The responses of the handlers of `User`.
use singal.Common.{
  ℤ, pos, ℕ, ◌≡◌, refl, Bool, true, false, String, Option, List, [], ◌∷◌, ◌++◌, if◌then◌else◌,
}
use singal.Conference.{
  Env, World, M, pure, next_req_id, response_of, request_of, no_data, config, transport,
  produce_data, peers, produced, data_consumer,
}
use singal.Conference.Answers.{
  Does-close_producer, Does-create_webrtc_transport, Does-create_new_data_consumer,
  Does-connect_webrtc_transport, Does-produce, Does-get_other_users, Does-notify_other_users,
  Does-rand_string,
}
use singal.Conference.Frame.{
  Does, Does-bind, Does-seq, Does-pure, Does-crash, Does-option, Does-test, answers,
}
use singal.Conference.Keeps.{Does-load, Does-update_user, Does-send, Does-get_or_create_room}
use singal.Conference.Handlers.{
  handle_get_router_rtp_capabilities, handle_create_webrtc_transport, offer_data_consumer,
  handle_connect_webrtc_transport, handle_join, handle_produce_data, handle_produce,
  handle_close_producer, Received, Method, method_of, read_message, get_router_rtp_capabilities,
  create_transport, connect_transport, join, produce_data_req, produce_req, close_producer_req,
  unknown,
}
use singal.Media.{
  CreateTransportReqData, ConnectTransportReqData, JoinReqData, ProduceDataReqData, ProduceReqData,
  ProduceResData,
}
use singal.Router.{Router}
use singal.Rtc.Media.{Outcome, ok}

-- The methods that ask for a response.
unfoldable pub is_request : Method → Bool
is_request get_router_rtp_capabilities = true
is_request create_transport = true
is_request connect_transport = true
is_request join = true
is_request produce_data_req = true
is_request produce_req = true
is_request close_producer_req = false
is_request unknown = false

-- The responses that a message from user `p` asks for.
unfoldable pub due : ℕ → Received → List (ℕ × ℤ)
due p m = if is_request (method_of m.method) then (p, m.id) ∷ [] else []

module _ (env : Env) (made : Outcome Router) (p : ℕ) (id : ℤ) where
  Does-handle_create_webrtc_transport :
      (body : Option CreateTransportReqData)
      → Does ((p, id) ∷ []) (handle_create_webrtc_transport env made p id body)
  unfolding handle_create_webrtc_transport
  Does-handle_create_webrtc_transport body = Does-bind (Does-load p) λ u.
      Does-bind (Does-get_or_create_room made u.room_id) λ room.
        Does-option room (Does-send p (response_of id false no_data)) λ r.
          Does-option body (Does-send p (response_of id false no_data)) λ req.
            Does-bind (Does-create_webrtc_transport env u.room_id p req) λ res.
              Does-option res (Does-send p (response_of id false no_data))
                λ t. Does-send p (response_of id true (transport t))

  Does-offer_data_consumer :
      (transport_id : String) → Does [] (offer_data_consumer env made p transport_id)
  unfolding offer_data_consumer
  Does-offer_data_consumer transport_id = Does-bind (Does-load p) λ u.
      Does-test u.new_data_consumer_req (Does-pure tt) (
        Does-bind (Does-create_new_data_consumer env u.room_id p transport_id) λ offer.
          Does-option offer (Does-pure tt) λ d.
            Does-seq (Does-update_user p next_req_id λ v. refl) (
              Does-seq (Does-send p (request_of (pos u.req_id) "newDataConsumer" (data_consumer d)))
                (Does-update_user p (λ v. record v { new_data_consumer_req = true }) λ v. refl)))

  Does-handle_connect_webrtc_transport :
      (body : Option ConnectTransportReqData)
      → Does ((p, id) ∷ []) (handle_connect_webrtc_transport env made p id body)
  unfolding handle_connect_webrtc_transport
  Does-handle_connect_webrtc_transport body = Does-bind (Does-load p) λ u.
      Does-bind (Does-get_or_create_room made u.room_id) λ room.
        Does-option room (Does-send p (response_of id false no_data)) λ r.
          Does-option body (Does-send p (response_of id false no_data)) λ req.
            Does-seq (Does-offer_data_consumer req.transport_id) (
              Does-bind (Does-connect_webrtc_transport env u.room_id req) λ connected.
                Does-option connected (Does-send p (response_of id false no_data)) λ done.
                  Does-send p
                    (response_of id true (produce_data (record { data_producer_id = "" }))))

  Does-handle_join :
      (body : Option JoinReqData) → Does ((p, id) ∷ []) (handle_join env made p id body)
  unfolding handle_join
  Does-handle_join body = Does-bind (Does-load p) λ u.
      Does-bind (Does-get_or_create_room made u.room_id) λ room.
        Does-option room (Does-crash ((p, id) ∷ [])) λ r.
          Does-seq
            (Does-option body (Does-pure tt) λ req.
              Does-update_user p
                (λ v. record v { device = req.device; display_name = req.display_name }) λ v. refl)
            (Does-seq (Does-notify_other_users u.room_id p) (
              Does-bind (Does-get_other_users u.room_id p)
                λ others. Does-send p (response_of id true (peers (record { peers = others })))))

  Does-handle_produce_data :
      (body : Option ProduceDataReqData)
      → Does ((p, id) ∷ []) (handle_produce_data env made p id body)
  unfolding handle_produce_data
  Does-handle_produce_data body = Does-bind (Does-load p) λ u.
      Does-bind (Does-get_or_create_room made u.room_id) λ room.
        Does-option room (Does-send p (response_of id false no_data)) λ r.
          Does-option body (Does-send p (response_of id false no_data)) λ req.
            Does-bind (Does-rand_string env 12) λ n.
              Does-send p (response_of id true (produce_data (record { data_producer_id = n })))

  Does-handle_produce :
      (body : Option ProduceReqData) → Does ((p, id) ∷ []) (handle_produce env made p id body)
  unfolding handle_produce
  Does-handle_produce body = Does-bind (Does-load p) λ u.
      Does-bind (Does-get_or_create_room made u.room_id) λ room.
        Does-option room (Does-send p (response_of id true no_data)) λ r.
          Does-option body (Does-send p (response_of id true no_data)) λ req.
            Does-bind (Does-produce env u.room_id p req)
              λ n. Does-send p (response_of id true (produced (record { producer_id = n })))

  Does-handle_close_producer :
      (body : Option ProduceResData) → Does [] (handle_close_producer env made p body)
  unfolding handle_close_producer
  Does-handle_close_producer body = Does-bind (Does-load p) λ u.
      Does-bind (Does-get_or_create_room made u.room_id) λ room.
        Does-option room (Does-pure tt) λ r.
          Does-option body (Does-pure tt)
            λ req. Does-seq (Does-close_producer env u.room_id p req.producer_id) (Does-pure tt)

Does-config : (p : ℕ) (id : ℤ) → Does ((p, id) ∷ []) (handle_get_router_rtp_capabilities p id)
unfolding handle_get_router_rtp_capabilities
Does-config p id = Does-send p (response_of id true config)

module _ (env : Env) (made : Outcome Router) (p : ℕ) (m : Received) where
  pub Does-read_message : Does (due p m) (read_message env made p m)
  unfolding read_message due is_request
  Does-read_message = go (method_of m.method)
    where
      go :
          (k : Method)
          → Does (if is_request k then (p, m.id) ∷ [] else []) (elim k as (λ _. M (Unit {0})) [
            | get_router_rtp_capabilities ↦ handle_get_router_rtp_capabilities p m.id
            | create_transport ↦
                handle_create_webrtc_transport env made p m.id m.as_create_transport
            | connect_transport ↦
                handle_connect_webrtc_transport env made p m.id m.as_connect_transport
            | join ↦ handle_join env made p m.id m.as_join
            | produce_data_req ↦ handle_produce_data env made p m.id m.as_produce_data
            | produce_req ↦ handle_produce env made p m.id m.as_produce
            | close_producer_req ↦ handle_close_producer env made p m.as_close_producer
            | unknown ↦ pure tt
          ])
      go get_router_rtp_capabilities = Does-config p m.id
      go create_transport =
          Does-handle_create_webrtc_transport env made p m.id m.as_create_transport
      go connect_transport =
          Does-handle_connect_webrtc_transport env made p m.id m.as_connect_transport
      go join = Does-handle_join env made p m.id m.as_join
      go produce_data_req = Does-handle_produce_data env made p m.id m.as_produce_data
      go produce_req = Does-handle_produce env made p m.id m.as_produce
      go close_producer_req = Does-handle_close_producer env made p (pos 0) m.as_close_producer
      go unknown = Does-pure tt

  -- Where the handling of a message comes back, it put one response with the id of the message in
  -- the channel of the sender if the message is one of the six kinds that ask for a response, and
  -- no response to anyone if it is not.
  pub answers-read_message :
      (w w' : World)
      → read_message env made p m w ≡ ok (tt, w')
      → answers w'.sent ≡ due p m ++ answers w.sent
  answers-read_message w w' e = (Does-read_message.at w w' tt e).answered

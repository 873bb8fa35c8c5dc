-- ===== src/Conference/Answers.antt =====
-- The frame of each method of `Room` and each handler of `User`.
use singal.Common.{pos, ℕ, refl, Bool, true, String, none, some, List, [], ◌∷◌, arith, map, str_eq}
use singal.Conference.{
  Env, User, send_request, request_of, Payload, notify_new_peer, request_new_consumer,
  notify_consumer_closed, next_req_id, consumer,
}
use singal.Conference.Frame.{
  Does, Does-bind, Does-seq, Does-same, Does-pure, Does-test, Does-option,
}
use singal.Conference.Keeps.{
  Does-load, Does-load_room, Does-update_user, Does-send, Does-save_router,
}
use singal.Conference.Consumers.{
  rand_string, lift, logged, load_params, store_params, allocate, consumer_codecs, strip_codec,
  create_new_consumer_data, new_consumer, pull_producers, pull_users, push_users,
  req_pull_other_new_producer, req_other_new_consumer,
}
use singal.Conference.Rooms.{other_peers, get_other_users, notify_others, notify_other_users}
use singal.Conference.Produce.{
  attempt, next_draw, notify_consumers, create_webrtc_transport, create_new_data_consumer,
  connect_webrtc_transport, create_producer, produce, close_producer, save_transport,
  transport_data,
}
use singal.Dict.{Dict, lookup}
use singal.Media.{PeerData, ProduceReqData, CreateTransportReqData, ConnectTransportReqData}
use singal.Router.{
  Router, Producer, Consumer, add_consumer, add_producer, get_consumer_transport_id, get_producer,
  remove_producer, remove_consumer_by_producer_id,
}
use singal.Rtc.{
  create_producer_request, create_transport_request, create_transport_finish, producer_finish,
  and_then,
}
use singal.Rtc.Media.{Outcome}

Does-lift : {A : Type 0} (o : Outcome A) → Does [] (lift o)
Does-lift o = Does-same (lift o) λ w w' a e. ground (arith, e)

pub Does-logged : {A : Type 0} (o : Outcome A) → Does [] (logged o)
Does-logged o = Does-same (logged o) λ w w' a e. ground (arith, e)

Does-attempt : {A : Type 0} (o : Outcome A) → Does [] (attempt o)
Does-attempt o = Does-same (attempt o) λ w w' a e. ground (arith, e)

Does-load_params : (a : ℕ) → Does [] (load_params a)
Does-load_params a = Does-same (load_params a) λ w w' d e. ground (arith, e)

Does-store_params : (a : ℕ) (d : ProduceReqData) → Does [] (store_params a d)
Does-store_params a d = Does-same (store_params a d) λ w w' b e. ground (arith, e)

Does-allocate : (d : ProduceReqData) → Does [] (allocate d)
Does-allocate d = Does-same (allocate d) λ w w' b e. ground (arith, e)

Does-next_draw : Does [] next_draw
Does-next_draw = Does-same next_draw λ w w' b e. ground (arith, e)

pub Does-rand_string : (env : Env) (n : ℕ) → Does [] (rand_string env n)
Does-rand_string env n = Does-same (rand_string env n) λ w w' b e. ground (arith, e)

Does-send_request :
    (p : ℕ) (method : String) (body : Payload) → Does [] (send_request p method body)
Does-send_request p method body = Does-bind (Does-load p) λ u.
    Does-seq (Does-update_user p next_req_id λ v. refl)
      (Does-send p (request_of (pos u.req_id) method body))

Does-notify_new_peer : (p : ℕ) (d : PeerData) → Does [] (notify_new_peer p d)
unfolding notify_new_peer
Does-notify_new_peer p d = Does-send p _

Does-notify_others : (user : String) (d : PeerData) (m : Dict ℕ) → Does [] (notify_others user d m)
unfolding notify_others
Does-notify_others user d [] = Does-pure tt
Does-notify_others user d ((k, p) ∷ m) =
    Does-test (str_eq k user) (Does-notify_others user d m)
      (Does-seq (Does-notify_new_peer p d) (Does-notify_others user d m))

pub Does-notify_other_users : (id : String) (p : ℕ) → Does [] (notify_other_users id p)
unfolding notify_other_users
Does-notify_other_users id p =
    Does-bind (Does-load_room id) λ r. Does-bind (Does-load p) λ u. Does-notify_others _ _ r.users

Does-other_peers : (user : String) (m : Dict ℕ) → Does [] (other_peers user m)
unfolding other_peers
Does-other_peers user [] = Does-pure _
Does-other_peers user ((k, p) ∷ m) =
    Does-test (str_eq k user) (Does-other_peers user m)
      (Does-bind (Does-load p) λ u. Does-bind (Does-other_peers user m) λ rest. Does-pure _)

pub Does-get_other_users : (id : String) (p : ℕ) → Does [] (get_other_users id p)
unfolding get_other_users
Does-get_other_users id p =
    Does-bind (Does-load_room id) λ r. Does-bind (Does-load p) λ u. Does-other_peers _ r.users

Does-notify_consumers : (users : Dict ℕ) (m : Dict String) → Does [] (notify_consumers users m)
unfolding notify_consumers notify_consumer_closed
Does-notify_consumers users [] = Does-pure tt
Does-notify_consumers users ((user, id) ∷ m) =
    Does-option (lookup user users) (Does-notify_consumers users m)
      λ p. Does-seq (Does-send p _) (Does-notify_consumers users m)

module _ (env : Env) where
  Does-create_new_consumer_data :
      (id : String) (c : Consumer) (q : Producer) (peer_id user_id : String)
      → Does [] (create_new_consumer_data env id c q peer_id user_id)
  unfolding create_new_consumer_data
  Does-create_new_consumer_data id c q peer_id user_id = Does-bind (Does-load_room id) λ r.
      Does-bind (Does-load_params q.parameters) λ d.
        Does-bind (Does-test (str_eq c.kind "video") (Does-rand_string env 20) (Does-pure _)) λ n.
          Does-bind (Does-lift (consumer_codecs c.kind d.rtp_parameters.media_codecs)) λ codecs.
            Does-seq (Does-logged _) (Does-seq (Does-store_params q.parameters _) (Does-pure _))

  Does-pull_producers :
      (id : String) (p : ℕ) (u : User) (kind peer_id : String) (qs : List Producer)
      → Does [] (pull_producers env id p u kind peer_id qs)
  unfolding pull_producers request_new_consumer
  Does-pull_producers id p u kind peer_id [] = Does-pure tt
  Does-pull_producers id p u kind peer_id (q ∷ qs) =
      Does-test (str_eq q.kind kind)
        (Does-bind (Does-load_room id) λ r. Does-bind (Does-rand_string env 36) λ n.
          let c : Consumer =
            new_consumer env n (get_consumer_transport_id r.router u.user_id) q.producer_id kind in
          let added : Router × Bool = add_consumer r.router u.user_id (some c) in
          Does-seq (Does-save_router id added.0) (
            Does-seq
              (Does-test added.1
                (Does-bind (Does-create_new_consumer_data id c q peer_id u.user_id)
                  λ d. Does-send_request p "newConsumer" (consumer d))
                (Does-pure tt))
              (Does-pull_producers id p u kind peer_id qs)))
        (Does-pull_producers id p u kind peer_id qs)

  Does-pull_users :
      (id : String) (p : ℕ) (u : User) (kind : String) (m : Dict ℕ)
      → Does [] (pull_users env id p u kind m)
  unfolding pull_users
  Does-pull_users id p u kind [] = Does-pure tt
  Does-pull_users id p u kind ((k, v) ∷ m) =
      Does-test (str_eq k u.user_id) (Does-pull_users id p u kind m) (
        Does-bind (Does-load_room id) λ r. Does-bind (Does-load v) λ other.
          Does-seq (Does-pull_producers id p u kind other.peer_id _)
            (Does-pull_users id p u kind m))

  Does-push_users :
      (id : String) (u : User) (q : Producer) (m : Dict ℕ) → Does [] (push_users env id u q m)
  unfolding push_users request_new_consumer
  Does-push_users id u q [] = Does-pure tt
  Does-push_users id u q ((k, v) ∷ m) = Does-test (str_eq k u.user_id) (Does-push_users id u q m) (
      Does-bind (Does-load_room id) λ r. Does-bind (Does-load v) λ other.
        Does-bind (Does-rand_string env 36) λ n.
          let c : Consumer =
            new_consumer env n (get_consumer_transport_id r.router other.user_id) q.producer_id
              q.kind in
          Does-seq (Does-save_router id (add_consumer r.router other.user_id (some c)).0) (
            Does-bind (Does-create_new_consumer_data id c q u.peer_id other.user_id) λ d.
              Does-seq (Does-send_request v "newConsumer" (consumer d)) (Does-push_users id u q m)))

  Does-create_producer : (router : Router) (q : Producer) → Does [] (create_producer env router q)
  unfolding create_producer
  Does-create_producer router q = Does-bind (Does-load_params q.parameters) λ d.
      Does-bind Does-next_draw λ n.
        Does-bind (Does-attempt (create_producer_request (some router) q d (env.rand_uint32 n)))
          λ made. Does-option made (Does-pure tt) λ x.
            Does-seq (Does-store_params q.parameters x.0)
              (Does-logged (producer_finish (env.remote x.1)))

  Does-req_other_new_consumer :
      (id : String) (p : ℕ) (q : Producer) → Does [] (req_other_new_consumer env id p q)
  unfolding req_other_new_consumer
  Does-req_other_new_consumer id p q =
      Does-bind (Does-load_room id) λ r. Does-bind (Does-load p) λ u. Does-push_users id u q r.users

  Does-req_pull_other_new_producer :
      (id : String) (p : ℕ) (q : Producer) → Does [] (req_pull_other_new_producer env id p q)
  unfolding req_pull_other_new_producer
  Does-req_pull_other_new_producer id p q =
      Does-bind (Does-load_room id)
        λ r. Does-bind (Does-load p) λ u. Does-pull_users id p u q.kind r.users

  pub Does-produce : (id : String) (p : ℕ) (req : ProduceReqData) → Does [] (produce env id p req)
  unfolding produce
  Does-produce id p req = Does-bind (Does-load_room id) λ r. Does-bind (Does-load p) λ u.
      Does-bind (Does-rand_string env 36) λ n. Does-bind (Does-allocate req) λ a.
        let q : Producer = record {
          producer_id = n;
          transport_id = req.transport_id;
          kind = req.kind;
          ssrc = 0;
          parameters = a;
        } in
        let kept : ProduceReqData = record req {
          rtp_parameters = record (req.rtp_parameters) {
            media_codecs = map strip_codec req.rtp_parameters.media_codecs;
          };
        } in
        Does-seq (Does-save_router id (add_producer r.router u.user_id (some q))) (
          Does-seq (Does-store_params a kept) (
            Does-seq (Does-create_producer r.router q) (
              Does-seq (Does-req_other_new_consumer id p q)
                (Does-seq (Does-req_pull_other_new_producer id p q) (Does-pure n)))))

  pub Does-close_producer :
      (id : String) (p : ℕ) (producer_id : String) → Does [] (close_producer env id p producer_id)
  unfolding close_producer
  Does-close_producer id p producer_id = Does-bind (Does-load_room id) λ r.
      Does-bind (Does-load p) λ u.
        let closed : Router × Dict String =
          remove_consumer_by_producer_id (remove_producer r.router u.user_id producer_id) u.user_id
            producer_id in
        Does-option (get_producer r.router u.user_id producer_id) (Does-pure none) λ q.
          Does-seq (Does-logged _) (
            Does-seq (Does-save_router id closed.0)
              (Does-seq (Does-notify_consumers r.users closed.1) (Does-pure (some tt))))

  pub Does-create_webrtc_transport :
      (id : String) (p : ℕ) (req : CreateTransportReqData)
      → Does [] (create_webrtc_transport env id p req)
  unfolding create_webrtc_transport
  Does-create_webrtc_transport id p req = Does-bind (Does-load_room id) λ r.
      Does-bind (Does-load p) λ u. Does-bind (Does-rand_string env 36) λ n.
        Does-bind
          (Does-attempt (
            and_then (create_transport_request (some r.router) n)
              λ m. create_transport_finish (env.remote m)))
          λ res. Does-option res (Does-pure none) λ t.
            Does-option (save_transport req.app_data.direction r.router u.user_id t.transport_id)
              (Does-pure none)
              λ router. Does-seq (Does-save_router id router) (Does-pure (some (transport_data t)))

  pub Does-create_new_data_consumer :
      (id : String) (p : ℕ) (transport_id : String)
      → Does [] (create_new_data_consumer env id p transport_id)
  unfolding create_new_data_consumer
  Does-create_new_data_consumer id p transport_id = Does-bind (Does-load_room id) λ r.
      Does-bind (Does-load p) λ u.
        Does-test (str_eq (get_consumer_transport_id r.router u.user_id) transport_id)
          (Does-pure none)
          (Does-bind (Does-rand_string env 36) λ n. Does-bind (Does-rand_string env 36) λ k.
            Does-pure (
              some (record {
                peer_id = "";
                transport_id = get_consumer_transport_id r.router u.user_id;
                data_producer_id = n;
                data_consumer_id = k;
                sctp_stream_parameters = record { stream_id = 0; orderd = true };
                label = "bot";
                app_data = record { direction = ""; channel = "bot"; source = ""; peer_id = "" };
              })))

  pub Does-connect_webrtc_transport :
      (id : String) (req : ConnectTransportReqData) → Does [] (connect_webrtc_transport env id req)
  unfolding connect_webrtc_transport
  Does-connect_webrtc_transport id req = Does-bind (Does-load_room id) λ r. Does-attempt _

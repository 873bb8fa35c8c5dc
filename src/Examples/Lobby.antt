-- ===== src/Examples/Lobby.antt =====
-- A lobby that two users enter.
use singal.Common.{
  pos, ℕ, zero, suc, arith, inl, ◌≡◌, ◌≢◌, str_ne, Elem, refl, true, false, String, none, some,
  Option, get_elem?, List, [], ◌∷◌,
}
use singal.Conference.{
  User, Room, World, response_of, notification_of, peers, peer_data, consumed, config, blocked,
}
use singal.Conference.Connections.{leave_room, unregister, has_user, open_user, register}
use singal.Conference.Frame.{answers, members}
use singal.Conference.Handlers.{
  Received, method_of, read_message, read_messages, handle_get_router_rtp_capabilities, handle_join,
  handle_close_producer,
}
use singal.Conference.Closing.{handle_close_producer-told, close_call}
use singal.Conference.Entering.{connect-seated}
use singal.Conference.{new_room}
use singal.Conference.Late.{connect-handle_join}
use singal.Conference.Joining.{handle_events-handle_join, IsRead}
use singal.Conference.Window.{handle_join-closed_world}
use singal.Conference.Leaving.{closed_world}
use singal.Conference.Blocked.{handle_events-blocked}
use singal.Conference.Responses.{due, is_request}
use singal.Conference.Sockets.{answers-read_messages, all_due}
use singal.Conference.Rooms.{add_user, peer_of}
use singal.Conference.Sessions.{
  Event, connect, receive, disconnect, write_fails, handle_event, handle_events, start,
  handle_events-seated,
}
use singal.Conference.Notices.{profiles}
use singal.Conference.Steps.{announce, others}
use singal.Conference.{get_or_create_room}
use singal.Dict.{lookup, insert}
use singal.Examples.Rooms.{offline_env}
use singal.Examples.Routers.{busy_router, camera, of_camera}
use singal.Media.{JoinReqData, RtpCapabilities}
use singal.Router.{get_consumer_by_id, get_producer, find_producer, find_consumer}
use singal.Rtc.{valid_router, close_producer_request, producer_finish, read_answer}
use singal.Rtc.Media.{ok, err, panic}

abbrev pub guest : String → User
guest id = record {
  user_id = id;
  peer_id = id;
  display_name = "";
  room_id = "lobby";
  device = none;
  remote_address = "192.0.2.7";
  req_id = 0;
  new_data_consumer_req = false;
  closed = false;
  writing = true;
}

abbrev pub two_guests : List Event
two_guests =
    connect "ann" "ann" "lobby" "192.0.2.7" 0 (ok busy_router)
    ∷ connect "bob" "bob" "lobby" "192.0.2.7" 0 (ok busy_router)
    ∷ []

abbrev pub lobby : Room
lobby = record { room_id = "lobby"; router = busy_router; users = ("ann", 0) ∷ ("bob", 1) ∷ [] }

abbrev pub full_world : World
full_world = record {
  rooms = ("lobby", lobby) ∷ [];
  users = guest "ann" ∷ guest "bob" ∷ [];
  store = [];
  online = 1 ∷ 0 ∷ [];
  sent = [];
  draws = 0;
}

pub two_guests_run : handle_events offline_env two_guests start ≡ ok (tt, full_world)
unfolding handle_events open_user register get_or_create_room add_user lookup insert
two_guests_run = refl

handle_events-seated_example :
    (u : User) × (get_elem? full_world.users 1 ≡ some u)
    × (u.user_id ≡ "bob")
    × (u.room_id ≡ "lobby")
    × (u.closed ≡ false)
    × (has_user 1 full_world.online ≡ true)
unfolding lookup
handle_events-seated_example =
    handle_events-seated offline_env two_guests full_world "lobby" "bob" lobby 1 two_guests_run refl
      refl

abbrev pub no_capabilities : RtpCapabilities
no_capabilities = record {
  mid = "";
  media_codecs = [];
  header_extensions = [];
  encodings = [];
  rtcp = record { c_name = ""; reduced_size = false };
  msid = "";
}

abbrev named_bob : JoinReqData
named_bob = record { display_name = "Bob"; device = none; rtp_capabilities = no_capabilities }

handle_events-handle_join_example :
    handle_join offline_env (ok busy_router) 1 (pos 7) (some named_bob) full_world
    ≡ ok (
      tt,
      record full_world {
        users = guest "ann" ∷ record (guest "bob") { display_name = "Bob" } ∷ [];
        sent =
            (1, response_of (pos 7) true (peers (record { peers = peer_of (guest "ann") ∷ [] })))
            ∷ (
              0,
              notification_of "newPeer" (
                  peer_data
                    (record { peer = peer_of (record (guest "bob") { display_name = "Bob" }) })),
            )
            ∷ [];
      },
    )
unfolding lookup others announce profiles
handle_events-handle_join_example =
    handle_events-handle_join offline_env (ok busy_router) two_guests full_world 1 (pos 7) named_bob
      (guest "bob") lobby two_guests_run refl refl refl refl ((guest "ann", refl, refl), tt)

abbrev ask_config : Received
ask_config = record {
  id = pos 3;
  method = "getRouterRtpCapabilities";
  as_create_transport = none;
  as_connect_transport = none;
  as_join = none;
  as_produce_data = none;
  as_produce = none;
  as_close_producer = none;
}

abbrev two_frames : List (Option Received)
two_frames = some ask_config ∷ none ∷ some (record ask_config { id = pos 4 }) ∷ []

answers-read_messages_example :
    answers ((0, response_of (pos 4) true config) ∷ (0, response_of (pos 3) true config) ∷ [])
    ≡ (0, pos 4) ∷ (0, pos 3) ∷ []
unfolding answers due all_due is_request read_message read_messages method_of
    handle_get_router_rtp_capabilities
answers-read_messages_example =
    answers-read_messages offline_env (ok busy_router) 0 two_frames full_world
      (record full_world {
        sent = (0, response_of (pos 4) true config) ∷ (0, response_of (pos 3) true config) ∷ [];
      })
      refl

close_call_answers : close_call offline_env busy_router camera ≢ panic
unfolding close_producer_request producer_finish read_answer valid_router
close_call_answers = cc

-- The writers of both guests run.
both-IsRead : (user : String) (v : ℕ) → lookup user lobby.users ≡ some v → IsRead full_world v
unfolding lookup
both-IsRead user zero h = (guest "ann", refl, refl)
both-IsRead user (suc zero) h = (guest "bob", refl, refl)
both-IsRead user (suc (suc v)) h = absurd (ground (arith, h))

handle_events-blocked_example :
    handle_events offline_env (write_fails 0 ∷ disconnect 1 (ok busy_router) ∷ []) full_world
    ≡ err blocked
unfolding lookup others
handle_events-blocked_example =
    handle_events-blocked offline_env (ok busy_router) two_guests [] 1 0 lobby (guest "bob")
      full_world two_guests_run refl refl refl (inl refl)

handle_join-closed_world_example :
    (unregister offline_env (ok busy_router) 0 full_world
      ≡ leave_room offline_env (ok busy_router) 0 (closed_world 0 (guest "ann") full_world))
    × (handle_join offline_env
          (ok busy_router)
          1
          (pos 7)
          (some named_bob)
          (closed_world 0 (guest "ann") full_world)
        ≡ panic)
unfolding lookup others
handle_join-closed_world_example =
    handle_join-closed_world offline_env (ok busy_router) two_guests full_world 0 1 (pos 7)
      named_bob (guest "ann") (guest "bob") lobby two_guests_run refl refl refl refl (inl refl)
      ((guest "ann", refl, refl), tt)

connect-seated_example :
    (w' : World) × (handle_event offline_env
        (connect "cay" "cay" "lobby" "192.0.2.8" 0 (ok busy_router))
        full_world
      ≡ ok (tt, w'))
    × (lookup "cay" (members (lookup "lobby" w'.rooms)) ≡ some 2)
    × (has_user 2 w'.online ≡ true)
unfolding lookup
connect-seated_example =
    connect-seated offline_env "cay" "cay" "lobby" "192.0.2.8" 0 busy_router full_world refl

handle_close_producer-told_example :
    (w' : World) × (handle_close_producer offline_env
        (ok busy_router)
        0
        (some (record { producer_id = "cam" }))
        full_world
      ≡ ok (tt, w'))
    × Elem (1, notification_of "consumerClosed" (consumed (record { consumer_id = "c1" }))) w'.sent
unfolding lookup get_producer find_producer find_consumer get_consumer_by_id
handle_close_producer-told_example =
    handle_close_producer-told offline_env (ok busy_router) two_guests full_world 0 (guest "ann")
      lobby camera (record { producer_id = "cam" }) "bob" 1 of_camera two_guests_run refl refl refl
      close_call_answers both-IsRead (refl, tt) (str_ne "bob" "ann" refl) refl refl

abbrev ask_join : Received
ask_join = record {
  id = pos 7;
  method = "join";
  as_create_transport = none;
  as_connect_transport = none;
  as_join = some named_bob;
  as_produce_data = none;
  as_produce = none;
  as_close_producer = none;
}

connect-handle_join_example :
    (w' : World) × (handle_events offline_env
        (connect "cay" "cay" "attic" "192.0.2.8" 0 (err "no available worker")
          ∷ receive 2 ask_join (ok busy_router)
          ∷ [])
        full_world
      ≡ ok (tt, w'))
    × Elem (2, response_of (pos 7) true (peers (record { peers = [] }))) w'.sent
    × (has_user 2 w'.online ≡ true)
    × (lookup "attic" w'.rooms ≡ some (new_room "attic" busy_router))
unfolding lookup method_of
connect-handle_join_example =
    connect-handle_join offline_env "cay" "cay" "attic" "192.0.2.8" "no available worker" 0
      busy_router ask_join named_bob full_world refl refl refl

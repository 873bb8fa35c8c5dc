-- ===== src/Examples/Rooms.antt =====
-- A room of two users.
use singal.Common.{ℕ, arith, ◌≢◌, ◌≡◌, refl, true, false, String, none, some, [], ◌∷◌}
use singal.Dict.{lookup, insert, delete}
use singal.Conference.{Env, User, Room, World, notification_of, peer}
use singal.Conference.Rooms.{closed_peer}
use singal.Conference.Consumers.{remove_feedback_remb, remb_loop}
use singal.Conference.Cells.{index_loop, index_loop_lem}
use singal.Conference.Feedback.{remove_feedback_remb_lem, kept, copies}
use singal.Conference.Steps.{announce, others}
use singal.Conference.Leaving.{unregister-others, unregister_last, closed_world}
use singal.Conference.Connections.{unregister}
use singal.Rtc.{router_answer, read_answer}
use singal.Rtc.{refused}
use singal.Rtc.Media.{ok, err, panic}
use singal.Server.{worker_offline}
use singal.Examples.Routers.{busy_router}

abbrev user_of : String → String → User
user_of id room_id = record {
  user_id = id;
  peer_id = id;
  display_name = id;
  room_id = room_id;
  device = none;
  remote_address = "192.0.2.7";
  req_id = 0;
  new_data_consumer_req = false;
  closed = false;
  writing = true;
}

abbrev lobby : Room
lobby = record { room_id = "lobby"; router = busy_router; users = ("ann", 0) ∷ ("bob", 1) ∷ [] }

-- Eve's room does not exist.
abbrev world : World
world = record {
  rooms = ("lobby", lobby) ∷ [];
  users = user_of "ann" "lobby" ∷ user_of "bob" "lobby" ∷ user_of "eve" "attic" ∷ [];
  store = [];
  online = 0 ∷ 1 ∷ 2 ∷ [];
  sent = [];
  draws = 0;
}

abbrev pub offline_env : Env
offline_env = record {
  rand_string = λ n m. "id";
  rand_uint32 = λ n k. 1;
  itoa = λ n. "0";
  contains = λ s t. false;
  remote = λ m. refused worker_offline;
}

remove_feedback_remb_lem_example :
    remove_feedback_remb (
      record { type = "nack"; parameter = "" } ∷ record { type = "goog-remb"; parameter = "" } ∷ [])
    ≡ record { type = "nack"; parameter = "" } ∷ record { type = "goog-remb"; parameter = "" } ∷ []
unfolding kept copies
remove_feedback_remb_lem_example =
    remove_feedback_remb_lem (record { type = "nack"; parameter = "" })
      (record { type = "goog-remb"; parameter = "" } ∷ [])

not_a_panic : router_answer (refused worker_offline) ≢ panic
unfolding read_answer
not_a_panic = cc

different : ◌≢◌ {A = ℕ} 1 0
different = omega arith

unregister-others_example :
    let w' : World = record (closed_world 1 (user_of "bob" "lobby") world) {
      rooms = ("lobby", record lobby { users = ("ann", 0) ∷ [] }) ∷ [];
      sent = (0, notification_of "peerClosed" (peer (closed_peer (user_of "bob" "lobby")))) ∷ [];
    } in
    (unregister offline_env (err "offline") 1 world ≡ ok (tt, w'))
    × (unregister offline_env (err "offline") 1 w' ≡ ok (tt, w'))
unfolding lookup insert delete others announce
unregister-others_example =
    unregister-others offline_env (err "offline") 1 lobby (user_of "bob" "lobby") world 0 [] refl
      refl refl refl (((user_of "ann" "lobby", refl, refl, refl), different), tt)

abbrev alone : World
alone = record world { rooms = ("lobby", record lobby { users = ("bob", 1) ∷ [] }) ∷ [] }

unregister_last_example :
    let w' : World = record (closed_world 1 (user_of "bob" "lobby") alone) {
      rooms = [];
      draws = 1;
    } in
    (unregister offline_env (err "offline") 1 alone ≡ ok (tt, w'))
    × (lookup "lobby" w'.rooms ≡ none)
unfolding lookup delete others
unregister_last_example =
    unregister_last offline_env (err "offline") 1 (record lobby { users = ("bob", 1) ∷ [] })
      (user_of "bob" "lobby") alone refl refl refl refl not_a_panic

index_loop_lem_example :
    index_loop 3 0 2 (
      record { type = "goog-remb"; parameter = "" } ∷ record { type = "nack"; parameter = "" } ∷ [])
    ≡ some
        (record { type = "nack"; parameter = "" } ∷ record { type = "nack"; parameter = "" } ∷ [])
unfolding remove_feedback_remb remb_loop
index_loop_lem_example =
    index_loop_lem
      (record { type = "goog-remb"; parameter = "" }
        ∷ record { type = "nack"; parameter = "" }
        ∷ [])
      3 (omega arith)

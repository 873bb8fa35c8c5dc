-- ===== src/Conference/Connections.antt =====
-- `WsServer` (src/server/wssServer.go): a connection opens a user, and its end takes the user out.
use singal.Common.{
  ℕ, Bool, true, false, String, none, some, List, [], ◌∷◌, ◌++◌, ◌==◌, if◌then◌else◌, length,
}
use singal.Conference.{Env}
use singal.Conference.{
  M, ◌>>=◌, ◌>>◌, pure, load, update_user, load_room, get_or_create_room, delete_room,
}
use singal.Conference.Rooms.{add_user, delete_user, get_user_nums}
use singal.Conference.Consumers.{rand_string, logged}
use singal.Rtc.{close_router_request, router_answer}
use singal.Router.{Router}
use singal.Rtc.Media.{Outcome, ok}

abbrev pub has_user : ℕ → List ℕ → Bool
has_user p [] = false
has_user p (q ∷ qs) = if q == p then true else has_user p qs

abbrev pub drop_user : ℕ → List ℕ → List ℕ
drop_user p [] = []
drop_user p (q ∷ qs) = let rest = drop_user p qs in if q == p then rest else q ∷ rest

-- `HandleWebSocket` up to the registration: the new user, whose id is made from the time, and whose
-- first request id is random.
unfoldable pub open_user : String → String → String → String → ℕ → M ℕ
open_user user_id peer_id room_id remote_address req_id w = ok (
  length w.users,
  record w {
    users =
        w.users
        ++ record {
          user_id = user_id;
          peer_id = peer_id;
          display_name = "";
          room_id = room_id;
          device = none;
          remote_address = remote_address;
          req_id = req_id;
          new_data_consumer_req = false;
          closed = false;
          writing = true;
        }
          ∷ [];
  },
)

-- `WriteMessage` returns, since a write to the connection failed.
unfoldable pub stop_writing : ℕ → M (Unit {0})
stop_writing p = update_user p λ u. record u { writing = false }

-- The case `Register` of `Run`.
unfoldable pub register : Outcome Router → ℕ → M (Unit {0})
register made p = do
  u ← load p
  (λ w. ok (tt, record w { online = p ∷ drop_user p w.online }))
  room ← get_or_create_room made u.room_id
  elim room [ none ↦ pure tt | some r ↦ add_user u.room_id p ]

module _ (env : Env) (made : Outcome Router) where
  -- `room.Close()`: the error of `CloseRouterOnWorker` is only logged.
  unfoldable pub close_room : Router → M (Unit {0})
  close_room router = do
    server_id ← rand_string env 10
    logged (router_answer (env.remote (close_router_request router server_id)))

  -- The rest of the case `Unregister`, for a user whose channel has been closed.
  unfoldable pub leave_room : ℕ → M (Unit {0})
  leave_room p = do
    u ← load p
    room ← get_or_create_room made u.room_id
    elim room [
      | none ↦ pure tt
      | some r ↦ do
        delete_user u.room_id p
        left ← load_room u.room_id
        elim (get_user_nums left == 0) [
          | true ↦ do close_room left.router; delete_room u.room_id
          | false ↦ pure tt
        ]
    ]

  -- The case `Unregister` of `Run`, as one event. `Conference.Window` has a handler of another
  -- user that runs in the middle of it.
  unfoldable pub unregister : ℕ → M (Unit {0})
  unregister p w = elim (has_user p w.online) [
    | false ↦ ok (tt, w)
    | true ↦
        (do
          (λ w. ok (tt, record w { online = drop_user p w.online }))
          update_user p (λ u. record u { closed = true })
          leave_room p)
          w
  ]

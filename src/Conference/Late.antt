-- ===== src/Conference/Late.antt =====
-- Users whose room could not be made when they connected.
use singal.Common.{
  ℕ, ◌≡◌, refl, true, String, none, some, [], ◌∷◌, arith, length, get_elem?, Elem, inl, ◌∙◌, ap,
}
use singal.Conference.Arriving.{arrived, opened, here, connect_refused}
use singal.Conference.Connections.{has_user}
use singal.Conference.Entering.{get_or_create_room-ok}
use singal.Conference.Handlers.{Received, method_of, read_message, handle_join, join}
use singal.Conference.Joining.{handle_join-joined, joined}
use singal.Conference.Notices.{profiles}
use singal.Conference.Sessions.{connect, receive, handle_event, handle_events}
use singal.Conference.Steps.{announce, bind-ok, others}
use singal.Conference.{Env, User, World, M, pure, new_room, response_of, peers}
use singal.Dict.{lookup, insert, lookup-insert_self}
use singal.Media.{JoinReqData}
use singal.Router.{Router}
use singal.Rtc.Media.{ok, err}

read_message-join :
    (env : Env) (router : Router) (p : ℕ) (m : Received)
    → method_of m.method ≡ join
    → read_message env (ok router) p m ≡ handle_join env (ok router) p m.id m.as_join
unfolding read_message
read_message-join env router p m e = rw (e, read_message) refl

-- Where its room is not there and cannot be made, a new user connects; it joins once the room can be
-- made: it is answered that it joined and that there are no other peers, and it is on line, but the
-- room has no users.
pub connect-handle_join :
    (env : Env) (user_id peer_id room_id remote_address reason : String) (req_id : ℕ)
    (router : Router) (m : Received) (req : JoinReqData) (w : World)
    → lookup room_id w.rooms ≡ none
    → method_of m.method ≡ join
    → m.as_join ≡ some req
    → (w' : World) × (handle_events env
          (connect user_id peer_id room_id remote_address req_id (err reason)
            ∷ receive (length w.users) m (ok router)
            ∷ [])
          w
        ≡ ok (tt, w'))
      × Elem (length w.users, response_of m.id true (peers (record { peers = [] }))) w'.sent
      × (has_user (length w.users) w'.online ≡ true)
      × (lookup room_id w'.rooms ≡ some (new_room room_id router))
unfolding handle_events profiles others announce
connect-handle_join env user_id peer_id room_id remote_address reason req_id router m req w hr hm
      hb =
    (
      w₂,
      bind-ok
            (handle_event env (connect user_id peer_id room_id remote_address req_id (err reason)))
            _ w w₁ tt
            (connect_refused env user_id peer_id room_id remote_address req_id w reason hr)
          ∙ bind-ok (read_message env (ok router) p m) (λ _. pure tt) w₁ w₂ tt joins,
      inl refl,
      ground arith,
      there,
    )
  where
    p : ℕ
    p = length w.users

    u : User
    u = opened user_id peer_id room_id remote_address req_id

    w₁ : World
    w₁ = arrived env user_id peer_id room_id remote_address req_id w

    v : World
    v = record w₁ { rooms = insert room_id (new_room room_id router) w.rooms }

    w₂ : World
    w₂ = joined p m.id req u (new_room room_id router) v

    there : lookup room_id v.rooms ≡ some (new_room room_id router)
    there = lookup-insert_self room_id (new_room room_id router) w.rooms

    known : get_elem? w₁.users p ≡ some u
    known = here env user_id peer_id room_id remote_address req_id w

    joins : read_message env (ok router) p m w₁ ≡ ok (tt, w₂)
    joins =
        ap (λ (f : M (Unit {0})). f w₁) (read_message-join env router p m hm)
        ∙ ap (λ b. handle_join env (ok router) p m.id b w₁) hb
        ∙ handle_join-joined env (ok router) p m.id req u (new_room room_id router) w₁ v known
            (get_or_create_room-ok room_id router w₁ none hr).0 known there refl refl tt

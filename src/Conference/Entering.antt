-- ===== src/Conference/Entering.antt =====
-- What a new connection leads to.
use singal.Common.{
  ℕ, ◌≡◌, refl, true, false, String, Option, none, some, [], ◌∷◌, ◌++◌, arith, length, get_elem?,
  ◌∙◌, ap,
}
use singal.Conference.{Env, User, Room, World, load, load_room, get_or_create_room}
use singal.Conference.Connections.{has_user, drop_user, open_user, register}
use singal.Conference.Frame.{members}
use singal.Conference.Rooms.{add_user}
use singal.Conference.Sessions.{connect, handle_event, get_elem?-last}
use singal.Conference.Steps.{bind-ok, load-some, load_room-some}
use singal.Dict.{Dict, lookup, insert, lookup-insert_self}
use singal.Router.{Router}
use singal.Rtc.Media.{ok}

-- The room that a new user finds or gets.
abbrev pub room_for : String → Router → Option Room → Room
room_for id router none = record { room_id = id; router = router; users = [] }
room_for id router (some r) = r

-- The rooms once that room is there.
abbrev pub rooms_with : String → Router → Option Room → Dict Room → Dict Room
rooms_with id router none rooms =
    insert id (record { room_id = id; router = router; users = [] }) rooms
rooms_with id router (some r) rooms = rooms

users-room_for :
    (id : String) (router : Router) (o : Option Room) → (room_for id router o).users ≡ members o
users-room_for id router none = refl
users-room_for id router (some r) = refl

pub get_or_create_room-ok :
    (id : String) (router : Router) (w : World) (o : Option Room)
    → lookup id w.rooms ≡ o
    → (get_or_create_room (ok router) id w
        ≡ ok (some (room_for id router o), record w { rooms = rooms_with id router o w.rooms }))
      × (lookup id (rooms_with id router o w.rooms) ≡ some (room_for id router o))
unfolding get_or_create_room
get_or_create_room-ok id router w none e = (
  ground (arith, e),
  lookup-insert_self id (record { room_id = id; router = router; users = [] }) w.rooms,
)
get_or_create_room-ok id router w (some r) e = (ground (arith, e), e)

pub add_user-new :
    (id : String) (p : ℕ) (u : User) (r : Room) (w : World)
    → lookup id w.rooms ≡ some r
    → get_elem? w.users p ≡ some u
    → lookup u.user_id r.users ≡ none
    → add_user id p w
      ≡ ok (
        tt,
        record w { rooms = insert id (record r { users = insert u.user_id p r.users }) w.rooms },
      )
unfolding add_user
add_user-new id p u r w hr hu hn =
    bind-ok (load_room id) _ w w r (load_room-some id r w hr)
    ∙ bind-ok (load p) _ w w u (load-some p u w hu)
    ∙ rw hn refl

-- Where a router can be made, a connection whose user id the room does not have yet is opened: the
-- new user is on line, and it is in the room, which is made if it was not there.
pub connect-seated :
    (env : Env) (user_id peer_id room_id remote_address : String) (req_id : ℕ) (router : Router)
    (w : World)
    → lookup user_id (members (lookup room_id w.rooms)) ≡ none
    → (w' : World) × (handle_event env
          (connect user_id peer_id room_id remote_address req_id (ok router))
          w
        ≡ ok (tt, w'))
      × (lookup user_id (members (lookup room_id w'.rooms)) ≡ some (length w.users))
      × (has_user (length w.users) w'.online ≡ true)
unfolding open_user register
connect-seated env user_id peer_id room_id remote_address req_id router w h = (
  w₃,
  bind-ok (open_user user_id peer_id room_id remote_address req_id) (register (ok router)) w w₁ p
        refl
      ∙ bind-ok (load p) _ w₁ w₁ u (load-some p u w₁ here)
      ∙ bind-ok (get_or_create_room (ok router) room_id) _ w₀ w₂ (some r) found
      ∙ add_user-new room_id p u r w₂ there here fresh,
  ap (λ o. lookup user_id (members o))
        (lookup-insert_self room_id (record r { users = insert user_id p r.users }) w₂.rooms)
      ∙ lookup-insert_self user_id p r.users,
  ground arith,
)
  where
    p : ℕ
    p = length w.users

    u : User
    u = record {
      user_id = user_id;
      peer_id = peer_id;
      display_name = "";
      room_id = room_id;
      device = none;
      remote_address = remote_address;
      req_id = req_id;
      new_data_consumer_req = false;
      closed = false;
      writing = true;
    }

    o : Option Room
    o = lookup room_id w.rooms

    r : Room
    r = room_for room_id router o

    w₁ : World
    w₁ = record w { users = w.users ++ u ∷ [] }

    w₂ : World
    w₂ = record w₁ {
      online = p ∷ drop_user p w.online;
      rooms = rooms_with room_id router o w.rooms;
    }

    w₃ : World
    w₃ = record w₂ {
      rooms = insert room_id (record r { users = insert user_id p r.users }) w₂.rooms;
    }

    here : get_elem? w₁.users p ≡ some u
    here = get_elem?-last w.users u

    w₀ : World
    w₀ = record w₁ { online = p ∷ drop_user p w.online }

    found : get_or_create_room (ok router) room_id w₀ ≡ ok (some r, w₂)
    found = (get_or_create_room-ok room_id router w₀ o refl).0

    there : lookup room_id w₂.rooms ≡ some r
    there = (get_or_create_room-ok room_id router w₀ o refl).1

    fresh : lookup user_id r.users ≡ none
    fresh = ap (lookup user_id) (users-room_for room_id router o) ∙ h

-- ===== src/Conference/Arriving.antt =====
-- Whether the registration of a new connection returns (`Register` of `Run`, src/server/wssServer.go).
use singal.Common.{
  true, false, ap, ℕ, ◌≡◌, ◌≢◌, refl, String, Option, none, some, [], ◌∷◌, ◌++◌, length, get_elem?,
  ◌∙◌,
}
use singal.Conference.{Env, User, Room, World, M, ◌>>=◌, pure, load, load_room, get_or_create_room}
use singal.Conference.Entering.{add_user-new, get_or_create_room-ok}
use singal.Conference.Connections.{drop_user, open_user, register}
use singal.Conference.Rooms.{add_user}
use singal.Conference.Sessions.{connect, handle_event, get_elem?-last}
use singal.Conference.Steps.{get_or_create_room-some, bind-ok, load-some, load_room-some}
use singal.Dict.{lookup}
use singal.Router.{Router}
use singal.Rtc.Media.{Outcome, ok, err, panic}

add_user_returns :
    (id : String) (p : ℕ) (u : User) (r : Room) (w : World)
    → lookup id w.rooms ≡ some r
    → get_elem? w.users p ≡ some u
    → (w' : World) × (add_user id p w ≡ ok (tt, w'))
unfolding add_user
add_user_returns id p u r w hr hu = go (lookup u.user_id r.users) refl
  where
    go :
        (o : Option ℕ)
        → lookup u.user_id r.users ≡ o
        → (w' : World) × (add_user id p w ≡ ok (tt, w'))
    go none e = (_, add_user-new id p u r w hr hu e)
    go (some q) e = (
      w,
      bind-ok (load_room id) _ w w r (load_room-some id r w hr)
          ∙ bind-ok (load p) _ w w u (load-some p u w hu)
          ∙ rw e refl,
    )

get_or_create_room-err :
    (x id : String) (w : World)
    → lookup id w.rooms ≡ none
    → get_or_create_room (err x) id w ≡ ok (none, w)
unfolding get_or_create_room
get_or_create_room-err x id w e = rw (e, get_or_create_room) refl

get_or_create_room-panic :
    (id : String) (w : World) → lookup id w.rooms ≡ none → get_or_create_room panic id w ≡ panic
unfolding get_or_create_room
get_or_create_room-panic id w e = rw (e, get_or_create_room) refl

bind-panic : {A B : Type 0} (m : M A) (f : A → M B) (w : World) → m w ≡ panic → (m >>= f) w ≡ panic
bind-panic m f w e =
    ap (λ (o : Outcome (_ × World)). elim o [ ok (b, v) ↦ f b v | err s ↦ err s | panic ↦ panic ]) e

-- The user that a connection opens.
abbrev pub opened : String → String → String → String → ℕ → User
opened user_id peer_id room_id remote_address req_id = record {
  user_id = user_id;
  peer_id = peer_id;
  display_name = "";
  room_id = room_id;
  device = none;
  remote_address = remote_address;
  req_id = req_id;
  new_data_consumer_req = false;
  closed = false;
  writing = true;
}

module _ (env : Env) (user_id peer_id room_id remote_address : String) (req_id : ℕ)
    (w : World) where
  -- The world in which `Run` looks for the room.
  abbrev pub arrived : World
  arrived = record w {
    users = w.users ++ opened user_id peer_id room_id remote_address req_id ∷ [];
    online = length w.users ∷ drop_user (length w.users) w.online;
  }

  pub here :
      get_elem? arrived.users (length w.users)
      ≡ some (opened user_id peer_id room_id remote_address req_id)
  here = get_elem?-last w.users _

  connect_step :
      (made : Outcome Router)
      → handle_event env (connect user_id peer_id room_id remote_address req_id made) w ≡ (
          (get_or_create_room made room_id >>= λ room. elim room as (λ _. M (Unit {0})) [
            | none ↦ pure tt
            | some r ↦ add_user room_id (length w.users)
          ])
            arrived)
  unfolding open_user register
  connect_step made =
      bind-ok (load (length w.users)) _ (record w { users = arrived.users })
        (record w { users = arrived.users }) (opened user_id peer_id room_id remote_address req_id)
        (load-some _ _ (record w { users = arrived.users }) here)

  -- Where the room is not there and the router panics, so does the registration.
  pub connect_panics :
      lookup room_id w.rooms ≡ none
      → handle_event env (connect user_id peer_id room_id remote_address req_id panic) w ≡ panic
  connect_panics e =
      connect_step panic
      ∙ bind-panic (get_or_create_room panic room_id) _ arrived
          (get_or_create_room-panic room_id arrived e)

  -- Where the room is not there and no router can be made, the user is on line without a room.
  pub connect_refused :
      (x : String)
      → lookup room_id w.rooms ≡ none
      → handle_event env (connect user_id peer_id room_id remote_address req_id (err x)) w
        ≡ ok (tt, arrived)
  connect_refused x e =
      connect_step (err x)
      ∙ bind-ok (get_or_create_room (err x) room_id) _ arrived arrived none
          (get_or_create_room-err x room_id arrived e)

  joins :
      (made : Outcome Router) (r : Room) (v : World)
      → get_or_create_room made room_id arrived ≡ ok (some r, v)
      → lookup room_id v.rooms ≡ some r
      → v.users ≡ arrived.users
      → (w' : World) × (handle_event env
            (connect user_id peer_id room_id remote_address req_id made)
            w
          ≡ ok (tt, w'))
  joins made r v e hr hu =
      let (w', f) =
        add_user_returns room_id (length w.users) _ r v hr
          (ap (λ l. get_elem? l (length w.users)) hu ∙ here) in
      (w', connect_step made ∙ bind-ok (get_or_create_room made room_id) _ arrived v (some r) e ∙ f)

  -- It returns where the room is there or the call for a router returns, with or without an error.
  pub connect_returns :
      (made : Outcome Router) (o : Option Room)
      → lookup room_id w.rooms ≡ o
      → (o ≡ none → made ≢ panic)
      → (w' : World) × (handle_event env
            (connect user_id peer_id room_id remote_address req_id made)
            w
          ≡ ok (tt, w'))
  connect_returns made (some r) e h =
      joins made r arrived (get_or_create_room-some made room_id r arrived e) e refl
  connect_returns (ok router) none e h =
      let (f, g) = get_or_create_room-ok room_id router arrived none e in
      joins (ok router) _ _ f g refl
  connect_returns (err x) none e h = (arrived, connect_refused x e)
  connect_returns panic none e h = absurd (h refl refl)

-- ===== src/Conference/Sessions.antt =====
-- Whole sessions: connections that open and end, and messages, one after the other, from the start of
-- the server.
use singal.Common.{
  ℕ, ◌≡◌, refl, true, false, String, Option, none, some, List, [], ◌∷◌, ◌++◌, arith, length,
  get_elem?, ◌∙◌, ap,
}
use mathlib.Core.Path.{subst}
use singal.Conference.{Env, User, Room, World, M, ◌>>=◌, ◌>>◌, pure}
use singal.Conference.Connections.{has_user, open_user, register, unregister, stop_writing}
use singal.Conference.Frame.{Does, skeleton, members}
use singal.Conference.Handlers.{Received, read_message}
use singal.Conference.Keeps.{Does-update_user}
use singal.Conference.Responses.{Does-read_message}
use singal.Conference.Seats.{seat, Seats, Frame-Seats, Seats-new}
use singal.Dict.{lookup}
use singal.Router.{Router}
use singal.Rtc.Media.{Outcome, ok}
use singal.Conference.Ends.{Ends, Ends-bind, Ends-ok}
use singal.Conference.Arrivals.{AllSeated, unregister-Seats, register-Seats}

-- What happens to the server: a connection opens a user and registers it, a message is handled, and a
-- connection ends. A write to a connection may also fail, after which `WriteMessage` has returned.
pub data Event : Type 0 where
  connect : (user_id peer_id room_id remote_address : String) → ℕ → Outcome Router → Event
  receive : ℕ → Received → Outcome Router → Event
  disconnect : ℕ → Outcome Router → Event
  write_fails : ℕ → Event

abbrev pub handle_event : Env → Event → M (Unit {0})
handle_event env (connect user_id peer_id room_id remote_address req_id made) =
    open_user user_id peer_id room_id remote_address req_id >>= λ p. register made p
handle_event env (receive p m made) = read_message env made p m
handle_event env (disconnect p made) = unregister env made p
handle_event env (write_fails p) = stop_writing p

unfoldable pub handle_events : Env → List Event → M (Unit {0})
handle_events env [] = pure tt
handle_events env (e ∷ es) = handle_event env e >> handle_events env es

-- Only the writer of the user changes.
Does-stop_writing : (p : ℕ) → Does [] (stop_writing p)
unfolding stop_writing
Does-stop_writing p = Does-update_user p (λ u. record u { writing = false }) λ u. refl

-- The server before the first connection.
abbrev pub start : World
start = record { rooms = []; users = []; store = []; online = []; sent = []; draws = 0 }

pub get_elem?-last : (l : List User) (u : User) → get_elem? (l ++ u ∷ []) (length l) ≡ some u
get_elem?-last [] u = refl
get_elem?-last (x ∷ l) u = get_elem?-last l u

pub Seats-start : Seats (λ _. false) start
Seats-start = record {
  seated = λ id user p e. unfold lookup in cc;
  present = λ id user p e. unfold lookup in cc;
  opened = λ p h. absurd (cc);
  maps = λ id. unfold lookup in tt;
}

pub handle_event-Seats :
    (env : Env) (e : Event) (w : World)
    → Seats (λ _. false) w
    → Ends (handle_event env e) w AllSeated
unfolding open_user
handle_event-Seats env (connect user_id peer_id room_id remote_address req_id made) w s =
    let u : User = record {
      user_id = user_id;
      peer_id = peer_id;
      display_name = "";
      room_id = room_id;
      device = none;
      remote_address = remote_address;
      req_id = req_id;
      new_data_consumer_req = false;
      closed = false;
      writing = true;
    } in
    let w₁ : World = record w { users = w.users ++ u ∷ [] } in
    Ends-ok (open_user user_id peer_id room_id remote_address req_id) (λ p. register made p) w w₁
      (length w.users) AllSeated refl
      (register-Seats env made (length w.users) u w₁ (get_elem?-last w.users u) refl
        (Seats-new u w s))
handle_event-Seats env (receive p m made) w s =
    λ b w' e. Frame-Seats (λ _. false) w w' ((Does-read_message env made p m).at w w' b e) s
handle_event-Seats env (disconnect p made) w s = unregister-Seats env made p w s
handle_event-Seats env (write_fails p) w s =
    λ b w' e. Frame-Seats (λ _. false) w w' ((Does-stop_writing p).at w w' b e) s

pub handle_events-Seats :
    (env : Env) (es : List Event) (w : World)
    → Seats (λ _. false) w
    → Ends (handle_events env es) w AllSeated
unfolding handle_events
handle_events-Seats env [] w s = λ b w' e. subst (Seats (λ _. false)) (ground (arith, e)) s
handle_events-Seats env (e ∷ es) w s =
    Ends-bind (handle_event env e) _ w AllSeated
      λ a v h. handle_events-Seats env es v (handle_event-Seats env e w s a v h)

-- After any sequence of events that all come back, every entry of every room is a pointer to
-- the user of that name and of that room, which is on line with an open channel.
pub handle_events-seated :
    (env : Env) (es : List Event) (w : World) (id user : String) (r : Room) (p : ℕ)
    → handle_events env es start ≡ ok (tt, w)
    → lookup id w.rooms ≡ some r
    → lookup user r.users ≡ some p
    → (u : User) × (get_elem? w.users p ≡ some u)
      × (u.user_id ≡ user)
      × (u.room_id ≡ id)
      × (u.closed ≡ false)
      × (has_user p w.online ≡ true)
handle_events-seated env es w id user r p e hr hp =
    let s = handle_events-Seats env es start Seats-start tt w e in
    let hp' : lookup user (members (lookup id w.rooms)) ≡ some p =
      ap (λ o. lookup user (members o)) hr ∙ hp in
    go (get_elem? w.users p) refl (s.seated id user p hp') (s.present id user p hp')
  where
    go :
        (o : Option User)
        → get_elem? w.users p ≡ o
        → skeleton (get_elem? w.users p) ≡ seat id user false
        → has_user p w.online ≡ true
        → (u : User) × (get_elem? w.users p ≡ some u)
          × (u.user_id ≡ user)
          × (u.room_id ≡ id)
          × (u.closed ≡ false)
          × (has_user p w.online ≡ true)
    go none h t b = absurd (cc)
    go (some u) h t b = (u, h, ground (arith, h, t), ground (arith, h, t), ground (arith, h, t), b)

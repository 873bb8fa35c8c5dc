-- ===== src/Conference/Arrivals.antt =====
-- The entries of the rooms when users come and go.
use singal.Common.{
  ℤ, ℕ, ◌≡◌, refl, Bool, true, false, String, Option, none, some, List, [], ◌∷◌, arith, ◌==◌,
  get_elem?, set, ◌∙◌, ap,
}
use mathlib.Core.Path.{subst}
use singal.Conference.{
  Env, User, Room, World, M, ◌>>=◌, ◌>>◌, pure, load_room, save_room, update_user,
  get_or_create_room, delete_room, notify_peer_closed,
}
use singal.Conference.Connections.{
  has_user, drop_user, register, close_room, leave_room, unregister,
}
use singal.Conference.Frame.{skeleton, Frame, Does, Does-bind, Does-seq, Does-pure}
use singal.Conference.Keeps.{Does-send, Does-get_or_create_room}
use singal.Conference.Answers.{Does-logged, Does-rand_string}
use singal.Conference.Rooms.{add_user, delete_user, notify_closed, get_user_nums, closed_peer}
use singal.Conference.Seats.{
  seat, Seats, Frame-Seats, Seats-close, Seats-delete, Seats-no_room, Seats-delete_room,
  Seats-enter, Seats-online,
}
use singal.Conference.Steps.{get_elem?-set_self}
use singal.Rtc.{router_answer, close_router_request}
use singal.Dict.{Dict, lookup, insert, delete}
use singal.Media.{Peer}
use singal.Router.{Router}
use singal.Rtc.Media.{Outcome, ok}
use singal.Conference.Ends.{
  Ends, Ends-bind, Ends-ok, Ends-test, Ends-load, Ends-load_room, Ends-update_user,
}

Does-notify_closed : (d : Peer) (m : Dict ℕ) → Does [] (notify_closed d m)
unfolding notify_closed notify_peer_closed
Does-notify_closed d [] = Does-pure tt
Does-notify_closed d ((k, p) ∷ m) = Does-seq (Does-send p _) (Does-notify_closed d m)

-- The room that `GetOrCreateRoom` does not give is not there.
get_or_create_room-none :
    (made : Outcome Router) (id : String) (w v : World)
    → get_or_create_room made id w ≡ ok (none, v)
    → lookup id v.rooms ≡ none
unfolding get_or_create_room
get_or_create_room-none made id w v e = ground (arith, e)

abbrev pub AllSeated : Unit {0} → World → Type 0
AllSeated _ w = Seats (λ _. false) w

-- A user that is known as `u`, whose channel is closed and who is not on line.
abbrev Gone : ℕ → User → World → Type 0
Gone p u w =
    (skeleton (get_elem? w.users p) ≡ seat u.room_id u.user_id true) × Seats (λ q. p == q) w

Frame-Gone :
    {given : List (ℕ × ℤ)} (p : ℕ) (u : User) (w w' : World)
    → Frame given w w'
    → Gone p u w
    → Gone p u w'
Frame-Gone p u w w' f g = (f.same_users p ∙ g.0, Frame-Seats (λ q. p == q) w w' f g.1)

entered-Seats :
    (id : String) (p : ℕ) (r : Room) (v : User) (w : World) (o : Option ℕ)
    → lookup v.user_id r.users ≡ o
    → Seats (λ _. false) w
    → (lookup v.user_id r.users ≡ none
        → Seats
            (λ _. false)
            (record w {
              rooms = insert id (record r { users = insert v.user_id p r.users }) w.rooms;
            }))
    → Ends
        (elim o as (λ _. M (Unit {0})) [
          | some _ ↦ pure tt
          | none ↦ save_room id (record r { users = insert v.user_id p r.users })
        ])
        w
        AllSeated
entered-Seats id p r v w none h s t b w' e = subst (Seats (λ _. false)) (ground (arith, e)) (t h)
entered-Seats id p r v w (some q) h s t b w' e = subst (Seats (λ _. false)) (ground (arith, e)) s

add_user-Seats :
    (p : ℕ) (id user : String) (w : World)
    → skeleton (get_elem? w.users p) ≡ seat id user false
    → has_user p w.online ≡ true
    → Seats (λ _. false) w
    → Ends (add_user id p) w AllSeated
unfolding add_user
add_user-Seats p id user w hu hp s = Ends-load_room id _ w AllSeated λ r hr.
    Ends-load p _ w AllSeated λ v hv.
      let here : v.room_id ≡ id = ground (arith, hv, hu) in
      entered-Seats id p r v w (lookup v.user_id r.users) refl s λ hk.
        subst
          (λ k.
            Seats (λ _. false)
              (record w {
                rooms = insert k (record r { users = insert v.user_id p r.users }) w.rooms;
              }))
          here (Seats-enter p v r w hv hp (ap (λ k. lookup k w.rooms) here ∙ hr) hk s)

delete_user-Seats :
    (p : ℕ) (u : User) (w : World) → Gone p u w → Ends (delete_user u.room_id p) w AllSeated
unfolding delete_user
delete_user-Seats p u w g = Ends-load_room u.room_id _ w AllSeated λ r hr.
    Ends-load p _ w AllSeated λ v hv.
      let same : u.user_id ≡ v.user_id = ground (arith, hv, g.0) in
      let w₁ : World = record w {
        rooms = insert u.room_id (record r { users = delete v.user_id r.users }) w.rooms;
      } in
      let s : Seats (λ _. false) w₁ =
        subst
          (λ k.
            Seats (λ _. false)
              (record w {
                rooms = insert u.room_id (record r { users = delete k r.users }) w.rooms;
              }))
          same (Seats-delete p u r w g.0 hr g.1) in
      Ends-ok (save_room u.room_id (record r { users = delete v.user_id r.users }))
        (λ _. notify_closed (closed_peer v) (delete v.user_id r.users)) w w₁ tt AllSeated refl
        λ b w' e.
          Frame-Seats (λ _. false) w₁ w'
            ((Does-notify_closed (closed_peer v) (delete v.user_id r.users)).at w₁ w' b e) s

module _ (env : Env) (made : Outcome Router) where
  Does-close_room : (router : Router) → Does [] (close_room env made router)
  unfolding close_room
  Does-close_room router =
      Does-bind (Does-rand_string env 10)
        λ n. Does-logged (router_answer (env.remote (close_router_request router n)))

  -- What `leave_room` does once it has its room.
  left_room-Seats :
      (p : ℕ) (u : User) (w : World) (room : Option Room)
      → Gone p u w
      → (room ≡ none → lookup u.room_id w.rooms ≡ none)
      → Ends
          (elim room as (λ _. M (Unit {0})) [
            | none ↦ pure tt
            | some r ↦ do
              delete_user u.room_id p
              left ← load_room u.room_id
              elim (get_user_nums left == 0) [
                | true ↦ do close_room env made left.router; delete_room u.room_id
                | false ↦ pure tt
              ]
          ])
          w
          AllSeated
  unfolding delete_room
  left_room-Seats p u w none g h = λ b w' e.
      subst (Seats (λ _. false)) (ground (arith, e)) (Seats-no_room p u w g.0 (h refl) g.1)
  left_room-Seats p u w (some r) g h = Ends-bind (delete_user u.room_id p) _ w AllSeated λ _ w₁ e.
      let s : Seats (λ _. false) w₁ = delete_user-Seats p u w g tt w₁ e in
      Ends-load_room u.room_id _ w₁ AllSeated λ left hl.
        Ends-test (get_user_nums left == 0) _ _ w₁ AllSeated
          (Ends-bind (close_room env made left.router) _ w₁ AllSeated λ a w₂ e₂ b w' e₃.
            let s₂ =
              Frame-Seats (λ _. false) w₁ w₂ ((Does-close_room left.router).at w₁ w₂ a e₂) s in
            subst (Seats (λ _. false)) (ground (arith, e₃)) (Seats-delete_room u.room_id w₂ s₂))
          λ b w' e₃. subst (Seats (λ _. false)) (ground (arith, e₃)) s

  leave_room-Seats :
      (p : ℕ) (w : World)
      → ((u : User) → get_elem? w.users p ≡ some u → Gone p u w)
      → Ends (leave_room env made p) w AllSeated
  unfolding leave_room
  leave_room-Seats p w g = Ends-load p _ w AllSeated λ u hu.
      Ends-bind (get_or_create_room made u.room_id) _ w AllSeated λ room v e.
        left_room-Seats p u v room
          (Frame-Gone p u w v ((Does-get_or_create_room made u.room_id).at w v room e) (g u hu))
          λ h.
            get_or_create_room-none made u.room_id w v
              (subst (λ o. get_or_create_room made u.room_id w ≡ ok (o, v)) h e)

  pub unregister-Seats :
      (p : ℕ) (w : World) → Seats (λ _. false) w → Ends (unregister env made p) w AllSeated
  unfolding unregister
  unregister-Seats p w s b w' e = go (has_user p w.online) e
    where
      w₁ : World
      w₁ = record w { online = drop_user p w.online }

      go :
          (x : Bool)
          → elim x as (λ _. Outcome (Unit {0} × World)) [
            | false ↦ ok (tt, w)
            | true ↦ (update_user p (λ u. record u { closed = true }) >> leave_room env made p) w₁
          ]
            ≡ ok (b, w')
          → Seats (λ _. false) w'
      go false e = subst (Seats (λ _. false)) (ground (arith, e)) s
      go true e =
          Ends-update_user p (λ u. record u { closed = true }) (λ _. leave_room env made p) w₁
            AllSeated
            (λ u hu.
              leave_room-Seats p (record w₁ { users = set w.users p (record u { closed = true }) })
                λ v hv. (
                  ap skeleton hv
                      ∙ ground (
                        arith,
                        get_elem?-set_self w.users p u (record u { closed = true }) hu,
                        hv,
                      ),
                  Seats-close p u w hu s,
                ))
            b w' e

  registered-Seats :
      (p : ℕ) (id user : String) (w : World) (room : Option Room)
      → skeleton (get_elem? w.users p) ≡ seat id user false
      → has_user p w.online ≡ true
      → Seats (λ _. false) w
      → Ends
          (elim room as (λ _. M (Unit {0})) [ none ↦ pure tt | some r ↦ add_user id p ])
          w
          AllSeated
  registered-Seats p id user w none hu hp s =
      λ b w' e. subst (Seats (λ _. false)) (ground (arith, e)) s
  registered-Seats p id user w (some r) hu hp s = add_user-Seats p id user w hu hp s

  pub register-Seats :
      (p : ℕ) (u : User) (w : World)
      → get_elem? w.users p ≡ some u
      → u.closed ≡ false
      → Seats (λ _. false) w
      → Ends (register made p) w AllSeated
  unfolding register
  register-Seats p u w hu hc s = Ends-load p _ w AllSeated λ v hv.
      let hd : v.closed ≡ false = ground (arith, hv, hu) in
      let w₁ : World = record w { online = p ∷ drop_user p w.online } in
      let s₁ = Seats-online p v w hv hd s in
      Ends-ok (λ w. ok (tt, record w { online = p ∷ drop_user p w.online }))
        (λ _. get_or_create_room made v.room_id >>= (λ room. elim room as (λ _. M (Unit {0})) [
          | none ↦ pure tt
          | some r ↦ add_user v.room_id p
        ]))
        w w₁ tt AllSeated refl
        (Ends-bind (get_or_create_room made v.room_id)
          (λ room. elim room as (λ _. M (Unit {0})) [
            | none ↦ pure tt
            | some r ↦ add_user v.room_id p
          ])
          w₁ AllSeated
          λ room w₂ e.
            let f = (Does-get_or_create_room made v.room_id).at w₁ w₂ room e in
            registered-Seats p v.room_id v.user_id w₂ room
              (f.same_users p ∙ ap skeleton hv ∙ ap (seat v.room_id v.user_id) hd)
              (ap (has_user p) f.same_online ∙ ground arith) (Frame-Seats (λ _. false) w₁ w₂ f s₁))

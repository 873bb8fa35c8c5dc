-- ===== src/Conference/Window.antt =====
-- `Run` of src/server/wssServer.go closes the channel of a user and then takes the user out of its
-- room; a handler of another connection may run in between.
use singal.Common.{
  ℕ, ℤ, ◌≡◌, ◌≢◌, refl, true, String, some, List, [], ◌∷◌, arith, All, Elem, Bool-cases, inl, inr,
  ◌⊎◌, ◌∙◌, ap, sym, get_elem?, set, str_eq, ◌==◌,
}
use mathlib.Core.Path.{subst}
use singal.Conference.Blocked.{All-Elem, others-apart}
use singal.Conference.Connections.{has_user, drop_user, leave_room, unregister}
use singal.Conference.Crashes.{bind-panic}
use singal.Conference.Handlers.{handle_join}
use singal.Conference.Joining.{IsRead, IsHeard-both}
use singal.Conference.Leaving.{closed_world}
use singal.Conference.Notices.{others_same, others_other}
use singal.Conference.Rooms.{notify_others, notify_other_users, get_other_users, peer_of}
use singal.Conference.Sessions.{Event, handle_events, start, handle_events-Seats, Seats-start}
use singal.Conference.Steps.{
  IsOpen, IsHeard, others, bind-ok, load-some, update-some, load_room-some, send_open,
  get_elem?-set_self, get_elem?-set_ne, get_or_create_room-some,
}
use singal.Conference.{
  Env, User, Room, World, M, ◌>>=◌, ◌>>◌, load, load_room, send, update_user, get_or_create_room,
  response_of, notification_of, notify_new_peer, peers, peer_data,
}
use singal.Dict.{Dict, lookup}
use singal.Media.{JoinReqData, Peer, PeerData}
use singal.Router.{Router}
use singal.Rtc.Media.{Outcome, ok, panic}

-- A pointer to a user whose channel is closed.
abbrev pub IsShut : World → ℕ → Type 0
IsShut w p = (u : User) × (get_elem? w.users p ≡ some u) × (u.closed ≡ true)

-- Each user gets what is sent or has a closed channel.
abbrev Answers : World → ℕ → Type 0
Answers w q = IsHeard w q ⊎ IsShut w q

notify_shut : (p : ℕ) (d : PeerData) (w : World) → IsShut w p → notify_new_peer p d w ≡ panic
unfolding notify_new_peer
notify_shut p d w (u, e, c) = ground (arith, e, c)

notify_heard :
    (p : ℕ) (d : PeerData) (w : World)
    → IsHeard w p
    → notify_new_peer p d w
      ≡ ok (tt, record w { sent = (p, notification_of "newPeer" (peer_data d)) ∷ w.sent })
unfolding notify_new_peer
notify_heard p d w h = send_open p (notification_of "newPeer" (peer_data d)) w h

notify_others-panics :
    (user : String) (d : PeerData) (m : Dict ℕ) (w : World) (p : ℕ)
    → All (Answers w) (others user m)
    → Elem p (others user m)
    → IsShut w p
    → notify_others user d m w ≡ panic
unfolding notify_others others
notify_others-panics user d [] w p h e s = absurd e
notify_others-panics user d ((k, q) ∷ m) w p h e s = elim (Bool-cases (str_eq k user)) [
  | inl b ↦
      rw (b, notify_others)
        (notify_others-panics user d m w p (subst (All (Answers w)) (others_same user k q m b) h)
          (subst (Elem p) (others_same user k q m b) e) s)
  | inr b ↦
      rw (b, notify_others)
        (next (λ hs n. notify_others-panics user d m w' p hs n s)
          (subst (All (Answers w)) (others_other user k q m b) h)
          (subst (Elem p) (others_other user k q m b) e))
]
  where
    w' : World
    w' = record w { sent = (q, notification_of "newPeer" (peer_data d)) ∷ w.sent }

    later : IsHeard w q → Elem p (q ∷ others user m) → Elem p (others user m)
    later (x, f, o, r) (inl same) = absurd (
        let t : get_elem? w.users q ≡ some s.0 = ap (get_elem? w.users) same ∙ s.1 in
        ground (arith, t, f, o, s.2))
    later h (inr n) = n

    next :
        (All (Answers w) (others user m)
          → Elem p (others user m)
          → notify_others user d m w' ≡ panic)
        → All (Answers w) (q ∷ others user m)
        → Elem p (q ∷ others user m)
        → (notify_new_peer q d >> notify_others user d m) w ≡ panic
    next ih (inl h, hs) e =
        bind-ok (notify_new_peer q d) (λ _. notify_others user d m) w w' tt (notify_heard q d w h)
        ∙ ih hs (later h e)
    next ih (inr c, hs) e =
        bind-panic (notify_new_peer q d) (λ _. notify_others user d m) w (notify_shut q d w c)

-- Who answers, in the world in which a user's channel is closed and another user has a new profile.
closed-Answers :
    (w : World) (p v q : ℕ) (u x : User)
    → get_elem? w.users p ≡ some u
    → IsOpen w q
    → IsRead w q
    → v ≢ q
    → Answers (record (closed_world p u w) { users = set (closed_world p u w).users v x }) q
closed-Answers w p v q u x hu o r ne = elim (Bool-cases (p == q)) [
  | inl e ↦
      let same : p ≡ q = ground arith in
      inr (
        record u { closed = true },
        get_elem?-set_ne (closed_world p u w).users v q x ne
            ∙ ap (get_elem? (closed_world p u w).users) (sym same)
            ∙ get_elem?-set_self w.users p u (record u { closed = true }) hu,
        refl,
      )
  | inr e ↦
      let other : p ≢ q = λ s. ground (arith, e, s) in
      let (y, f, c, t) = IsHeard-both w q o r in
      inl (
        y,
        get_elem?-set_ne (closed_world p u w).users v q x ne
            ∙ get_elem?-set_ne w.users p q (record u { closed = true }) other
            ∙ f,
        c,
        t,
      )
]

All-Answers :
    (w : World) (p v : ℕ) (u x : User) (qs : List ℕ)
    → get_elem? w.users p ≡ some u
    → All (λ q. IsOpen w q × (v ≢ q)) qs
    → All (IsRead w) qs
    → All (Answers (record (closed_world p u w) { users = set (closed_world p u w).users v x })) qs
All-Answers w p v u x [] hu o r = tt
All-Answers w p v u x (q ∷ qs) hu o r =
    (closed-Answers w p v q u x hu o.0.0 r.0 o.0.1, All-Answers w p v u x qs hu o.1 r.1)

-- After any sequence of events that all come back, the connection of a user on line ends. To unregister
-- it is to close its channel and take it off line, and then to take it out of its room. A user that
-- joins the room in between, where the writers of the room's other users still run, makes the server
-- panic.
pub handle_join-closed_world :
    (env : Env) (made : Outcome Router) (es : List Event) (w : World) (p v : ℕ) (id : ℤ)
    (req : JoinReqData) (u x : User) (r : Room)
    → handle_events env es start ≡ ok (tt, w)
    → has_user p w.online ≡ true
    → get_elem? w.users p ≡ some u
    → get_elem? w.users v ≡ some x
    → lookup x.room_id w.rooms ≡ some r
    → Elem p (others x.user_id r.users)
    → All (IsRead w) (others x.user_id r.users)
    → (unregister env made p w ≡ leave_room env made p (closed_world p u w))
      × (handle_join env made v id (some req) (closed_world p u w) ≡ panic)
unfolding handle_join notify_other_users unregister
handle_join-closed_world env made es w p v id req u x r run hp hu hx hr there read =
    let s = handle_events-Seats env es start Seats-start tt w run in
    let apart = others-apart w v x r s hx hr in
    let ne : v ≢ p =
      (All-Elem (λ q. IsOpen w q × (v ≢ q)) (others x.user_id r.users) p apart there).1 in
    let x' : User = record x { device = req.device; display_name = req.display_name } in
    let w₁ : World = closed_world p u w in
    let w₂ : World = record w₁ { users = set w₁.users v x' } in
    let hx₁ : get_elem? w₁.users v ≡ some x =
      get_elem?-set_ne w.users p v (record u { closed = true }) (λ e. ne (sym e)) ∙ hx in
    let shut : IsShut w₂ p = (
      record u { closed = true },
      get_elem?-set_ne w₁.users v p x' ne
          ∙ get_elem?-set_self w.users p u (record u { closed = true }) hu,
      refl,
    ) in
    let answer : List Peer → M (Unit {0}) =
      λ l. send v (response_of id true (peers (record { peers = l }))) in
    let told : PeerData = record { peer = peer_of x' } in
    let panics : notify_other_users x.room_id v w₂ ≡ panic =
      bind-ok (load_room x.room_id) _ w₂ w₂ r (load_room-some x.room_id r w₂ hr)
      ∙ bind-ok (load v) _ w₂ w₂ x' (load-some v x' w₂ (get_elem?-set_self w₁.users v x x' hx₁))
      ∙ notify_others-panics x.user_id told r.users w₂ p
          (All-Answers w p v u x' (others x.user_id r.users) hu apart read) there shut in
    let off : World = record w { online = drop_user p w.online } in
    (
      rw (hp, unregister)
          (bind-ok (update_user p (λ y. record y { closed = true })) (λ _. leave_room env made p)
            off w₁ tt (update-some p u (λ y. record y { closed = true }) off hu)),
      bind-ok (load v) _ w₁ w₁ x (load-some v x w₁ hx₁)
          ∙ bind-ok (get_or_create_room made x.room_id) _ w₁ w₁ (some r)
              (get_or_create_room-some made x.room_id r w₁ hr)
          ∙ bind-ok
              (update_user v
                (λ y. record y { device = req.device; display_name = req.display_name }))
              (λ _. notify_other_users x.room_id v >> (get_other_users x.room_id v >>= answer)) w₁
              w₂ tt
              (update-some v x
                (λ y. record y { device = req.device; display_name = req.display_name }) w₁ hx₁)
          ∙ bind-panic (notify_other_users x.room_id v)
              (λ _. get_other_users x.room_id v >>= answer) w₂ panics,
    )

-- ===== src/Conference/Blocked.antt =====
-- A connection whose writer has returned, and the goroutine of `WsServer.Run` (src/server/wssServer.go)
-- that sends to it in `DeleteUser`.
use singal.Common.{
  ℕ, ◌≡◌, ◌≢◌, refl, true, false, String, Option, none, some, List, [], ◌∷◌, arith, All, All-map,
  Elem, eq_iff, str_eq, Bool-cases, inl, inr, ◌∙◌, ap, sym, get_elem?, set,
}
use mathlib.Core.Path.{subst}
use singal.Conference.Connections.{has_user, drop_user, leave_room, unregister, stop_writing}
use singal.Conference.Frame.{skeleton, members}
use singal.Conference.Leaving.{entries, entries-delete, closed_world}
use singal.Conference.Rooms.{notify_closed, delete_user, closed_peer}
use singal.Conference.Seats.{seat, Seats}
use singal.Conference.Sessions.{
  Event, write_fails, disconnect, handle_event, handle_events, start, handle_events-Seats,
  Seats-start, handle_event-Seats,
}
use singal.Conference.Steps.{
  IsOpen, others, bind-ok, load-some, update-some, load_room-some, send_open, send-blocked,
  get_elem?-set_self, get_elem?-set_ne, get_or_create_room-some,
}
use singal.Conference.{
  Env, User, Room, World, M, ◌>>=◌, load, load_room, save_room, get_or_create_room, update_user,
  notify_peer_closed, notification_of, peer, blocked,
}
use singal.Dict.{Dict, lookup, insert, delete, IsMap}
use singal.Media.{Peer}
use singal.Router.{Router}
use singal.Rtc.Media.{Outcome, ok, err, panic}

bind-err :
    {A B : Type 0} (m : M A) (f : A → M B) (w : World) (e : String)
    → m w ≡ err e
    → (m >>= f) w ≡ err e
bind-err m f w e h =
    ap (λ (o : Outcome (_ × World)). elim o [ ok (b, v) ↦ f b v | err s ↦ err s | panic ↦ panic ]) h

-- A pointer to a user with an open channel that nobody reads.
abbrev pub IsStuck : World → ℕ → Type 0
IsStuck w p = (u : User) × (get_elem? w.users p ≡ some u) × (u.closed ≡ false) × (u.writing ≡ false)

notify_closed-blocked :
    (d : Peer) (m : Dict ℕ) (w : World) (v : ℕ)
    → All (IsOpen w) (entries m)
    → Elem v (entries m)
    → IsStuck w v
    → notify_closed d m w ≡ err blocked
unfolding notify_closed entries
notify_closed-blocked d [] w v h m s = absurd m
notify_closed-blocked d ((k, p) ∷ m) w v h there s = elim (Bool-cases h.0.0.writing) [
  | inl e ↦
      bind-ok (notify_peer_closed p d) (λ _. notify_closed d m) w w' tt
        (unfold notify_peer_closed in
          send_open p (notification_of "peerClosed" (peer d)) w (h.0.0, h.0.1, h.0.2, e))
      ∙ notify_closed-blocked d m w' v h.1 (later e there) s
  | inr e ↦
      bind-err (notify_peer_closed p d) (λ _. notify_closed d m) w blocked
        (unfold notify_peer_closed in
          send-blocked p (notification_of "peerClosed" (peer d)) w h.0.0 h.0.1 h.0.2 e)
]
  where
    w' : World
    w' = record w { sent = (p, notification_of "peerClosed" (peer d)) ∷ w.sent }

    later : h.0.0.writing ≡ true → Elem v (p ∷ entries m) → Elem v (entries m)
    later e (inl same) = absurd (
        let t : get_elem? w.users p ≡ some s.0 = ap (get_elem? w.users) same ∙ s.1 in
        ground (arith, e, t, h.0.1, s.3))
    later e (inr next) = next

pub All-Elem : (P : ℕ → Type 0) (ps : List ℕ) (q : ℕ) → All P ps → Elem q ps → P q
All-Elem P [] q h m = absurd m
All-Elem P (k ∷ ks) q h (inl e) = subst P e h.0
All-Elem P (k ∷ ks) q h (inr m) = All-Elem P ks q h.1 m

-- What holds of every entry under another name.
others-each :
    (P : ℕ → Type 0) (user : String) (m : Dict ℕ)
    → IsMap m
    → ((k : String) (q : ℕ) → lookup k m ≡ some q → k ≢ user → P q)
    → All P (others user m)
unfolding others lookup
others-each P user [] h f = tt
others-each P user ((k, q) ∷ m) h f =
    let rest : All P (others user m) =
      others-each P user m h.1 λ j v e ne. f j v (ground (arith, e, h.0, eq_iff k j)) ne in
    elim (Bool-cases (str_eq k user)) [
      | inl e ↦ rw e rest
      | inr e ↦
          rw e (f k q (ground (arith, eq_iff k k)) (λ s. ground (arith, e, eq_iff k user, s)), rest)
    ]

-- The other users of a user's room are other users, with open channels.
pub others-apart :
    (w : World) (p : ℕ) (u : User) (r : Room)
    → Seats (λ _. false) w
    → get_elem? w.users p ≡ some u
    → lookup u.room_id w.rooms ≡ some r
    → All (λ q. IsOpen w q × (p ≢ q)) (others u.user_id r.users)
others-apart w p u r s hu hr =
    others-each (λ q. IsOpen w q × (p ≢ q)) u.user_id r.users
      (subst IsMap (ap members hr) (s.maps u.room_id))
      λ k q g ne.
        apart k q ne (get_elem? w.users q) refl
          (s.seated u.room_id k q (ap (λ o. lookup k (members o)) hr ∙ g))
  where
    apart :
        (k : String) (q : ℕ)
        → k ≢ u.user_id
        → (o : Option User) → get_elem? w.users q ≡ o
        → skeleton o ≡ seat u.room_id k false
        → IsOpen w q × (p ≢ q)
    apart k q ne none h e = absurd (cc)
    apart k q ne (some x) h e = (
      (x, h, ground (arith, e)),
      λ same.
          let t : get_elem? w.users q ≡ some u = ap (get_elem? w.users) (sym same) ∙ hu in
          ne (ground (arith, t, h, e)),
    )

closed_world-IsOpen :
    (p : ℕ) (u : User) (w : World) (q : ℕ) → IsOpen w q × (p ≢ q) → IsOpen (closed_world p u w) q
closed_world-IsOpen p u w q h =
    (h.0.0, get_elem?-set_ne w.users p q (record u { closed = true }) h.1 ∙ h.0.1, h.0.2)

module _ (env : Env) (made : Outcome Router) where
  unregister-blocked :
      (p v : ℕ) (r : Room) (u : User) (w : World)
      → has_user p w.online ≡ true
      → lookup u.room_id w.rooms ≡ some r
      → get_elem? w.users p ≡ some u
      → All (λ q. IsOpen w q × (p ≢ q)) (others u.user_id r.users)
      → Elem v (others u.user_id r.users)
      → p ≢ v
      → IsStuck w v
      → unregister env made p w ≡ err blocked
  unfolding unregister leave_room delete_user
  unregister-blocked p v r u w hp hr hu apart there ne s =
      let u' : User = record u { closed = true } in
      let w₁ : World = closed_world p u w in
      let hu' : get_elem? w₁.users p ≡ some u' = get_elem?-set_self w.users p u u' hu in
      let r' : Room = record r { users = delete u.user_id r.users } in
      let w₂ : World = record w₁ { rooms = insert u.room_id r' w.rooms } in
      let same = sym (entries-delete u.user_id r.users) in
      let open_now : All (IsOpen w₂) (entries (delete u.user_id r.users)) =
        subst (All (IsOpen w₂)) same
          (All-map (others u.user_id r.users) (closed_world-IsOpen p u w) apart) in
      let stuck : IsStuck w₂ v = (s.0, get_elem?-set_ne w.users p v u' ne ∙ s.1, s.2, s.3) in
      let tells : notify_closed (closed_peer u') (delete u.user_id r.users) w₂ ≡ err blocked =
        notify_closed-blocked (closed_peer u') (delete u.user_id r.users) w₂ v open_now
          (subst (Elem v) same there) stuck in
      let leaves : delete_user u.room_id p w₁ ≡ err blocked =
        bind-ok (load_room u.room_id) _ w₁ w₁ r (load_room-some u.room_id r w₁ hr)
        ∙ bind-ok (load p) _ w₁ w₁ u' (load-some p u' w₁ hu')
        ∙ bind-ok (save_room u.room_id r')
            (λ _. notify_closed (closed_peer u') (delete u.user_id r.users)) w₁ w₂ tt refl
        ∙ tells in
      rw (hp, unregister)
        (bind-ok (update_user p (λ x. record x { closed = true })) (λ _. leave_room env made p)
            (record w { online = drop_user p w.online }) w₁ tt
            (update-some p u (λ x. record x { closed = true })
              (record w { online = drop_user p w.online }) hu)
          ∙ bind-ok (load p) _ w₁ w₁ u' (load-some p u' w₁ hu')
          ∙ bind-ok (get_or_create_room made u.room_id) _ w₁ w₁ (some r)
              (get_or_create_room-some made u.room_id r w₁ hr)
          ∙ bind-err (delete_user u.room_id p) _ w₁ blocked leaves)

  -- After any sequence of events that all come back, a write to the connection of some user fails, and
  -- then the connection of another user of the same room, who is on line, ends: to unregister that user
  -- never comes back, whether or not the writers of further users run, and so no event after it is
  -- handled.
  pub handle_events-blocked :
      (es es' : List Event) (p v : ℕ) (r : Room) (u : User) (w : World)
      → handle_events env es start ≡ ok (tt, w)
      → has_user p w.online ≡ true
      → get_elem? w.users p ≡ some u
      → lookup u.room_id w.rooms ≡ some r
      → Elem v (others u.user_id r.users)
      → handle_events env (write_fails v ∷ disconnect p made ∷ es') w ≡ err blocked
  unfolding handle_events stop_writing
  handle_events-blocked es es' p v r u w run hp hu hr there =
      let s = handle_events-Seats env es start Seats-start tt w run in
      let ((x, hx, ox), ne) =
        All-Elem (λ q. IsOpen w q × (p ≢ q)) (others u.user_id r.users) v
          (others-apart w p u r s hu hr) there in
      let x' : User = record x { writing = false } in
      let w₁ : World = record w { users = set w.users v x' } in
      let fails : handle_event env (write_fails v) w ≡ ok (tt, w₁) =
        update-some v x (λ y. record y { writing = false }) w hx in
      let s₁ = handle_event-Seats env (write_fails v) w s tt w₁ fails in
      let hu₁ : get_elem? w₁.users p ≡ some u =
        get_elem?-set_ne w.users v p x' (λ e. ne (sym e)) ∙ hu in
      bind-ok (handle_event env (write_fails v)) (λ _. handle_events env (disconnect p made ∷ es'))
        w w₁ tt fails
      ∙ bind-err (unregister env made p) (λ _. handle_events env es') w₁ blocked
          (unregister-blocked p v r u w₁ hp hr hu₁ (others-apart w₁ p u r s₁ hu₁ hr) there ne
            (x', get_elem?-set_self w.users v x x' hx, ox, refl))

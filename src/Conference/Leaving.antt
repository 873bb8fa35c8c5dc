-- ===== src/Conference/Leaving.antt =====
-- What is left when a user's connection ends.
use singal.Common.{
  ℕ, ◌≡◌, ◌≢◌, refl, true, false, String, none, some, List, [], ◌∷◌, arith, ◌==◌, length, suc,
  eq_iff, ◌+◌, get_elem?, set, All, ◌∙◌, ap, sym,
}
use mathlib.Core.Path.{subst}
use singal.Conference.{
  update_user, Env, World, User, Room, notification_of, peer, notify_peer_closed, load, load_room,
  save_room, get_or_create_room, delete_room,
}
use singal.Conference.Connections.{has_user, drop_user, leave_room, unregister, close_room}
use singal.Conference.Rooms.{notify_closed, delete_user, closed_peer, get_user_nums}
use singal.Conference.Consumers.{logged}
use singal.Conference.Steps.{
  IsHeard, announce, others, bind-ok, load-some, update-some, load_room-some, send_open,
  get_elem?-set_self, get_elem?-set_ne,
}
use singal.Dict.{Dict, lookup, insert, delete, lookup-insert_self, lookup-delete_self}
use singal.Media.{Peer}
use singal.Proto.{RouterResponse}
use singal.Router.{Router}
use singal.Rtc.Media.{Outcome, ok, err, panic}
use singal.Rtc.{router_answer, close_router_request}

-- The channel of each of the entries takes the notice.
unfoldable pub entries : Dict ℕ → List ℕ
entries [] = []
entries ((k, p) ∷ m) = p ∷ entries m

pub entries-delete : (user : String) (m : Dict ℕ) → entries (delete user m) ≡ others user m
unfolding entries delete others
entries-delete user [] = refl
entries-delete user ((k, p) ∷ m) = ground (arith, entries-delete user m)

notify_closed_lem :
    (d : Peer) (m : Dict ℕ) (w : World)
    → All (IsHeard w) (entries m)
    → notify_closed d m w
      ≡ ok (
        tt,
        record w { sent = announce (notification_of "peerClosed" (peer d)) (entries m) w.sent },
      )
unfolding notify_closed entries announce
notify_closed_lem d [] w h = refl
notify_closed_lem d ((k, p) ∷ m) w h =
    let w' : World = record w { sent = (p, notification_of "peerClosed" (peer d)) ∷ w.sent } in
    bind-ok (notify_peer_closed p d) (λ _. notify_closed d m) w w' tt (notify_open p d w h.0)
    ∙ notify_closed_lem d m w' h.1
  where
    notify_open :
        (p : ℕ) (d : Peer) (w : World)
        → IsHeard w p
        → notify_peer_closed p d w
          ≡ ok (tt, record w { sent = (p, notification_of "peerClosed" (peer d)) ∷ w.sent })
    notify_open p d w h =
        unfold notify_peer_closed in send_open p (notification_of "peerClosed" (peer d)) w h

-- The world in which a user's channel is closed and the user is off line.
abbrev pub closed_world : ℕ → User → World → World
closed_world p u w = record w {
  online = drop_user p w.online;
  users = set w.users p (record u { closed = true });
}

closed_world-IsHeard :
    (p : ℕ) (u : User) (w : World) (ps : List ℕ)
    → All (λ q. IsHeard w q × (p ≢ q)) ps
    → All (IsHeard (closed_world p u w)) ps
closed_world-IsHeard p u w [] h = tt
closed_world-IsHeard p u w (q ∷ ps) h = (
  (
    h.0.0.0,
    get_elem?-set_ne w.users p q (record u { closed = true }) h.0.1 ∙ h.0.0.1,
    h.0.0.2,
    h.0.0.3,
  ),
  closed_world-IsHeard p u w ps h.1,
)

-- The world after `delete_user`.
abbrev left_world : Room → User → World → World
left_world r u w = record w {
  rooms = insert u.room_id (record r { users = delete u.user_id r.users }) w.rooms;
  sent =
      announce (notification_of "peerClosed" (peer (closed_peer u))) (others u.user_id r.users)
        w.sent;
}

delete_user_lem :
    (p : ℕ) (r : Room) (u : User) (w : World)
    → lookup u.room_id w.rooms ≡ some r
    → get_elem? w.users p ≡ some u
    → All (IsHeard w) (others u.user_id r.users)
    → delete_user u.room_id p w ≡ ok (tt, left_world r u w)
unfolding delete_user
delete_user_lem p r u w hr hu h =
    let r' : Room = record r { users = delete u.user_id r.users } in
    let w' : World = record w { rooms = insert u.room_id r' w.rooms } in
    bind-ok (load_room u.room_id) _ w w r (load_room-some u.room_id r w hr)
    ∙ bind-ok (load p) _ w w u (load-some p u w hu)
    ∙ bind-ok (save_room u.room_id r')
        (λ _. notify_closed (closed_peer u) (delete u.user_id r.users)) w w' tt refl
    ∙ notify_closed_lem (closed_peer u) (delete u.user_id r.users) w'
        (subst (All (IsHeard w')) (sym (entries-delete u.user_id r.users)) h)
    ∙ ap
        (λ ps. ok (
          tt,
          record w' {
            sent = announce (notification_of "peerClosed" (peer (closed_peer u))) ps w.sent;
          },
        ))
        (entries-delete u.user_id r.users)

length-entries : (m : Dict ℕ) → length (entries m) ≡ length m
unfolding entries
length-entries [] = refl
length-entries (x ∷ m) = ap suc (length-entries m)

get_user_nums-delete :
    (r : Room) (user : String)
    → get_user_nums (record r { users = delete user r.users }) ≡ length (others user r.users)
unfolding get_user_nums
get_user_nums-delete r user =
    sym (length-entries (delete user r.users)) ∙ ap length (entries-delete user r.users)

has_user-drop_user : (p : ℕ) (ps : List ℕ) → has_user p (drop_user p ps) ≡ false
has_user-drop_user p [] = refl
has_user-drop_user p (q ∷ ps) = ground (arith, has_user-drop_user p ps)

delete-insert :
    {V : Type 0} (k : String) (v : V) (m : Dict V) → delete k (insert k v m) ≡ delete k m
unfolding delete insert
delete-insert k v [] = ground (arith, eq_iff k k)
delete-insert k v ((j, w) ∷ m) = ground (arith, delete-insert k v m, eq_iff k k)

module _ (env : Env) (made : Outcome Router) where
  leave_room-others :
      (p : ℕ) (r : Room) (u : User) (w : World) (q : ℕ) (qs : List ℕ)
      → lookup u.room_id w.rooms ≡ some r
      → get_elem? w.users p ≡ some u
      → others u.user_id r.users ≡ q ∷ qs
      → All (IsHeard w) (others u.user_id r.users)
      → leave_room env made p w ≡ ok (tt, left_world r u w)
  unfolding leave_room get_or_create_room
  leave_room-others p r u w q qs hr hu ho h =
      let r' : Room = record r { users = delete u.user_id r.users } in
      let w' : World = left_world r u w in
      let some_left : (get_user_nums r' == 0) ≡ false =
        ground (arith, get_user_nums-delete r u.user_id, ap length ho) in
      bind-ok (load p) _ w w u (load-some p u w hu)
      ∙ bind-ok (get_or_create_room made u.room_id) _ w w (some r) (ground (arith, hr))
      ∙ bind-ok (delete_user u.room_id p) _ w w' tt (delete_user_lem p r u w hr hu h)
      ∙ bind-ok (load_room u.room_id) _ w' w' r'
          (load_room-some u.room_id r' w' (lookup-insert_self u.room_id r' w.rooms))
      ∙ rw some_left

  -- When a user on line leaves a room that has other users, all with open channels whose writers still run, its channel is
  -- closed, it leaves the room and the set of users, each other user gets one `peerClosed`, and
  -- nothing else changes; to unregister the user again then changes nothing.
  pub unregister-others :
      (p : ℕ) (r : Room) (u : User) (w : World) (q : ℕ) (qs : List ℕ)
      → has_user p w.online ≡ true
      → lookup u.room_id w.rooms ≡ some r
      → get_elem? w.users p ≡ some u
      → others u.user_id r.users ≡ q ∷ qs
      → All (λ v. IsHeard w v × (p ≢ v)) (others u.user_id r.users)
      → let w' : World = record (closed_world p u w) {
        rooms = insert u.room_id (record r { users = delete u.user_id r.users }) w.rooms;
        sent =
            announce
              (notification_of "peerClosed" (peer (closed_peer u)))
              (others u.user_id r.users)
              w.sent;
      } in
        (unregister env made p w ≡ ok (tt, w')) × (unregister env made p w' ≡ ok (tt, w'))
  unfolding unregister
  unregister-others p r u w q qs hp hr hu ho h =
      let u' : User = record u { closed = true } in
      let w₁ : World = closed_world p u w in
      (
        rw (hp, unregister)
            (bind-ok (update_user p (λ v. record v { closed = true })) (λ _. leave_room env made p)
                _ (closed_world p u w) tt
                (update-some p u (λ v. record v { closed = true })
                  (record w { online = drop_user p w.online }) hu)
              ∙ leave_room-others p r u' w₁ q qs hr (get_elem?-set_self w.users p u u' hu) ho
                  (closed_world-IsHeard p u w (others u.user_id r.users) h)),
        rw (has_user-drop_user p w.online, unregister) refl,
      )

  close_room_lem :
      (router : Router) (w : World)
      → router_answer (env.remote (close_router_request router (env.rand_string w.draws 10)))
        ≢ panic
      → close_room env made router w ≡ ok (tt, record w { draws = w.draws + 1 })
  unfolding close_room
  close_room_lem router w h =
      go (router_answer (env.remote (close_router_request router (env.rand_string w.draws 10)))) h
    where
      go :
          (o : Outcome RouterResponse)
          → o ≢ panic
          → logged o (record w { draws = w.draws + 1 }) ≡ ok (tt, record w { draws = w.draws + 1 })
      go (ok a) ne = refl
      go (err e) ne = refl
      go panic ne = absurd (ne refl)

  leave_room_last :
      (p : ℕ) (r : Room) (u : User) (w : World)
      → lookup u.room_id w.rooms ≡ some r
      → get_elem? w.users p ≡ some u
      → others u.user_id r.users ≡ []
      → router_answer (env.remote (close_router_request r.router (env.rand_string w.draws 10)))
        ≢ panic
      → leave_room env made p w
        ≡ ok (tt, record w { rooms = delete u.room_id w.rooms; draws = w.draws + 1 })
  unfolding leave_room get_or_create_room delete_room announce
  leave_room_last p r u w hr hu ho safe =
      let r' : Room = record r { users = delete u.user_id r.users } in
      let w' : World = record w { rooms = insert u.room_id r' w.rooms } in
      let none_left : (get_user_nums r' == 0) ≡ true =
        ground (arith, get_user_nums-delete r u.user_id, ap length ho) in
      let same : left_world r u w ≡ w' =
        ap
          (λ ps. record w' {
            sent = announce (notification_of "peerClosed" (peer (closed_peer u))) ps w.sent;
          })
          ho in
      bind-ok (load p) _ w w u (load-some p u w hu)
      ∙ bind-ok (get_or_create_room made u.room_id) _ w w (some r) (ground (arith, hr))
      ∙ bind-ok (delete_user u.room_id p) _ w w' tt (
          delete_user_lem p r u w hr hu (subst (All (IsHeard w)) (sym ho) tt)
          ∙ ap (λ v. ok (tt, v)) same)
      ∙ bind-ok (load_room u.room_id) _ w' w' r'
          (load_room-some u.room_id r' w' (lookup-insert_self u.room_id r' w.rooms))
      ∙ rw none_left (
          bind-ok (close_room env made r.router) (λ _. delete_room u.room_id) w'
            (record w' { draws = w.draws + 1 }) tt (close_room_lem r.router w' safe)
          ∙ ap (λ m. ok (tt, record w { rooms = m; draws = w.draws + 1 }))
              (delete-insert u.room_id r' w.rooms))

  -- When the last user of a room goes and reading the worker's answer does not panic, the room is
  -- gone too, even where the worker refuses; the user's channel is closed, it leaves the set of
  -- users, and nobody is told.
  pub unregister_last :
      (p : ℕ) (r : Room) (u : User) (w : World)
      → has_user p w.online ≡ true
      → lookup u.room_id w.rooms ≡ some r
      → get_elem? w.users p ≡ some u
      → others u.user_id r.users ≡ []
      → router_answer (env.remote (close_router_request r.router (env.rand_string w.draws 10)))
        ≢ panic
      → let w' : World = record (closed_world p u w) {
        rooms = delete u.room_id w.rooms;
        draws = w.draws + 1;
      } in
        (unregister env made p w ≡ ok (tt, w')) × (lookup u.room_id w'.rooms ≡ none)
  unfolding unregister
  unregister_last p r u w hp hr hu ho safe =
      let u' : User = record u { closed = true } in
      (
        rw (hp, unregister)
            (bind-ok (update_user p (λ v. record v { closed = true })) (λ _. leave_room env made p)
                _ (closed_world p u w) tt
                (update-some p u (λ v. record v { closed = true })
                  (record w { online = drop_user p w.online }) hu)
              ∙ leave_room_last p r u' (closed_world p u w) hr
                  (get_elem?-set_self w.users p u u' hu) ho safe),
        lookup-delete_self u.room_id w.rooms,
      )

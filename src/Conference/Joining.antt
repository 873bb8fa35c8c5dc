-- ===== src/Conference/Joining.antt =====
-- Joining a room, after any sequence of events.
use singal.Common.{
  ℤ, ℕ, ◌≡◌, refl, true, false, String, Option, none, some, List, [], ◌∷◌, arith, get_elem?, set,
  All, All-map, eq_iff, str_eq, Bool-cases, inl, inr, ◌∙◌, ap, sym, ◌==◌, ◌≢◌,
}
use mathlib.Core.Path.{subst}
use singal.Conference.{
  Env, User, Room, World, M, ◌>>=◌, ◌>>◌, load, update_user, send, get_or_create_room, response_of,
  notification_of, peers, peer_data,
}
use singal.Conference.Connections.{has_user}
use singal.Conference.Frame.{skeleton, members}
use singal.Conference.Handlers.{handle_join}
use singal.Conference.Notices.{notify_other_users-get_other_users, profiles}
use singal.Conference.Rooms.{peer_of, notify_other_users, get_other_users}
use singal.Conference.Seats.{seat, Seats}
use singal.Conference.Sessions.{Event, handle_events, start, handle_events-Seats, Seats-start}
use singal.Conference.Steps.{
  get_or_create_room-some, IsOpen, IsHeard, announce, others, bind-ok, bind_assoc, load-some,
  update-some, send_open, get_elem?-set_self, get_elem?-set_ne,
}
use singal.Dict.{Dict, lookup, IsMap}
use singal.Media.{JoinReqData, Peer}
use singal.Router.{Router}
use singal.Rtc.Media.{Outcome, ok}

pub seated-IsOpen :
    (w : World) (id user : String) (q : ℕ)
    → skeleton (get_elem? w.users q) ≡ seat id user false
    → IsOpen w q
seated-IsOpen w id user q e = go (get_elem? w.users q) refl e
  where
    go : (o : Option User) → get_elem? w.users q ≡ o → skeleton o ≡ seat id user false → IsOpen w q
    go none h e = absurd (cc)
    go (some u) h e = (u, h, ground (arith, e))

others-IsOpen :
    (w : World) (user : String) (m : Dict ℕ)
    → IsMap m
    → ((k : String) (q : ℕ) → lookup k m ≡ some q → IsOpen w q)
    → All (IsOpen w) (others user m)
unfolding others lookup
others-IsOpen w user [] h f = tt
others-IsOpen w user ((k, q) ∷ m) h f =
    let rest : All (IsOpen w) (others user m) =
      others-IsOpen w user m h.1 λ j v e. f j v (ground (arith, e, h.0, eq_iff k j)) in
    elim (Bool-cases (str_eq k user)) [
      | inl e ↦ rw e rest
      | inr e ↦ rw e (f k q (ground (arith, eq_iff k k)), rest)
    ]

-- The other users of a room that is there.
pub Seats-IsOpen :
    (w : World) (id user : String) (r : Room)
    → Seats (λ _. false) w
    → lookup id w.rooms ≡ some r
    → All (IsOpen w) (others user r.users)
Seats-IsOpen w id user r s hr =
    others-IsOpen w user r.users (subst IsMap (ap members hr) (s.maps id))
      λ k q g. seated-IsOpen w id k q (s.seated id k q (ap (λ o. lookup k (members o)) hr ∙ g))

-- A pointer to a user whose `WriteMessage` still runs.
abbrev pub IsRead : World → ℕ → Type 0
IsRead w q = (u : User) × (get_elem? w.users q ≡ some u) × (u.writing ≡ true)

pub IsHeard-both : (w : World) (q : ℕ) → IsOpen w q → IsRead w q → IsHeard w q
IsHeard-both w q (u, e, o) (v, f, r) = (u, e, o, ground (arith, e, f, r))

pub heard : (w : World) (ps : List ℕ) → All (IsOpen w) ps → All (IsRead w) ps → All (IsHeard w) ps
heard w [] o r = tt
heard w (q ∷ ps) o r = (IsHeard-both w q o.0 r.0, heard w ps o.1 r.1)

set-IsHeard :
    (w : World) (p q : ℕ) (u v : User)
    → get_elem? w.users p ≡ some u
    → v.closed ≡ false
    → v.writing ≡ true
    → IsHeard w q
    → IsHeard (record w { users = set w.users p v }) q
set-IsHeard w p q u v hu hv hg h = elim (Bool-cases (p == q)) [
  | inl e ↦
      let same : p ≡ q = ground arith in
      (v, ap (get_elem? (set w.users p v)) (sym same) ∙ get_elem?-set_self w.users p u v hu, hv, hg)
  | inr e ↦
      let other : p ≢ q = λ s. ground (arith, e, s) in
      (h.0, get_elem?-set_ne w.users p q v other ∙ h.1, h.2, h.3)
]

-- What a join leaves: the user's new profile, a notice to each other user, and the response.
abbrev pub joined : ℕ → ℤ → JoinReqData → User → Room → World → World
joined p id req u r w =
    let u' : User = record u { device = req.device; display_name = req.display_name } in
    let w' : World = record w { users = set w.users p u' } in
    record w' {
      sent =
          (
            p,
            response_of id true
                (peers (record { peers = profiles w'.users (others u.user_id r.users) })),
          )
          ∷ announce (notification_of "newPeer" (peer_data (record { peer = peer_of u' })))
              (others u.user_id r.users) w.sent;
    }

-- A join whose room is found or made, in a world where the users of the room have open channels that are read.
pub handle_join-joined :
    (env : Env) (made : Outcome Router) (p : ℕ) (id : ℤ) (req : JoinReqData) (u : User) (r : Room)
    (w v : World)
    → get_elem? w.users p ≡ some u
    → get_or_create_room made u.room_id w ≡ ok (some r, v)
    → get_elem? v.users p ≡ some u
    → lookup u.room_id v.rooms ≡ some r
    → u.closed ≡ false
    → u.writing ≡ true
    → All (IsHeard v) (others u.user_id r.users)
    → handle_join env made p id (some req) w ≡ ok (tt, joined p id req u r v)
unfolding handle_join
handle_join-joined env made p id req u r w v hw e hu hr hc hg open_now =
    let u' : User = record u { device = req.device; display_name = req.display_name } in
    let v' : World = record v { users = set v.users p u' } in
    let hu' : get_elem? v'.users p ≡ some u' = get_elem?-set_self v.users p u u' hu in
    let open_then : All (IsHeard v') (others u.user_id r.users) =
      All-map (others u.user_id r.users) (λ q. set-IsHeard v p q u u' hu hc hg) open_now in
    let answer : List Peer → M (Unit {0}) =
      λ l. send p (response_of id true (peers (record { peers = l }))) in
    let told : World = record v' {
      sent =
          announce (notification_of "newPeer" (peer_data (record { peer = peer_of u' })))
            (others u.user_id r.users) v.sent;
    } in
    bind-ok (load p) _ w w u (load-some p u w hw)
    ∙ bind-ok (get_or_create_room made u.room_id) _ w v (some r) e
    ∙ bind-ok
        (update_user p (λ v. record v { device = req.device; display_name = req.display_name }))
        (λ _. notify_other_users u.room_id p >> (get_other_users u.room_id p >>= answer)) v v' tt
        (update-some p u (λ v. record v { device = req.device; display_name = req.display_name }) v
          hu)
    ∙ bind_assoc (notify_other_users u.room_id p) (λ _. get_other_users u.room_id p) answer v'
    ∙ bind-ok (notify_other_users u.room_id p >> get_other_users u.room_id p) answer v' told
        (profiles v'.users (others u.user_id r.users))
        (notify_other_users-get_other_users u.room_id p r u' v' hr hu' open_then)
    ∙ send_open p
        (response_of id true
          (peers (record { peers = profiles v'.users (others u.user_id r.users) })))
        told (u', hu', hc, hg)

-- After any sequence of events that all come back, a user on line whose room is there joins it, where
-- the writers of its connection and of those of the room's other users still run: no send panics or
-- blocks, its device and name are kept, each other user of the room gets one `newPeer` with its new
-- profile, it gets one response with the profiles of the others, and nothing else changes.
pub handle_events-handle_join :
    (env : Env) (made : Outcome Router) (es : List Event) (w : World) (p : ℕ) (id : ℤ)
    (req : JoinReqData) (u : User) (r : Room)
    → handle_events env es start ≡ ok (tt, w)
    → has_user p w.online ≡ true
    → get_elem? w.users p ≡ some u
    → lookup u.room_id w.rooms ≡ some r
    → u.writing ≡ true
    → All (IsRead w) (others u.user_id r.users)
    → let u' : User = record u { device = req.device; display_name = req.display_name } in
      let w' : World = record w { users = set w.users p u' } in
      handle_join env made p id (some req) w
      ≡ ok (
        tt,
        record w' {
          sent =
              (
                p,
                response_of id true
                    (peers (record { peers = profiles w'.users (others u.user_id r.users) })),
              )
              ∷ announce
                  (notification_of "newPeer" (peer_data (record { peer = peer_of u' })))
                  (others u.user_id r.users)
                  w.sent;
        },
      )
handle_events-handle_join env made es w p id req u r e hp hu hr hg read =
    let s = handle_events-Seats env es start Seats-start tt w e in
    let (room_id, user_id, f) = s.opened p hp in
    handle_join-joined env made p id req u r w w hu (get_or_create_room-some made u.room_id r w hr)
      hu hr (ground (arith, f, hu)) hg
      (heard w (others u.user_id r.users) (Seats-IsOpen w u.room_id u.user_id r s hr) read)

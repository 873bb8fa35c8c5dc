-- ===== src/Conference/Notices.antt =====
-- What the users of a room are told when one of them joins.
use singal.Common.{
  ℕ, ◌≡◌, refl, true, false, String, none, some, List, [], ◌∷◌, arith, str_eq, Bool-cases, inl, inr,
  get_elem?, All, ◌∙◌,
}
use mathlib.Core.Path.{subst}
use singal.Conference.{
  World, User, Room, ◌>>◌, notification_of, peer_data, notify_new_peer, load, load_room,
}
use singal.Conference.Rooms.{
  other_peers, notify_others, peer_of, notify_other_users, get_other_users,
}
use singal.Conference.Steps.{
  IsHeard, announce, others, bind-ok, load-some, load_room-some, send_open,
}
use singal.Dict.{Dict, lookup}
use singal.Media.{Peer, PeerData}
use singal.Rtc.Media.{ok}

-- The users that pointers point to.
unfoldable pub profiles : List User → List ℕ → List Peer
profiles users [] = []
profiles users (p ∷ ps) = elim (get_elem? users p) [
  | none ↦ profiles users ps
  | some u ↦ peer_of u ∷ profiles users ps
]

pub others_same :
    (user k : String) (p : ℕ) (m : Dict ℕ)
    → str_eq k user ≡ true
    → others user ((k, p) ∷ m) ≡ others user m
unfolding others
others_same user k p m e = ground (arith, e)

pub others_other :
    (user k : String) (p : ℕ) (m : Dict ℕ)
    → str_eq k user ≡ false
    → others user ((k, p) ∷ m) ≡ p ∷ others user m
unfolding others
others_other user k p m e = ground (arith, e)

notify_open :
    (p : ℕ) (d : PeerData) (w : World)
    → IsHeard w p
    → notify_new_peer p d w
      ≡ ok (tt, record w { sent = (p, notification_of "newPeer" (peer_data d)) ∷ w.sent })
unfolding notify_new_peer
notify_open p d w h = send_open p (notification_of "newPeer" (peer_data d)) w h

-- A new user is announced to each of the other users of the room once, in the order of the map, and
-- nothing else changes, where those users' channels are open.
pub notify_others_lem :
    (user : String) (d : PeerData) (m : Dict ℕ) (w : World)
    → All (IsHeard w) (others user m)
    → notify_others user d m w
      ≡ ok (
        tt,
        record w {
          sent = announce (notification_of "newPeer" (peer_data d)) (others user m) w.sent;
        },
      )
unfolding notify_others others announce
notify_others_lem user d [] w h = refl
notify_others_lem user d ((k, p) ∷ m) w h = elim (Bool-cases (str_eq k user)) [
  | inl e ↦
      rw (e, notify_others, others)
        (notify_others_lem user d m w (subst (All (IsHeard w)) (others_same user k p m e) h))
  | inr e ↦
      let h' = subst (All (IsHeard w)) (others_other user k p m e) h in
      rw (e, notify_others, others)
        (bind-ok (notify_new_peer p d) (λ _. notify_others user d m) w
            (record w { sent = (p, notification_of "newPeer" (peer_data d)) ∷ w.sent }) tt
            (notify_open p d w h'.0)
          ∙ notify_others_lem user d m
              (record w { sent = (p, notification_of "newPeer" (peer_data d)) ∷ w.sent }) h'.1)
]

-- The list of the other users has one profile for each of them, and reading it changes nothing.
pub other_peers_lem :
    (user : String) (m : Dict ℕ) (w : World)
    → All (IsHeard w) (others user m)
    → other_peers user m w ≡ ok (profiles w.users (others user m), w)
unfolding other_peers others profiles
other_peers_lem user [] w h = refl
other_peers_lem user ((k, p) ∷ m) w h = elim (Bool-cases (str_eq k user)) [
  | inl e ↦
      rw (e, other_peers, others)
        (other_peers_lem user m w (subst (All (IsHeard w)) (others_same user k p m e) h))
  | inr e ↦
      let h' = subst (All (IsHeard w)) (others_other user k p m e) h in
      rw (e, other_peers, others, profiles, h'.0.1)
        (bind-ok (load p) _ w w h'.0.0 (load-some p h'.0.0 w h'.0.1)
          ∙ bind-ok (other_peers user m) _ w w (profiles w.users (others user m))
              (other_peers_lem user m w h'.1))
]

-- Where the room exists and the channels of its other users are open, `NotifyOtherUsers` and then
-- `GetOtherUsers` do this and nothing else: each other user gets one `newPeer` with the profile of
-- the user, in the order of the map, and the result has one profile of each of them.
pub notify_other_users-get_other_users :
    (room_id : String) (p : ℕ) (r : Room) (u : User) (w : World)
    → lookup room_id w.rooms ≡ some r
    → get_elem? w.users p ≡ some u
    → All (IsHeard w) (others u.user_id r.users)
    → (notify_other_users room_id p >> get_other_users room_id p) w
      ≡ ok (
        profiles w.users (others u.user_id r.users),
        record w {
          sent =
              announce
                (notification_of "newPeer" (peer_data (record { peer = peer_of u })))
                (others u.user_id r.users)
                w.sent;
        },
      )
unfolding notify_other_users get_other_users
notify_other_users-get_other_users room_id p r u w e f h =
    let w' : World = record w {
      sent =
          announce (notification_of "newPeer" (peer_data (record { peer = peer_of u })))
            (others u.user_id r.users) w.sent;
    } in
    bind-ok (notify_other_users room_id p) (λ _. get_other_users room_id p) w w' tt
      (bind-ok (load_room room_id) _ w w r (load_room-some room_id r w e)
        ∙ bind-ok (load p) _ w w u (load-some p u w f)
        ∙ notify_others_lem u.user_id (record { peer = peer_of u }) r.users w h)
    ∙ bind-ok (load_room room_id) _ w' w' r (load_room-some room_id r w' e)
    ∙ bind-ok (load p) _ w' w' u (load-some p u w' f)
    ∙ other_peers_lem u.user_id r.users w' h

-- ===== src/Conference/Keeps.antt =====
-- The frame of each access to users, rooms and channels.
use singal.Common.{
  ℕ, ◌≡◌, refl, Bool, true, false, String, Option, none, some, List, [], ◌∷◌, arith, eq_iff,
  if◌then◌else◌, get_elem?, set, zero, suc, ◌∙◌, ap, sym,
}
use mathlib.Core.Path.{subst}
use singal.Conference.{
  User, Room, World, WsMessage, blocked, load, update_user, send, load_room, save_room,
  get_or_create_room,
}
use singal.Conference.Consumers.{save_router}
use singal.Dict.{lookup, insert, lookup-insert}
use singal.Router.{Router}
use singal.Rtc.Media.{Outcome, ok, err, panic}
use singal.Conference.Frame.{skeleton, skeleton_of, answers, Frame, Does, Does-same, Frame-same}

pub Does-load : (p : ℕ) → Does [] (load p)
Does-load p = Does-same (load p) λ w w' u e. ground (arith, e)

pub Does-load_room : (id : String) → Does [] (load_room id)
Does-load_room id = Does-same (load_room id) λ w w' u e. ground (arith, e)

set-skeleton :
    (l : List User) (p q : ℕ) (u v : User)
    → get_elem? l p ≡ some u
    → skeleton_of v ≡ skeleton_of u
    → skeleton (get_elem? (set l p v) q) ≡ skeleton (get_elem? l q)
set-skeleton [] p q u v e h = refl
set-skeleton (x ∷ l) zero zero u v e h = ap some h ∙ ap skeleton (sym e)
set-skeleton (x ∷ l) zero (suc q) u v e h = refl
set-skeleton (x ∷ l) (suc p) zero u v e h = refl
set-skeleton (x ∷ l) (suc p) (suc q) u v e h = set-skeleton l p q u v e h

-- An update of what may change.
pub Does-update_user :
    (p : ℕ) (f : User → User)
    → ((u : User) → skeleton_of (f u) ≡ skeleton_of u)
    → Does [] (update_user p f)
Does-update_user p f h = record { at = λ w w' a e. go w w' (get_elem? w.users p) refl e }
  where
    go :
        (w w' : World) (o : Option User)
        → get_elem? w.users p ≡ o
        → elim o as (λ _. Outcome (Unit {0} × World)) [
          | none ↦ panic
          | some u ↦ ok (tt, record w { users = set w.users p (f u) })
        ]
          ≡ ok (tt, w')
        → Frame [] w w'
    go w w' none g e = absurd (cc)
    go w w' (some u) g e =
        let t : record w { users = set w.users p (f u) } ≡ w' = ground (arith, e) in
        subst (Frame [] w) t (record {
          same_users = λ q. set-skeleton w.users p q u (f u) g (h u);
          same_online = refl;
          same_members = λ id. refl;
          kept_rooms = λ id k. k;
          answered = refl;
        })

-- A message that is put in a channel: a response, or anything else.
pub Does-send :
    (p : ℕ) (m : WsMessage) → Does (if m.response then (p, m.id) ∷ [] else []) (send p m)
unfolding answers
Does-send p m = record { at = λ w w' a e. go w w' (get_elem? w.users p) e }
  where
    sent :
        (w : World) (b : Bool)
        → m.response ≡ b
        → Frame (if b then (p, m.id) ∷ [] else []) w (record w { sent = (p, m) ∷ w.sent })
    sent w true h = record {
      same_users = λ q. refl;
      same_online = refl;
      same_members = λ id. refl;
      kept_rooms = λ id k. k;
      answered = ground (arith, h);
    }
    sent w false h = record {
      same_users = λ q. refl;
      same_online = refl;
      same_members = λ id. refl;
      kept_rooms = λ id k. k;
      answered = ground (arith, h);
    }

    go :
        (w w' : World) (o : Option User)
        → elim o as (λ _. Outcome (Unit {0} × World)) [
          | none ↦ panic
          | some u ↦
              if u.closed
              then panic
              else if u.writing
              then ok (tt, record w { sent = (p, m) ∷ w.sent })
              else err blocked
        ]
          ≡ ok (tt, w')
        → Frame (if m.response then (p, m.id) ∷ [] else []) w w'
    go w w' none e = absurd (cc)
    go w w' (some u) e =
        let t : record w { sent = (p, m) ∷ w.sent } ≡ w' = ground (arith, e) in
        subst (Frame (if m.response then (p, m.id) ∷ [] else []) w) t (sent w m.response refl)

-- A room's router may change: its users stay.
insert_router :
    (id : String) (r : Room) (router : Router) (w : World)
    → lookup id w.rooms ≡ some r
    → Frame [] w (record w { rooms = insert id (record r { router = router }) w.rooms })
insert_router id r router w e = record {
  same_users = λ q. refl;
  same_online = refl;
  same_members = λ j.
      ground (arith, lookup-insert id j (record r { router = router }) w.rooms, eq_iff id j, e);
  kept_rooms = λ j k. ground (arith, lookup-insert id j (record r { router = router }) w.rooms);
  answered = refl;
}

pub Does-save_router : (id : String) (router : Router) → Does [] (save_router id router)
Does-save_router id router = record { at = λ w w' a e. go w w' (lookup id w.rooms) refl e }
  where
    go :
        (w w' : World) (o : Option Room)
        → lookup id w.rooms ≡ o
        → elim (elim o as (λ _. Outcome (Room × World)) [ none ↦ panic | some r ↦ ok (r, w) ])
            as (λ _. Outcome (Unit {0} × World)) [
              | ok (r, v) ↦ save_room id (record r { router = router }) v
              | err s ↦ err s
              | panic ↦ panic
            ]
          ≡ ok (tt, w')
        → Frame [] w w'
    go w w' none h e = absurd (cc)
    go w w' (some r) h e =
        let t : record w { rooms = insert id (record r { router = router }) w.rooms } ≡ w' =
          ground (arith, e) in
        subst (Frame [] w) t (insert_router id r router w h)

-- A room that is made is empty.
pub Does-get_or_create_room :
    (made : Outcome Router) (id : String) → Does [] (get_or_create_room made id)
unfolding get_or_create_room
Does-get_or_create_room made id = record {
  at = λ w w' a e. go w w' a (lookup id w.rooms) refl made e;
}
  where
    new : Router → Room
    new router = record { room_id = id; router = router; users = [] }

    go :
        (w w' : World) (a : Option Room) (o : Option Room)
        → lookup id w.rooms ≡ o
        → (m : Outcome Router)
        → elim o as (λ _. Outcome (Option Room × World)) [
          | some r ↦ ok (some r, w)
          | none ↦ elim m as (λ _. Outcome (Option Room × World)) [
            | ok router ↦
                ok (some (new router), record w { rooms = insert id (new router) w.rooms })
            | err s ↦ ok (none, w)
            | panic ↦ panic
          ]
        ]
          ≡ ok (a, w')
        → Frame [] w w'
    go w w' a (some r) h m e = ground (arith, e, Frame-same w w refl refl refl refl)
    go w w' a none h panic e = absurd (cc)
    go w w' a none h (err s) e =
        let t : w ≡ w' = ground (arith, e) in
        subst (Frame [] w) t (Frame-same w w refl refl refl refl)
    go w w' a none h (ok router) e =
        let t : record w { rooms = insert id (new router) w.rooms } ≡ w' = ground (arith, e) in
        subst (Frame [] w) t (record {
          same_users = λ q. refl;
          same_online = refl;
          same_members =
              λ j. ground (arith, lookup-insert id j (new router) w.rooms, eq_iff id j, h);
          kept_rooms = λ j k. ground (arith, lookup-insert id j (new router) w.rooms);
          answered = refl;
        })

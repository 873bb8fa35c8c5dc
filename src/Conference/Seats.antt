-- ===== src/Conference/Seats.antt =====
-- Who sits where: the entries of the rooms against the users and the set of users on line.
use singal.Common.{
  ℤ, ℕ, ◌≡◌, refl, Bool, true, false, not, String, Option, none, some, List, [], ◌∷◌, ◌++◌, arith,
  ◌==◌, if◌then◌else◌, get_elem?, set, ◌∙◌, ap, sym, Bool-cases, inl, inr,
}
use mathlib.Core.Path.{subst}
use singal.Conference.{User, Room, World}
use singal.Conference.Frame.{Skeleton, skeleton, members, Frame}
use singal.Conference.Connections.{has_user, drop_user}
use singal.Dict.{lookup, insert, delete, IsMap, insert-IsMap, delete-IsMap}
use singal.Conference.Entries.{
  members-insert, members-delete, skeleton-set, skeleton-append, left_entry, no_member, kept_entry,
  entered_entry,
}

-- The user at `p` is known by `user` in the room `id`, and its channel is closed or not.
abbrev pub seat : String → String → Bool → Option Skeleton
seat id user closed = some (record { user_id = user; room_id = id; closed = closed })

-- Each entry of a room is of a user of that name and that room; but for the users that are `gone`,
-- which the rooms may still hold, it is on line with an open channel.
pub record Seats (gone : ℕ → Bool) (w : World) : Type 0 where
  pub seated :
      (id user : String) (p : ℕ)
      → lookup user (members (lookup id w.rooms)) ≡ some p
      → skeleton (get_elem? w.users p) ≡ seat id user (gone p)
  pub present :
      (id user : String) (p : ℕ)
      → lookup user (members (lookup id w.rooms)) ≡ some p
      → has_user p w.online ≡ not (gone p)
  pub opened :
      (p : ℕ)
      → has_user p w.online ≡ true
      → (id : String) × (user : String) × (skeleton (get_elem? w.users p) ≡ seat id user false)
  pub maps : (id : String) → IsMap (members (lookup id w.rooms))

pub Frame-Seats :
    {given : List (ℕ × ℤ)} (gone : ℕ → Bool) (w w' : World)
    → Frame given w w'
    → Seats gone w
    → Seats gone w'
Frame-Seats gone w w' f s = record {
  seated = λ id user p e.
      f.same_users p ∙ s.seated id user p (ap (lookup user) (sym (f.same_members id)) ∙ e);
  present = λ id user p e.
      ap (has_user p) f.same_online
      ∙ s.present id user p (ap (lookup user) (sym (f.same_members id)) ∙ e);
  opened = λ p h.
      let (id, user, e) = s.opened p (ap (has_user p) (sym f.same_online) ∙ h) in
      (id, user, f.same_users p ∙ e);
  maps = λ id. subst IsMap (sym (f.same_members id)) (s.maps id);
}

has_user-drop_user :
    (p q : ℕ) (ps : List ℕ)
    → has_user q (drop_user p ps) ≡ (if p == q then false else has_user q ps)
has_user-drop_user p q [] = ground arith
has_user-drop_user p q (r ∷ ps) = ground (arith, has_user-drop_user p q ps)

-- An entry of the user that is gone is the one of its own name, in its own room.
gone_seat :
    (p q : ℕ) (u : User) (id user : String) (users : List User)
    → skeleton (get_elem? users p) ≡ seat u.room_id u.user_id true
    → skeleton (get_elem? users q) ≡ seat id user (p == q)
    → (p == q) ≡ true
    → (u.room_id ≡ id) × (u.user_id ≡ user)
gone_seat p q u id user users hp hq e =
    let same : p ≡ q = ground arith in
    let t : seat u.room_id u.user_id true ≡ seat id user (p == q) =
      sym hp ∙ ap (λ n. skeleton (get_elem? users n)) same ∙ hq in
    (cc, cc)

-- The user's channel is closed and the user is off line.
pub Seats-close :
    (p : ℕ) (u : User) (w : World)
    → get_elem? w.users p ≡ some u
    → Seats (λ _. false) w
    → Seats
        (λ q. p == q)
        (record w {
          online = drop_user p w.online;
          users = set w.users p (record u { closed = true });
        })
Seats-close p u w hu s = record {
  seated = λ id user q e.
      ground
        (arith, skeleton-set w.users p q u (record u { closed = true }) hu, s.seated id user q e);
  present = λ id user q e. ground (arith, has_user-drop_user p q w.online, s.present id user q e);
  opened = λ q h.
      let e : (p == q) ≡ false = ground (arith, has_user-drop_user p q w.online) in
      let (id, user, f) = s.opened q (ground (arith, has_user-drop_user p q w.online)) in
      (
        id,
        user,
        skeleton-set w.users p q u (record u { closed = true }) hu
            ∙ ap (λ b. if b then seat u.room_id u.user_id true else skeleton (get_elem? w.users q))
                e
            ∙ f,
      );
  maps = s.maps;
}

not_gone :
    (p q : ℕ) (u : User) (id user : String) (w : World)
    → skeleton (get_elem? w.users p) ≡ seat u.room_id u.user_id true
    → Seats (λ q. p == q) w
    → lookup user (members (lookup id w.rooms)) ≡ some q
    → ¬ ((u.room_id ≡ id) × (u.user_id ≡ user))
    → (p == q) ≡ false
not_gone p q u id user w hu s e ne = elim (Bool-cases (p == q)) [
  | inl t ↦ absurd (ne (gone_seat p q u id user w.users hu (s.seated id user q e) t))
  | inr t ↦ t
]

still_here :
    (p q : ℕ) (u : User) (id user : String) (w : World)
    → skeleton (get_elem? w.users p) ≡ seat u.room_id u.user_id true
    → Seats (λ q. p == q) w
    → lookup user (members (lookup id w.rooms)) ≡ some q
    → ¬ ((u.room_id ≡ id) × (u.user_id ≡ user))
    → skeleton (get_elem? w.users q) ≡ seat id user false
still_here p q u id user w hu s e ne =
    s.seated id user q e ∙ ap (seat id user) (not_gone p q u id user w hu s e ne)

-- The entry of a user that is gone is taken out.
pub Seats-delete :
    (p : ℕ) (u : User) (r : Room) (w : World)
    → skeleton (get_elem? w.users p) ≡ seat u.room_id u.user_id true
    → lookup u.room_id w.rooms ≡ some r
    → Seats (λ q. p == q) w
    → Seats
        (λ _. false)
        (record w {
          rooms = insert u.room_id (record r { users = delete u.user_id r.users }) w.rooms;
        })
Seats-delete p u r w hu hr s = record {
  seated = λ id user q e.
      let (f, ne) = left_entry u.room_id u.user_id id user r w.rooms q hr e in
      still_here p q u id user w hu s f ne ∙ refl;
  present = λ id user q e.
      let (f, ne) = left_entry u.room_id u.user_id id user r w.rooms q hr e in
      ground (arith, s.present id user q f, not_gone p q u id user w hu s f ne);
  opened = s.opened;
  maps = λ id. ground (
    arith,
    members-insert u.room_id id (record r { users = delete u.user_id r.users }) w.rooms,
    delete-IsMap u.user_id r.users (subst IsMap (ap members hr) (s.maps u.room_id)),
    s.maps id,
  );
}

-- Where the room of a user that is gone is not there, no room holds the user.
pub Seats-no_room :
    (p : ℕ) (u : User) (w : World)
    → skeleton (get_elem? w.users p) ≡ seat u.room_id u.user_id true
    → lookup u.room_id w.rooms ≡ none
    → Seats (λ q. p == q) w
    → Seats (λ _. false) w
Seats-no_room p u w hu hr s = record {
  seated = λ id user q e.
      still_here p q u id user w hu s e λ (h, _). no_member id user q u.room_id w.rooms hr e h;
  present = λ id user q e. ground (
    arith,
    s.present id user q e,
    not_gone p q u id user w hu s e λ (h, _). no_member id user q u.room_id w.rooms hr e h,
  );
  opened = s.opened;
  maps = s.maps;
}

-- A room is deleted.
pub Seats-delete_room :
    (id : String) (w : World)
    → Seats (λ _. false) w
    → Seats (λ _. false) (record w { rooms = delete id w.rooms })
Seats-delete_room id w s = record {
  seated = λ j user q e. s.seated j user q (kept_entry id j user q w.rooms e);
  present = λ j user q e. s.present j user q (kept_entry id j user q w.rooms e);
  opened = s.opened;
  maps = λ j. ground (arith, members-delete id j w.rooms, s.maps j);
}

-- A user that is on line enters its room.
pub Seats-enter :
    (p : ℕ) (u : User) (r : Room) (w : World)
    → get_elem? w.users p ≡ some u
    → has_user p w.online ≡ true
    → lookup u.room_id w.rooms ≡ some r
    → lookup u.user_id r.users ≡ none
    → Seats (λ _. false) w
    → Seats
        (λ _. false)
        (record w {
          rooms = insert u.room_id (record r { users = insert u.user_id p r.users }) w.rooms;
        })
Seats-enter p u r w hu hp hr hk s = record {
  seated = λ id user q e.
      ground
        (arith, entered_entry p u r w.rooms id user q hr e, s.seated id user q, hu, s.opened p hp);
  present = λ id user q e.
      ground (arith, entered_entry p u r w.rooms id user q hr e, s.present id user q, hp);
  opened = s.opened;
  maps = λ id. ground (
    arith,
    members-insert u.room_id id (record r { users = insert u.user_id p r.users }) w.rooms,
    insert-IsMap u.user_id p r.users (subst IsMap (ap members hr) (s.maps u.room_id)),
    s.maps id,
  );
}

-- A user with an open channel comes on line.
pub Seats-online :
    (p : ℕ) (u : User) (w : World)
    → get_elem? w.users p ≡ some u
    → u.closed ≡ false
    → Seats (λ _. false) w
    → Seats (λ _. false) (record w { online = p ∷ drop_user p w.online })
Seats-online p u w hu hc s = record {
  seated = s.seated;
  present = λ id user q e. ground (arith, has_user-drop_user p q w.online, s.present id user q e);
  opened = λ q h. elim (Bool-cases (p == q)) [
    | inl t ↦
        let same : p ≡ q = ground arith in
        (
          u.room_id,
          u.user_id,
          ap (λ n. skeleton (get_elem? w.users n)) (sym same)
              ∙ ap skeleton hu
              ∙ ap (seat u.room_id u.user_id) hc,
        )
    | inr t ↦ s.opened q (ground (arith, has_user-drop_user p q w.online))
  ];
  maps = s.maps;
}

-- A user is made.
pub Seats-new :
    (u : User) (w : World)
    → Seats (λ _. false) w
    → Seats (λ _. false) (record w { users = w.users ++ u ∷ [] })
Seats-new u w s = record {
  seated = λ id user q e. skeleton-append w.users q u _ (s.seated id user q e);
  present = s.present;
  opened = λ q h. let (id, user, e) = s.opened q h in (id, user, skeleton-append w.users q u _ e);
  maps = s.maps;
}

-- ===== src/Conference/Entries.antt =====
-- The entries of the rooms and the users that they point to, after a change.
use singal.Common.{
  ℕ, ◌≡◌, refl, String, none, some, List, [], ◌∷◌, ◌++◌, arith, ◌==◌, eq_iff, str_eq, if◌then◌else◌,
  get_elem?, set, zero, suc, ◌⊎◌, ◌∙◌, ap, sym, Bool-cases, inl, inr,
}
use singal.Conference.{User, Room}
use singal.Conference.Frame.{Skeleton, skeleton, skeleton_of, members}
use singal.Dict.{Dict, lookup, insert, delete, lookup-insert, lookup-delete}

pub members-insert :
    (id j : String) (r : Room) (m : Dict Room)
    → members (lookup j (insert id r m)) ≡ (if str_eq id j then r.users else members (lookup j m))
members-insert id j r m = ground (arith, lookup-insert id j r m)

pub members-delete :
    (id j : String) (m : Dict Room)
    → members (lookup j (delete id m)) ≡ (if str_eq id j then [] else members (lookup j m))
members-delete id j m = ground (arith, lookup-delete id j m)

pub skeleton-set :
    (l : List User) (p q : ℕ) (u v : User)
    → get_elem? l p ≡ some u
    → skeleton (get_elem? (set l p v) q)
      ≡ (if p == q then some (skeleton_of v) else skeleton (get_elem? l q))
skeleton-set [] p q u v e = cc
skeleton-set (x ∷ l) zero zero u v e = ground arith
skeleton-set (x ∷ l) zero (suc q) u v e = ground arith
skeleton-set (x ∷ l) (suc p) zero u v e = ground arith
skeleton-set (x ∷ l) (suc p) (suc q) u v e = skeleton-set l p q u v e ∙ ground arith

pub skeleton-append :
    (l : List User) (q : ℕ) (u : User) (s : Skeleton)
    → skeleton (get_elem? l q) ≡ some s
    → skeleton (get_elem? (l ++ u ∷ []) q) ≡ some s
skeleton-append [] q u s e = cc
skeleton-append (x ∷ l) zero u s e = e
skeleton-append (x ∷ l) (suc q) u s e = skeleton-append l q u s e

-- Entries that are left once the user is taken out of its room were there, and are not its own.
pub left_entry :
    (rid uid id user : String) (r : Room) (rooms : Dict Room) (q : ℕ)
    → lookup rid rooms ≡ some r
    → lookup user (members (lookup id (insert rid (record r { users = delete uid r.users }) rooms)))
      ≡ some q
    → (lookup user (members (lookup id rooms)) ≡ some q) × ¬ ((rid ≡ id) × (uid ≡ user))
left_entry rid uid id user r rooms q hr e =
    let m : members (lookup id (insert rid (record r { users = delete uid r.users }) rooms))
        ≡ (if str_eq rid id then delete uid r.users else members (lookup id rooms)) =
      members-insert rid id (record r { users = delete uid r.users }) rooms in
    elim (Bool-cases (str_eq rid id)) [
      | inl t ↦
          let same : rid ≡ id = (eq_iff rid id).0 t in
          let e' : lookup user (delete uid r.users) ≡ some q =
            sym (ap (lookup user) (m ∙ rw t refl)) ∙ e in
          let here : members (lookup id rooms) ≡ r.users =
            ap (λ k. members (lookup k rooms)) (sym same) ∙ ap members hr in
          (
            ap (lookup user) here ∙ ground (arith, lookup-delete uid user r.users, e'),
            λ (_, h). ground (arith, lookup-delete uid user r.users, e', (eq_iff uid user).1 h),
          )
      | inr t ↦ (
        sym (ap (lookup user) (m ∙ rw t refl)) ∙ e,
        λ (h, _). ground (arith, t, (eq_iff rid id).1 h),
      )
    ]

pub no_member :
    (id user : String) (q : ℕ) (rid : String) (rooms : Dict Room)
    → lookup rid rooms ≡ none
    → lookup user (members (lookup id rooms)) ≡ some q
    → ¬ (rid ≡ id)
no_member id user q rid rooms hr e h =
    let t : lookup user (members none) ≡ some q =
      ap (λ o. lookup user (members o)) (sym hr)
      ∙ ap (λ k. lookup user (members (lookup k rooms))) h
      ∙ e in
    unfold lookup in cc

pub kept_entry :
    (id j user : String) (q : ℕ) (rooms : Dict Room)
    → lookup user (members (lookup j (delete id rooms))) ≡ some q
    → lookup user (members (lookup j rooms)) ≡ some q
unfolding lookup
kept_entry id j user q rooms e = ground (arith, members-delete id j rooms, e)

pub entered_entry :
    (p : ℕ) (u : User) (r : Room) (rooms : Dict Room) (id user : String) (q : ℕ)
    → lookup u.room_id rooms ≡ some r
    → lookup user (
        members
          (lookup id (insert u.room_id (record r { users = insert u.user_id p r.users }) rooms)))
      ≡ some q
    → (lookup user (members (lookup id rooms)) ≡ some q)
      ⊎ ((u.room_id ≡ id) × (u.user_id ≡ user) × (p ≡ q))
entered_entry p u r rooms id user q hr e =
    let r' : Room = record r { users = insert u.user_id p r.users } in
    elim (Bool-cases (str_eq u.room_id id)) [
      | inl t ↦
          let same : u.room_id ≡ id = (eq_iff u.room_id id).0 t in
          let e' : lookup user (insert u.user_id p r.users) ≡ some q =
            sym (ap (lookup user) (members-insert u.room_id id r' rooms ∙ rw t refl)) ∙ e in
          let here : members (lookup id rooms) ≡ r.users =
            ap (λ k. members (lookup k rooms)) (sym same) ∙ ap members hr in
          elim (Bool-cases (str_eq u.user_id user)) [
            | inl v ↦ inr (
              same,
              (eq_iff u.user_id user).0 v,
              ground (arith, lookup-insert u.user_id user p r.users, e', v),
            )
            | inr v ↦ inl (
                ap (lookup user) here
                ∙ ground (arith, lookup-insert u.user_id user p r.users, e', v))
          ]
      | inr t ↦ inl (sym (ap (lookup user) (members-insert u.room_id id r' rooms ∙ rw t refl)) ∙ e)
    ]

-- ===== src/Conference/Steps.antt =====
-- Calls of the handlers that go on, one after the other.
use singal.Common.{
  true, ℕ, ◌≡◌, refl, false, String, some, List, [], ◌∷◌, arith, str_eq, if◌then◌else◌, get_elem?,
  set, ap, zero, suc, ◌≢◌,
}
use singal.Conference.{
  World, User, Room, WsMessage, M, send, get_or_create_room, ◌>>=◌, load, load_room, update_user,
  blocked,
}
use singal.Dict.{Dict, lookup}
use singal.Router.{Router}
use singal.Rtc.Media.{Outcome, ok, err, panic}

-- The pointers of the entries under another name.
unfoldable pub others : String → Dict ℕ → List ℕ
others user [] = []
others user ((k, p) ∷ m) = if str_eq k user then others user m else p ∷ others user m

-- A pointer to a user whose channel is open.
abbrev pub IsOpen : World → ℕ → Type 0
IsOpen w p = (u : User) × (get_elem? w.users p ≡ some u) × (u.closed ≡ false)

-- A pointer to a user whose channel is open and is still read.
abbrev pub IsHeard : World → ℕ → Type 0
IsHeard w p = (u : User) × (get_elem? w.users p ≡ some u) × (u.closed ≡ false) × (u.writing ≡ true)

-- One message put in the channel of each of several users, the first of them first.
unfoldable pub announce : WsMessage → List ℕ → List (ℕ × WsMessage) → List (ℕ × WsMessage)
announce m [] sent = sent
announce m (p ∷ ps) sent = announce m ps ((p, m) ∷ sent)

pub bind-ok :
    {A B : Type 0} (m : M A) (f : A → M B) (w w' : World) (a : A)
    → m w ≡ ok (a, w')
    → (m >>= f) w ≡ f a w'
bind-ok m f w w' a e =
    ap (λ (o : Outcome (_ × World)). elim o [ ok (b, v) ↦ f b v | err s ↦ err s | panic ↦ panic ]) e

pub bind_assoc :
    {A B C : Type 0} (m : M A) (f : A → M B) (g : B → M C) (w : World)
    → (m >>= (λ a. f a >>= g)) w ≡ ((m >>= f) >>= g) w
bind_assoc {A} {B} {C} m f g w = go (m w)
  where
    go :
        (o : Outcome (A × World))
        → elim o as (λ _. Outcome (C × World)) [
          | ok (a, v) ↦ (f a >>= g) v
          | err e ↦ err e
          | panic ↦ panic
        ]
          ≡ elim (elim o as (λ _. Outcome (B × World)) [
            | ok (a, v) ↦ f a v
            | err e ↦ err e
            | panic ↦ panic
          ])
              as (λ _. Outcome (C × World)) [ ok (b, v) ↦ g b v | err e ↦ err e | panic ↦ panic ]
    go (ok (a, v)) = refl
    go (err e) = refl
    go panic = refl

pub load-some : (p : ℕ) (u : User) (w : World) → get_elem? w.users p ≡ some u → load p w ≡ ok (u, w)
load-some p u w e = rw (e, load) refl

pub update-some :
    (p : ℕ) (u : User) (f : User → User) (w : World)
    → get_elem? w.users p ≡ some u
    → update_user p f w ≡ ok (tt, record w { users = set w.users p (f u) })
update-some p u f w e = rw (e, update_user) refl

pub load_room-some :
    (id : String) (r : Room) (w : World) → lookup id w.rooms ≡ some r → load_room id w ≡ ok (r, w)
load_room-some id r w e = rw (e, load_room) refl

pub get_or_create_room-some :
    (made : Outcome Router) (id : String) (r : Room) (w : World)
    → lookup id w.rooms ≡ some r
    → get_or_create_room made id w ≡ ok (some r, w)
unfolding get_or_create_room
get_or_create_room-some made id r w e = rw (e, get_or_create_room) refl

pub send_open :
    (p : ℕ) (m : WsMessage) (w : World)
    → IsHeard w p
    → send p m w ≡ ok (tt, record w { sent = (p, m) ∷ w.sent })
send_open p m w (u, e, o, r) = ground (arith, e, o, r)

pub send-blocked :
    (p : ℕ) (m : WsMessage) (w : World) (u : User)
    → get_elem? w.users p ≡ some u
    → u.closed ≡ false
    → u.writing ≡ false
    → send p m w ≡ err blocked
send-blocked p m w u e o r = ground (arith, e, o, r)

pub get_elem?-set_self :
    {A : Type 0} (xs : List A) (i : ℕ) (x y : A)
    → get_elem? xs i ≡ some x
    → get_elem? (set xs i y) i ≡ some y
get_elem?-set_self [] i x y h = cc
get_elem?-set_self (z ∷ xs) zero x y h = refl
get_elem?-set_self (z ∷ xs) (suc i) x y h = get_elem?-set_self xs i x y h

pub get_elem?-set_ne :
    {A : Type 0} (xs : List A) (i j : ℕ) (y : A) → i ≢ j → get_elem? (set xs i y) j ≡ get_elem? xs j
get_elem?-set_ne [] i j y h = refl
get_elem?-set_ne (z ∷ xs) zero zero y h = absurd (h refl)
get_elem?-set_ne (z ∷ xs) zero (suc j) y h = refl
get_elem?-set_ne (z ∷ xs) (suc i) zero y h = refl
get_elem?-set_ne (z ∷ xs) (suc i) (suc j) y h = get_elem?-set_ne xs i j y (λ e. h (ap suc e))

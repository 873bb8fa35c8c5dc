-- ===== src/Conference/Frame.antt =====
-- What the handling of a message leaves as it is: who the users are, who is on line, and who is in
-- which room; and the responses that it gives.
use singal.Common.{
  ℤ, ℕ, ◌≡◌, refl, Bool, true, false, String, Option, none, some, List, [], ◌∷◌, ◌++◌, arith,
  if◌then◌else◌, get_elem?, ◌∙◌, ap,
}
use singal.Conference.{User, Room, World, WsMessage, M, ◌>>=◌, ◌>>◌, pure, crash}
use singal.Dict.{Dict, lookup}
use singal.Rtc.Media.{Outcome, ok, err, panic}

-- What no message changes of a user.
pub record Skeleton : Type 0 where
  pub user_id : String
  pub room_id : String
  pub closed : Bool

abbrev pub skeleton_of : User → Skeleton
skeleton_of u = record { user_id = u.user_id; room_id = u.room_id; closed = u.closed }

abbrev pub skeleton : Option User → Option Skeleton
skeleton none = none
skeleton (some u) = some (skeleton_of u)

abbrev pub members : Option Room → Dict ℕ
members none = []
members (some r) = r.users

abbrev pub is_there : Option Room → Bool
is_there none = false
is_there (some r) = true

-- The responses among the messages, each by its user and its id, newest first.
unfoldable pub answers : List (ℕ × WsMessage) → List (ℕ × ℤ)
answers [] = []
answers ((p, m) ∷ l) = if m.response then (p, m.id) ∷ answers l else answers l

pub record Frame (given : List (ℕ × ℤ)) (w w' : World) : Type 0 where
  pub same_users : (p : ℕ) → skeleton (get_elem? w'.users p) ≡ skeleton (get_elem? w.users p)
  pub same_online : w'.online ≡ w.online
  pub same_members : (id : String) → members (lookup id w'.rooms) ≡ members (lookup id w.rooms)
  pub kept_rooms :
      (id : String) → is_there (lookup id w.rooms) ≡ true → is_there (lookup id w'.rooms) ≡ true
  pub answered : answers w'.sent ≡ given ++ answers w.sent

-- Where `m` returns, it gives these responses and changes no more than a message may.
pub record Does {A : Type 0} (given : List (ℕ × ℤ)) (m : M A) : Type 0 where
  pub at : (w w' : World) (a : A) → m w ≡ ok (a, w') → Frame given w w'

pub Frame-same :
    (w w' : World)
    → w'.users ≡ w.users
    → w'.online ≡ w.online
    → w'.rooms ≡ w.rooms
    → w'.sent ≡ w.sent
    → Frame [] w w'
Frame-same w w' u o r s = record {
  same_users = λ p. ap (λ l. skeleton (get_elem? l p)) u;
  same_online = o;
  same_members = λ id. ap (λ l. members (lookup id l)) r;
  kept_rooms = λ id h. ap (λ l. is_there (lookup id l)) r ∙ h;
  answered = ap answers s;
}

pub Frame-trans :
    (given : List (ℕ × ℤ)) (w v w' : World) → Frame [] w v → Frame given v w' → Frame given w w'
Frame-trans given w v w' f g = record {
  same_users = λ p. g.same_users p ∙ f.same_users p;
  same_online = g.same_online ∙ f.same_online;
  same_members = λ id. g.same_members id ∙ f.same_members id;
  kept_rooms = λ id h. g.kept_rooms id (f.kept_rooms id h);
  answered = g.answered ∙ ap (λ l. given ++ l) f.answered;
}

module _ {A B : Type 0} where
  pub Does-bind :
      {given : List (ℕ × ℤ)} {m : M A} {f : A → M B}
      → Does [] m
      → ((a : A) → Does given (f a))
      → Does given (m >>= f)
  Does-bind {given} {m} {f} dm df = record { at = λ w w' b e. go w w' b (m w) refl e }
    where
      go :
          (w w' : World) (b : B) (o : Outcome (A × World))
          → m w ≡ o
          → elim o as (λ _. Outcome (B × World)) [
            | ok (a, v) ↦ f a v
            | err s ↦ err s
            | panic ↦ panic
          ]
            ≡ ok (b, w')
          → Frame given w w'
      go w w' b (ok (a, v)) h e = Frame-trans given w v w' (dm.at w v a h) ((df a).at v w' b e)
      go w w' b (err s) h e = absurd (cc)
      go w w' b panic h e = absurd (cc)

  pub Does-seq :
      {given : List (ℕ × ℤ)} {m : M A} {n : M B} → Does [] m → Does given n → Does given (m >> n)
  Does-seq dm dn = Does-bind dm (λ _. dn)

module _ {A : Type 0} where
  -- A call that leaves users, rooms and channels alone.
  pub Does-same :
      (m : M A)
      → ((w w' : World) (a : A)
          → m w ≡ ok (a, w')
          → (w'.users ≡ w.users)
            × (w'.online ≡ w.online)
            × (w'.rooms ≡ w.rooms)
            × (w'.sent ≡ w.sent))
      → Does [] m
  Does-same m h = record {
    at = λ w w' a e. let (u, o, r, s) = h w w' a e in Frame-same w w' u o r s;
  }

  pub Does-pure : (a : A) → Does [] (pure a)
  Does-pure a = Does-same (pure a) (λ w w' b e. ground (arith, e))

  pub Does-crash : (given : List (ℕ × ℤ)) → Does {A = A} given crash
  Does-crash given = record { at = λ w w' b e. absurd (cc) }

module _ {B : Type 0} {given : List (ℕ × ℤ)} where
  pub Does-test :
      (b : Bool) {m n : M B}
      → Does given m
      → Does given n
      → Does given (elim b as (λ _. M B) [ true ↦ m | false ↦ n ])
  Does-test true dm dn = dm
  Does-test false dm dn = dn

  pub Does-option :
      {A : Type 0} (o : Option A) {m : M B} {f : A → M B}
      → Does given m
      → ((a : A) → Does given (f a))
      → Does given (elim o as (λ _. M B) [ none ↦ m | some a ↦ f a ])
  Does-option none dm df = dm
  Does-option (some a) dm df = df a

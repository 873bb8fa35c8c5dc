-- ===== src/Conference/Published.antt =====
-- Producing, after any sequence of events (`handleProduce` of src/server/user.go).
use singal.Common.{
  ℤ, ℕ, ◌≡◌, ◌≢◌, refl, Bool, true, false, String, none, some, List, [], ◌∷◌, arith, All, All-map,
  str_eq, eq_iff, if◌then◌else◌, get_elem?, length, ◌∙◌, ap, sym, Elem,
}
use mathlib.Core.Path.{subst}
use singal.Conference.Ends.{Ends, Ends-bind, Ends-ok}
use singal.Conference.Frame.{skeleton, members}
use singal.Conference.Grows.{grows, has_consumer, its_producer, router_of}
use singal.Conference.Handlers.{handle_produce}
use singal.Conference.Offers.{Asked, Offered, Offered-Grows, send-Grows}
use singal.Conference.Produce.{produce}
use singal.Conference.Producing.{Produced, made_producer, produce-Produced}
use singal.Conference.Seats.{seat}
use singal.Conference.Sessions.{Event, handle_events, start, handle_events-Seats, Seats-start}
use singal.Conference.Steps.{get_or_create_room-some, others, load-some}
use singal.Conference.{
  Env, User, Room, World, M, load, send, get_or_create_room, response_of, produced,
}
use singal.Dict.{Dict, lookup}
use singal.Media.{ProduceReqData}
use singal.Router.{Router, get_producer}
use singal.Rtc.Media.{Outcome, ok}

-- What holds of all the others holds of each.
others-All :
    (user self : String) (q : ℕ) (m : Dict ℕ) (P : ℕ → Type 0)
    → lookup user m ≡ some q
    → user ≢ self
    → All P (others self m)
    → P q
unfolding others lookup
others-All user self q [] P h ne a = absurd (cc)
others-All user self q ((k, v) ∷ m) P h ne a =
    go (str_eq k user) (str_eq k self) refl refl h a (others-All user self q m P)
  where
    go :
        (b c : Bool)
        → str_eq k user ≡ b
        → str_eq k self ≡ c
        → (if b then some v else lookup user m) ≡ some q
        → All P (if c then others self m else v ∷ others self m)
        → (lookup user m ≡ some q → user ≢ self → All P (others self m) → P q)
        → P q
    go true true s t h a ih = absurd (ground (arith, eq_iff k user, eq_iff k self, s, t, ne))
    go true false s t h a ih = subst P (ground (arith, h)) a.0
    go false true s t h a ih = ih h ne a
    go false false s t h a ih = ih h ne a.1

module _ (env : Env) (made : Outcome Router) (p : ℕ) (id : ℤ) where
  -- The response of the handler.
  abbrev answer : String → M (Unit {0})
  answer n = send p (response_of id true (produced (record { producer_id = n })))

  -- The id that `Produce` draws.
  abbrev pub drawn_id : World → String
  drawn_id w = env.rand_string w.draws 36

  -- What the handler has done where it returns.
  abbrev Handled : ProduceReqData → Room → User → World → Unit {0} → World → Type 0
  Handled req r u w _ w' =
      Produced env u.room_id p r u req w (drawn_id w) w'
      × Elem (p, response_of id true (produced (record { producer_id = drawn_id w }))) w'.sent

  handle_produce-Handled :
      (req : ProduceReqData) (r : Room) (u : User) (w : World)
      → lookup u.room_id w.rooms ≡ some r
      → get_elem? w.users p ≡ some u
      → get_producer r.router u.user_id (drawn_id w) ≡ none
      → Ends (handle_produce env made p id (some req)) w (Handled req r u w)
  unfolding handle_produce
  handle_produce-Handled req r u w hr hu fresh =
      Ends-ok (load p) _ w w u (Handled req r u w) (load-some p u w hu) (
        Ends-ok (get_or_create_room made u.room_id) _ w w (some r) (Handled req r u w)
          (get_or_create_room-some made u.room_id r w hr)
          (Ends-bind (produce env u.room_id p req) answer w (Handled req r u w) λ n v e a w' f.
            let (same, g, found, offered) =
              produce-Produced env u.room_id p req r u w hr hu fresh n v e in
            let f' : answer (drawn_id w) v ≡ ok (a, w') = ap (λ k. answer k v) (sym same) ∙ f in
            let (g', m) = send-Grows u.room_id p _ v a w' f' in
            let offers : All (Offered u.room_id n w') (others u.user_id r.users) =
              All-map (others u.user_id r.users) (λ q. Offered-Grows u.room_id n v w' q g')
                offered in
            (
              subst (λ k. Produced env u.room_id p r u req w k w') same
                  (
                    same,
                    (grows u.room_id).transitive w v w' g g',
                    g'.extended.kept_producers u.user_id n _ found,
                    offers,
                  ),
              m,
            )))

  -- Where the room is there and the user has no producer of the id that is drawn: where `handleProduce`
  -- comes back, the producer of that id that the room has for the user is the one of the request, and
  -- the user got a response with that id.
  pub handle_produce-get_producer :
      (req : ProduceReqData) (r : Room) (u : User) (w w' : World)
      → lookup u.room_id w.rooms ≡ some r
      → get_elem? w.users p ≡ some u
      → get_producer r.router u.user_id (drawn_id w) ≡ none
      → handle_produce env made p id (some req) w ≡ ok (tt, w')
      → (its_producer (router_of (lookup u.room_id w'.rooms)) u.user_id (drawn_id w)
          ≡ some (made_producer (drawn_id w) (length w.store) req))
        × Elem (p, response_of id true (produced (record { producer_id = drawn_id w }))) w'.sent
  handle_produce-get_producer req r u w w' hr hu fresh e =
      let ((same, g, found, offered), m) = handle_produce-Handled req r u w hr hu fresh tt w' e in
      (found, m)

  -- After any sequence of events that all come back, a user whose room is there produces, and has
  -- no producer of the id that is drawn: where `handleProduce` comes back, each other user of the room
  -- has a consumer of the new producer there, and was asked to consume it.
  pub handle_events-handle_produce :
      (es : List Event) (w w' : World) (req : ProduceReqData) (r : Room) (u : User) (user : String)
      (q : ℕ)
      → handle_events env es start ≡ ok (tt, w)
      → get_elem? w.users p ≡ some u
      → lookup u.room_id w.rooms ≡ some r
      → lookup user r.users ≡ some q
      → user ≢ u.user_id
      → get_producer r.router u.user_id (drawn_id w) ≡ none
      → handle_produce env made p id (some req) w ≡ ok (tt, w')
      → (has_consumer (router_of (lookup u.room_id w'.rooms)) user (drawn_id w) ≡ true)
        × Asked (drawn_id w) q w'
  handle_events-handle_produce es w w' req r u user q run hu hr hq ne fresh e =
      let ((same, g, found, offered), m) = handle_produce-Handled req r u w hr hu fresh tt w' e in
      let (s, known, has, asked) =
        others-All user u.user_id q r.users (Offered u.room_id (drawn_id w) w') hq ne offered in
      let seats = handle_events-Seats env es start Seats-start tt w run in
      let here : skeleton (get_elem? w.users q) ≡ seat u.room_id user false =
        seats.seated u.room_id user q (ap (λ o. lookup user (members o)) hr ∙ hq) in
      let name : s.user_id ≡ user = ground (arith, g.same_users q ∙ here, known) in
      (
        subst (λ k. has_consumer (router_of (lookup u.room_id w'.rooms)) k (drawn_id w) ≡ true) name
            has,
        asked,
      )

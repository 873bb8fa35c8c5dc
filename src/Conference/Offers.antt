-- ===== src/Conference/Offers.antt =====
-- The loops over the users of a room that offer consumers to them (`ReqOtherNewConsumer` and
-- `ReqPullOtherNewProducer` of src/server/room.go).
use singal.Common.{
  pos, eq_refl, ℕ, ◌+◌, ◌≡◌, refl, Bool, true, false, String, Option, none, some, [], ◌∷◌, ◌++◌,
  arith, All, str_eq, if◌then◌else◌, get_elem?, ◌∙◌, ap, sym, Elem, inl, inr,
}
use mathlib.Core.Path.{subst}
use singal.Conference.Consumers.{
  new_consumer, push_users, rand_string, create_new_consumer_data, save_router,
}
use singal.Conference.Ends.{Ends, Ends-bind, Ends-ok, Ends-load, Ends-load_room}
use singal.Conference.Frame.{skeleton, Skeleton, skeleton_of}
use singal.Conference.Grows.{
  Extends-same, Extends-add_consumer, Grows, Grows-Quiet, Grows-rerouted, grows, has_consumer,
  rerouted, router-rerouted, router_of, save_router-some,
}
use singal.Conference.Keeps.{Does-update_user}
use singal.Conference.Quiet.{Quiet-create_new_consumer_data}
use singal.Conference.Steps.{others}
use singal.Conference.{
  Env, User, Room, World, WsMessage, M, blocked, ◌>>=◌, ◌>>◌, load, load_room, send, update_user,
  next_req_id, request_of, consumer, request_new_consumer,
}
use singal.Dict.{Dict, lookup, lookup-insert_self}
use singal.Media.{NewConsumerReqData}
use singal.Router.Consumers.{consumes-append}
use singal.Router.{
  Router, Consumer, Producer, add_consumer, get_consumer_transport_id, get_consumer_by_id, slice_of,
}
use singal.Rtc.Media.{Outcome, ok, err, panic}

-- `newConsumer` was asked of the user at `v` for the producer.
abbrev pub Asked : String → ℕ → World → Type 0
Asked producer v w =
    (n : ℕ) × (d : NewConsumerReqData) × (d.producer_id ≡ producer)
    × Elem (v, request_of (pos n) "newConsumer" (consumer d)) w.sent

-- The user at `v` has a consumer of the producer in the room `id`, and was asked to consume it.
abbrev pub Offered : String → String → World → ℕ → Type 0
Offered id producer w v =
    (s : Skeleton) × (skeleton (get_elem? w.users v) ≡ some s)
    × (has_consumer (router_of (lookup id w.rooms)) s.user_id producer ≡ true)
    × Asked producer v w

pub Offered-Grows :
    (id producer : String) (w w' : World) (v : ℕ)
    → Grows id w w'
    → Offered id producer w v
    → Offered id producer w' v
Offered-Grows id producer w w' v g (s, u, c, (n, d, e, m)) = (
  s,
  g.same_users v ∙ u,
  g.extended.more_consumers s.user_id producer c,
  (n, d, e, g.kept_sent _ m),
)

pub send-Grows :
    (id : String) (p : ℕ) (m : WsMessage) (w : World)
    → Ends (send p m) w (λ _ w'. Grows id w w' × Elem (p, m) w'.sent)
send-Grows id p m w a w' e = go (get_elem? w.users p) e
  where
    go :
        (o : Option User)
        → elim o as (λ _. Outcome (Unit {0} × World)) [
          | none ↦ panic
          | some u ↦
              if u.closed
              then panic
              else if u.writing
              then ok (tt, record w { sent = (p, m) ∷ w.sent })
              else err blocked
        ]
          ≡ ok (a, w')
        → Grows id w w' × Elem (p, m) w'.sent
    go none e = absurd (cc)
    go (some u) e =
        let t : record w { sent = (p, m) ∷ w.sent } ≡ w' = ground (arith, e) in
        subst (λ v. Grows id w v × Elem (p, m) v.sent) t
          (
            record {
              same_users = λ q. refl;
              extended = record {
                more_consumers = λ user producer h. h;
                kept_producers = λ user producer q h. h;
              };
              kept_sent = λ x h. inr h;
            },
            inl refl,
          )

pub request_new_consumer-Grows :
    (id producer : String) (v : ℕ) (d : NewConsumerReqData) (w : World)
    → d.producer_id ≡ producer
    → Ends (request_new_consumer v d) w (λ _ w'. Grows id w w' × Asked producer v w')
unfolding request_new_consumer
request_new_consumer-Grows id producer v d w e = Ends-load v _ w _ λ u hu.
    Ends-bind (update_user v next_req_id) _ w _ λ _ w₁ h₁ a w' h₂.
      let f = (Does-update_user v next_req_id (λ x. refl)).at w w₁ tt h₁ in
      let quiet : (w₁.rooms ≡ w.rooms) × (w₁.sent ≡ w.sent) = ground (arith, h₁, hu) in
      let g₁ : Grows id w w₁ = record {
        same_users = f.same_users;
        extended = Extends-same _ _ (ap (λ l. router_of (lookup id l)) quiet.0);
        kept_sent = λ x h. subst (Elem x) (sym quiet.1) h;
      } in
      let (g₂, m) =
        send-Grows id v (request_of (pos u.req_id) "newConsumer" (consumer d)) w₁ a w' h₂ in
      ((grows id).transitive w w₁ w' g₁ g₂, (u.req_id, d, e, m))

-- The consumer that is added, or the one that is there already.
add_consumer-has :
    (r : Router) (user : String) (c : Consumer)
    → has_consumer (some (add_consumer r user (some c)).0) user c.producer_id ≡ true
unfolding add_consumer get_consumer_by_id
add_consumer-has r user c = ground (
  arith,
  eq_refl c.producer_id,
  lookup-insert_self user (slice_of user r.consumers ++ c ∷ []) r.consumers,
  consumes-append c.producer_id (slice_of user r.consumers) c,
)

module _ (env : Env) (id : String) where
  -- From the consumer on: it is saved, its data are made, the user at `v` is asked, and `k` follows.
  offer :
      (r : Room) (c : Consumer) (q : Producer) (peer_id : String) (v : ℕ) (s : Skeleton) (w : World)
      (k : M (Unit {0})) (Q : Unit {0} → World → Type 0)
      → lookup id w.rooms ≡ some r
      → skeleton (get_elem? w.users v) ≡ some s
      → ((w' : World) → Grows id w w' → Offered id c.producer_id w' v → Ends k w' Q)
      → Ends
          (do
            save_router id (add_consumer r.router s.user_id (some c)).0
            d ← create_new_consumer_data env id c q peer_id s.user_id
            request_new_consumer v d
            k)
          w
          Q
  offer r c q peer_id v s w k Q hr hs next =
      let r' : Router = (add_consumer r.router s.user_id (some c)).0 in
      let w₁ : World = rerouted id r r' w in
      let g₁ : Grows id w w₁ =
        Grows-rerouted id r r' w hr (Extends-add_consumer r.router s.user_id c) in
      let h₁ : has_consumer (router_of (lookup id w₁.rooms)) s.user_id c.producer_id ≡ true =
        ap (λ o. has_consumer (router_of o) s.user_id c.producer_id) (router-rerouted id r r' w)
        ∙ add_consumer-has r.router s.user_id c in
      Ends-ok (save_router id r') _ w w₁ tt Q (save_router-some id r r' w hr) (
        Ends-bind (create_new_consumer_data env id c q peer_id s.user_id)
          (λ d. request_new_consumer v d >> k) w₁ Q
          λ d w₂ e.
            Ends-bind (request_new_consumer v d) (λ _. k) w₂ Q
              λ a w₃ f.
                let (g₂, t) =
                  (Quiet-create_new_consumer_data env id c q peer_id s.user_id).at w₁ w₂ d e in
                let (g₃, m) = request_new_consumer-Grows id c.producer_id v d w₂ t a w₃ f in
                let g₂₃ : Grows id w₁ w₃ =
                  (grows id).transitive w₁ w₂ w₃ (Grows-Quiet id w₁ w₂ g₂) g₃ in
                let g : Grows id w w₃ = (grows id).transitive w w₁ w₃ g₁ g₂₃ in
                next w₃ g (
                  s,
                  g.same_users v ∙ hs,
                  g₂₃.extended.more_consumers s.user_id c.producer_id h₁,
                  m,
                ))

  -- Every other user is offered the producer.
  pub push_users-Offered :
      (u : User) (q : Producer) (m : Dict ℕ) (w : World)
      → Ends
          (push_users env id u q m)
          w
          (λ _ w'. Grows id w w' × All (Offered id q.producer_id w') (others u.user_id m))
  unfolding push_users others
  push_users-Offered u q [] w = λ a w' e.
      let t : w ≡ w' = ground (arith, e) in (subst (Grows id w) t ((grows id).reflexive w), tt)
  push_users-Offered u q ((k, v) ∷ m) w = go (str_eq k u.user_id) (push_users-Offered u q m)
    where
      goal : Bool → Unit {0} → World → Type 0
      goal b _ w' =
          Grows id w w'
          × All (Offered id q.producer_id w')
              (if b then others u.user_id m else v ∷ others u.user_id m)

      c : Room → User → String → Consumer
      c r other n =
          new_consumer env n (get_consumer_transport_id r.router other.user_id) q.producer_id q.kind

      next : Room → User → String → M (Unit {0})
      next r other n = do
        save_router id (add_consumer r.router other.user_id (some (c r other n))).0
        d ← create_new_consumer_data env id (c r other n) q u.peer_id other.user_id
        request_new_consumer v d
        push_users env id u q m

      go :
          (b : Bool)
          → ((x : World)
              → Ends
                  (push_users env id u q m)
                  x
                  (λ _ w'. Grows id x w' × All (Offered id q.producer_id w') (others u.user_id m)))
          → Ends
              (elim b as (λ _. M (Unit {0})) [
                | true ↦ push_users env id u q m
                | false ↦ do
                  r ← load_room id
                  other ← load v
                  n ← rand_string env 36
                  next r other n
              ])
              w
              (goal b)
      go true ih = ih w
      go false ih = Ends-load_room id _ w (goal false) λ r hr.
          Ends-load v _ w (goal false) λ other ho.
            let w₁ : World = record w { draws = w.draws + 1 } in
            let n : String = env.rand_string w.draws 36 in
            Ends-ok (rand_string env 36) (next r other) w w₁ n (goal false) refl (
              offer r (c r other n) q u.peer_id v (skeleton_of other) w₁ (push_users env id u q m)
                (goal false) hr (ap skeleton ho)
                λ w₂ g₂ o₂ a w' e.
                  let (g₃, rest) = ih w₂ a w' e in
                  let g₁ : Grows id w w₁ = Grows-Quiet id w w₁ (refl, refl, refl) in
                  (
                    (grows id).transitive w w₁ w' g₁ ((grows id).transitive w₁ w₂ w' g₂ g₃),
                    (Offered-Grows id q.producer_id w₂ w' v g₃ o₂, rest),
                  ))

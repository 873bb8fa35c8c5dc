-- ===== src/Conference/Pulls.antt =====
-- What `ReqPullOtherNewProducer` of src/server/room.go adds to.
use singal.Common.{ℕ, ◌+◌, ◌≡◌, refl, Bool, true, false, String, some, List, [], ◌∷◌, arith, str_eq}
use mathlib.Core.Path.{subst}
use singal.Conference.Consumers.{
  new_consumer, pull_producers, pull_users, req_pull_other_new_producer, rand_string,
  create_new_consumer_data, save_router,
}
use singal.Conference.Ends.{Ends, Ends-bind, Ends-ok, Ends-load, Ends-load_room, Ends-test}
use singal.Conference.Grows.{
  Extends-add_consumer, Grows, Grows-Quiet, Grows-rerouted, grows, rerouted, save_router-some,
}
use singal.Conference.Offers.{request_new_consumer-Grows}
use singal.Conference.Quiet.{Quiet-create_new_consumer_data}
use singal.Conference.{
  Env, User, Room, World, M, ◌>>=◌, ◌>>◌, pure, load, load_room, request_new_consumer,
}
use singal.Dict.{Dict}
use singal.Router.{
  Router, Consumer, Producer, add_consumer, get_consumer_transport_id, get_producer_by_id,
}

module _ (env : Env) (id : String) where
  abbrev Grown : World → Unit {0} → World → Type 0
  Grown w _ w' = Grows id w w'

  pure-Grows : (w : World) → Ends (pure tt) w (Grown w)
  pure-Grows w a w' e =
      let t : w ≡ w' = ground (arith, e) in subst (Grows id w) t ((grows id).reflexive w)

  -- One call after the other.
  seq-Grows :
      (m k : M (Unit {0})) (w : World)
      → Ends m w (Grown w)
      → ((v : World) → Ends k v (Grown v))
      → Ends (m >> k) w (Grown w)
  seq-Grows m k w hm hk =
      Ends-bind m (λ _. k) w (Grown w)
        λ a v e b w' f. (grows id).transitive w v w' (hm a v e) (hk v b w' f)

  asked-Grows :
      (c : Consumer) (q : Producer) (peer_id user : String) (p : ℕ) (w : World)
      → Ends
          (create_new_consumer_data env id c q peer_id user >>= λ d. request_new_consumer p d)
          w
          (Grown w)
  asked-Grows c q peer_id user p w =
      Ends-bind (create_new_consumer_data env id c q peer_id user) (λ d. request_new_consumer p d) w
        (Grown w)
        λ d v e a w' f.
          let (g, t) = (Quiet-create_new_consumer_data env id c q peer_id user).at w v d e in
          let (h, m) = request_new_consumer-Grows id c.producer_id p d v t a w' f in
          (grows id).transitive w v w' (Grows-Quiet id w v g) h

  pull_producers-Grows :
      (p : ℕ) (u : User) (kind peer_id : String) (qs : List Producer) (w : World)
      → Ends (pull_producers env id p u kind peer_id qs) w (Grown w)
  unfolding pull_producers
  pull_producers-Grows p u kind peer_id [] w = pure-Grows w
  pull_producers-Grows p u kind peer_id (q ∷ qs) w =
      Ends-test (str_eq q.kind kind) (load_room id >>= λ r. rand_string env 36 >>= pulled r) rest w
        (Grown w)
        (Ends-load_room id (λ r. rand_string env 36 >>= pulled r) w (Grown w)
          λ r hr.
            let w₁ : World = record w { draws = w.draws + 1 } in
            let n : String = env.rand_string w.draws 36 in
            let r' : Router × Bool = add_consumer r.router u.user_id (some (c r n)) in
            let w₂ : World = rerouted id r r'.0 w₁ in
            let g₁ : Grows id w w₁ = Grows-Quiet id w w₁ (refl, refl, refl) in
            let g₂ : Grows id w₁ w₂ =
              Grows-rerouted id r r'.0 w₁ hr (Extends-add_consumer r.router u.user_id (c r n)) in
            Ends-ok (rand_string env 36) (pulled r) w w₁ n (Grown w) refl (
              Ends-ok (save_router id r'.0) (λ _. asked r n >> rest) w₁ w₂ tt (Grown w)
                (save_router-some id r r'.0 w₁ hr)
                (λ a w' e. (grows id).transitive w w₁ w' g₁ (
                  (grows id).transitive w₁ w₂ w' g₂ (
                    seq-Grows (asked r n) rest w₂
                      (Ends-test r'.1 _ _ w₂ (Grown w₂)
                        (asked-Grows (c r n) q peer_id u.user_id p w₂) (pure-Grows w₂))
                      (pull_producers-Grows p u kind peer_id qs) a w' e)))))
        (pull_producers-Grows p u kind peer_id qs w)
    where
      c : Room → String → Consumer
      c r n = new_consumer env n (get_consumer_transport_id r.router u.user_id) q.producer_id kind

      rest : M (Unit {0})
      rest = pull_producers env id p u kind peer_id qs

      asked : Room → String → M (Unit {0})
      asked r n = elim (add_consumer r.router u.user_id (some (c r n))).1 [
        | true ↦ do
          d ← create_new_consumer_data env id (c r n) q peer_id u.user_id
          request_new_consumer p d
        | false ↦ pure tt
      ]

      pulled : Room → String → M (Unit {0})
      pulled r n = do
        save_router id (add_consumer r.router u.user_id (some (c r n))).0
        asked r n
        rest

  pull_users-Grows :
      (p : ℕ) (u : User) (kind : String) (m : Dict ℕ) (w : World)
      → Ends (pull_users env id p u kind m) w (Grown w)
  unfolding pull_users
  pull_users-Grows p u kind [] w = pure-Grows w
  pull_users-Grows p u kind ((k, v) ∷ m) w =
      Ends-test (str_eq k u.user_id) rest pulled w (Grown w) (pull_users-Grows p u kind m w) (
        Ends-load_room id _ w (Grown w) λ r hr. Ends-load v _ w (Grown w) λ other ho.
          seq-Grows (pull_producers env id p u kind other.peer_id (get_producer_by_id r.router k))
            rest w (pull_producers-Grows p u kind other.peer_id (get_producer_by_id r.router k) w)
            (pull_users-Grows p u kind m))
    where
      rest : M (Unit {0})
      rest = pull_users env id p u kind m

      pulled : M (Unit {0})
      pulled = do
        r ← load_room id
        other ← load v
        pull_producers env id p u kind other.peer_id (get_producer_by_id r.router k)
        rest

  pub req_pull_other_new_producer-Grows :
      (p : ℕ) (q : Producer) (w : World)
      → Ends (req_pull_other_new_producer env id p q) w (λ _ w'. Grows id w w')
  unfolding req_pull_other_new_producer
  req_pull_other_new_producer-Grows p q w =
      Ends-load_room id _ w (Grown w)
        λ r hr. Ends-load p _ w (Grown w) λ u hu. pull_users-Grows p u q.kind r.users w

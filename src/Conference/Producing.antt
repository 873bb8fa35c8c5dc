-- ===== src/Conference/Producing.antt =====
-- What `Produce` of src/server/room.go does, where it returns.
use singal.Common.{
  ℕ, ◌+◌, ◌≡◌, refl, String, Option, none, some, List, [], ◌∷◌, ◌++◌, arith, All, All-map, eq_refl,
  get_elem?, length, map, ◌∙◌, ap, sym,
}
use mathlib.Core.Path.{subst}
use singal.Conference.Consumers.{
  allocate, rand_string, req_other_new_consumer, req_pull_other_new_producer, save_router,
  store_params, strip_codec,
}
use singal.Conference.Ends.{Ends, Ends-bind, Ends-ok}
use singal.Conference.Grows.{
  Extends-add_producer, Grows, Grows-Quiet, Grows-rerouted, grows, its_producer, rerouted,
  router-rerouted, router_of, save_router-some,
}
use singal.Conference.Offers.{Offered, Offered-Grows, push_users-Offered}
use singal.Conference.Produce.{create_producer, produce}
use singal.Conference.Pulls.{req_pull_other_new_producer-Grows}
use singal.Conference.Quiet.{Quiet, quiet, Quiet-create_producer, Quiet-store_params}
use singal.Conference.Steps.{others, load-some, load_room-some}
use singal.Conference.{Env, User, Room, World, M, ◌>>=◌, ◌>>◌, pure, load, load_room}
use singal.Dict.{Dict, lookup, lookup-insert_self}
use singal.Media.{ProduceReqData}
use singal.Router.{Router, Producer, add_producer, find_producer, get_producer, slice_of}

find_producer-last :
    (ps : List Producer) (q : Producer)
    → find_producer q.producer_id ps ≡ none
    → find_producer q.producer_id (ps ++ q ∷ []) ≡ some q
unfolding find_producer
find_producer-last [] q h = ground (arith, eq_refl q.producer_id)
find_producer-last (x ∷ ps) q h = ground (arith, h, find_producer-last ps q)

no_producer :
    (user id : String) (m : Dict (List Producer))
    → elim (lookup user m) [ none ↦ none | some ps ↦ find_producer id ps ] ≡ none
    → find_producer id (slice_of user m) ≡ none
unfolding find_producer
no_producer user id m h = go (lookup user m) h
  where
    go :
        (o : Option (List Producer))
        → elim o as (λ _. Option Producer) [ none ↦ none | some ps ↦ find_producer id ps ] ≡ none
        → find_producer id (elim o as (λ _. List Producer) [ none ↦ [] | some l ↦ l ]) ≡ none
    go none h = refl
    go (some ps) h = h

-- A producer with a new id is found once it has been added.
get_producer-add_producer :
    (r : Router) (user : String) (q : Producer)
    → get_producer r user q.producer_id ≡ none
    → get_producer (add_producer r user (some q)) user q.producer_id ≡ some q
unfolding get_producer add_producer
get_producer-add_producer r user q h =
    ap
      (λ (o : Option (List Producer)). elim o as (λ _. Option Producer) [
        | none ↦ none
        | some ps ↦ find_producer q.producer_id ps
      ])
      (lookup-insert_self user (slice_of user r.producers ++ q ∷ []) r.producers)
    ∙ find_producer-last (slice_of user r.producers) q
        (no_producer user q.producer_id r.producers h)

-- The producer that `Produce` makes.
abbrev pub made_producer : String → ℕ → ProduceReqData → Producer
made_producer id a req = record {
  producer_id = id;
  transport_id = req.transport_id;
  kind = req.kind;
  ssrc = 0;
  parameters = a;
}

-- What it keeps of the request.
abbrev pub stripped : ProduceReqData → ProduceReqData
stripped req = record req {
  rtp_parameters = record (req.rtp_parameters) {
    media_codecs = map strip_codec req.rtp_parameters.media_codecs;
  };
}

module _ (env : Env) (id : String) (p : ℕ) where
  req_other_new_consumer-Offered :
      (q : Producer) (r : Room) (u : User) (w : World)
      → lookup id w.rooms ≡ some r
      → get_elem? w.users p ≡ some u
      → Ends
          (req_other_new_consumer env id p q)
          w
          (λ _ w'. Grows id w w' × All (Offered id q.producer_id w') (others u.user_id r.users))
  unfolding req_other_new_consumer
  req_other_new_consumer-Offered q r u w hr hu =
      Ends-ok (load_room id) _ w w r _ (load_room-some id r w hr)
        (Ends-ok (load p) _ w w u _ (load-some p u w hu) (push_users-Offered env id u q r.users w))

  -- The steps of `Produce` once the producer is in the router.
  abbrev pub spread : Router → Producer → ProduceReqData → M String
  spread router q req = do
    store_params q.parameters (stripped req)
    create_producer env router q
    req_other_new_consumer env id p q
    req_pull_other_new_producer env id p q
    pure q.producer_id

  abbrev pub saved : Router → String → ProduceReqData → String → ℕ → M String
  saved router user req n a = do
    save_router id (add_producer router user (some (made_producer n a req)))
    spread router (made_producer n a req) req

  abbrev Spread : Producer → Room → User → World → String → World → Type 0
  Spread q r u w n w' =
      (n ≡ q.producer_id)
      × Grows id w w'
      × All (Offered id q.producer_id w') (others u.user_id r.users)

  spread-Spread :
      (router : Router) (q : Producer) (req : ProduceReqData) (r : Room) (u : User) (w : World)
      → lookup id w.rooms ≡ some r
      → get_elem? w.users p ≡ some u
      → Ends (spread router q req) w (Spread q r u w)
  spread-Spread router q req r u w hr hu =
      Ends-bind (store_params q.parameters _) _ w (Spread q r u w) λ x w₁ e₁.
        Ends-bind (create_producer env router q) _ w₁ (Spread q r u w) λ y w₂ e₂.
          Ends-bind (req_other_new_consumer env id p q) _ w₂ (Spread q r u w) λ z w₃ e₃.
            Ends-bind (req_pull_other_new_producer env id p q) (λ _. pure q.producer_id) w₃
              (Spread q r u w)
              λ t w₄ e₄ n w' e₅.
                let s₁ : Quiet w w₁ = ((Quiet-store_params q.parameters _).at w w₁ x e₁).0 in
                let s₂ : Quiet w₁ w₂ = ((Quiet-create_producer env router q).at w₁ w₂ y e₂).0 in
                let s : Quiet w w₂ = quiet.transitive w w₁ w₂ s₁ s₂ in
                let (g₃, o) =
                  req_other_new_consumer-Offered q r u w₂ (ap (lookup id) s.0 ∙ hr)
                    (ap (λ l. get_elem? l p) s.1 ∙ hu) z w₃ e₃ in
                let g₄ : Grows id w₃ w₄ = req_pull_other_new_producer-Grows env id p q w₃ t w₄ e₄ in
                let (same, name) : (w₄ ≡ w') × (q.producer_id ≡ n) = ground (arith, e₅) in
                subst (λ v. Spread q r u w n v) same
                  (
                    sym name,
                    (grows id).transitive w w₂ w₄ (Grows-Quiet id w w₂ s)
                        ((grows id).transitive w₂ w₃ w₄ g₃ g₄),
                    All-map (others u.user_id r.users)
                        (λ v. Offered-Grows id q.producer_id w₃ w₄ v g₄) o,
                  )

  -- What `Produce` has done where it returns the id `n`.
  abbrev pub Produced : Room → User → ProduceReqData → World → String → World → Type 0
  Produced r u req w n w' =
      (n ≡ env.rand_string w.draws 36)
      × Grows id w w'
      × (its_producer (router_of (lookup id w'.rooms)) u.user_id n
          ≡ some (made_producer n (length w.store) req))
      × All (Offered id n w') (others u.user_id r.users)

  pub produce-Produced :
      (req : ProduceReqData) (r : Room) (u : User) (w : World)
      → lookup id w.rooms ≡ some r
      → get_elem? w.users p ≡ some u
      → get_producer r.router u.user_id (env.rand_string w.draws 36) ≡ none
      → Ends (produce env id p req) w (Produced r u req w)
  unfolding produce
  produce-Produced req r u w hr hu fresh =
      let n : String = env.rand_string w.draws 36 in
      let a : ℕ = length w.store in
      let q : Producer = made_producer n a req in
      let router : Router = add_producer r.router u.user_id (some q) in
      let w₁ : World = record w { draws = w.draws + 1 } in
      let w₂ : World = record w₁ { store = w.store ++ req ∷ [] } in
      let w₃ : World = rerouted id r router w₂ in
      let g : Grows id w w₃ =
        (grows id).transitive w w₂ w₃ (Grows-Quiet id w w₂ (refl, refl, refl))
          (Grows-rerouted id r router w₂ hr (Extends-add_producer r.router u.user_id q)) in
      let found : its_producer (router_of (lookup id w₃.rooms)) u.user_id n ≡ some q =
        ap (λ o. its_producer (router_of o) u.user_id n) (router-rerouted id r router w₂)
        ∙ get_producer-add_producer r.router u.user_id q fresh in
      let Q : String → World → Type 0 = Produced r u req w in
      Ends-ok (load_room id) _ w w r Q (load_room-some id r w hr) (
        Ends-ok (load p) _ w w u Q (load-some p u w hu) (
          Ends-ok (rand_string env 36) (λ n. allocate req >>= saved r.router u.user_id req n) w w₁ n
            Q refl
            (Ends-ok (allocate req) (saved r.router u.user_id req n) w₁ w₂ a Q refl (
              Ends-ok (save_router id router) (λ _. spread r.router q req) w₂ w₃ tt Q
                (save_router-some id r router w₂ hr)
                λ m w' e.
                  let (name, g', o) =
                    spread-Spread r.router q req (record r { router = router }) u w₃
                      (router-rerouted id r router w₂) (unfold rerouted in hu) m w' e in
                  subst (λ k. Produced r u req w k w') (sym name)
                    (
                      refl,
                      (grows id).transitive w w₃ w' g g',
                      g'.extended.kept_producers u.user_id n q found,
                      o,
                    )))))

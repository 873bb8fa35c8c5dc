-- ===== src/Conference/Fatal.antt =====
-- A produce request that stops the server.
use singal.Common.{
  ℕ, ◌+◌, ◌<◌, ◌≡◌, refl, Bool, true, false, String, Option, none, some, List, [], ◌∷◌, ◌++◌, arith,
  length, length-map, get_elem?, set, str_eq, if◌then◌else◌, ◌∙◌, ap, sym, inl, inr, ◌⊎◌,
}
use mathlib.Core.Path.{subst}
use singal.Conference.Begun.{begun, begun_producer, begun-store, produce-begun, spread_on}
use singal.Conference.Consumers.{
  create_new_consumer_data, load_params, logged, new_consumer, push_users, rand_string,
  req_other_new_consumer, save_router, store_params, strip_codec,
}
use singal.Conference.Crashes.{needed, create_new_consumer_data-panics, bind-panic}
use singal.Conference.Grows.{rerouted, router-rerouted, save_router-some}
use singal.Conference.Produce.{attempt, create_producer, next_draw, produce}
use singal.Conference.Producing.{stripped}
use singal.Router.{add_producer}
use singal.Conference.Steps.{IsOpen, bind-ok, get_elem?-set_self, load-some, load_room-some, others}
use singal.Conference.{
  Env, User, Room, World, M, ◌>>=◌, ◌>>◌, pure, load, load_room, request_new_consumer,
}
use singal.Dict.{Dict, lookup}
use singal.Media.{ProduceReqData}
use singal.Proto.{ServerPayload, ProduceResponse}
use singal.Router.{Router, Producer, Consumer, add_consumer, get_consumer_transport_id}
use singal.Rtc.Media.{Outcome, ok, err, panic}
use singal.Rtc.{create_producer_request, producer_finish, valid_router}

-- What is kept of the request has the codecs of the request.
kept_codecs :
    (router : Router) (q : Producer) (d kept : ProduceReqData) (draw : ℕ → ℕ) (m : ServerPayload)
    → create_producer_request (some router) q d draw ≡ ok (kept, m)
    → kept.rtp_parameters.media_codecs ≡ d.rtp_parameters.media_codecs
unfolding create_producer_request valid_router
kept_codecs router q d kept draw m e = ground (arith, e)

-- Data with these codecs stand at `a`, in a world with the rooms and users of `w`.
abbrev Holds : ℕ → ProduceReqData → World → World → Type 0
Holds a d w w' =
    (w'.rooms ≡ w.rooms)
    × (w'.users ≡ w.users)
    × ((d' : ProduceReqData) × (get_elem? w'.store a ≡ some d')
        × (d'.rtp_parameters.media_codecs ≡ d.rtp_parameters.media_codecs))

module _ (env : Env) (id : String) where
  create_producer_ends :
      (router : Router) (q : Producer) (d : ProduceReqData) (w : World)
      → get_elem? w.store q.parameters ≡ some d
      → (create_producer env router q w ≡ panic)
        ⊎ ((w' : World) × (create_producer env router q w ≡ ok (tt, w'))
            × Holds q.parameters d w w')
  unfolding create_producer
  create_producer_ends router q d w hd =
      subst Result (sym begin)
        (go (create_producer_request (some router) q d (env.rand_uint32 w.draws)) refl)
    where
      Result : Outcome (Unit {0} × World) → Type 0
      Result o = (o ≡ panic) ⊎ ((w' : World) × (o ≡ ok (tt, w')) × Holds q.parameters d w w')

      w₁ : World
      w₁ = record w { draws = w.draws + 1 }

      done : Option (ProduceReqData × ServerPayload) → M (Unit {0})
      done made = elim made [
        | none ↦ pure tt
        | some (kept, m) ↦ do
          store_params q.parameters kept
          logged (producer_finish (env.remote m))
      ]

      begin : create_producer env router q w ≡ (
          (attempt (create_producer_request (some router) q d (env.rand_uint32 w.draws)) >>= done)
            w₁)
      begin =
          bind-ok (load_params q.parameters) _ w w d (ground (arith, hd))
          ∙ bind-ok next_draw
              (λ n.
                attempt (create_producer_request (some router) q d (env.rand_uint32 n)) >>= done)
              w w₁ w.draws refl

      after : ProduceReqData → World
      after kept = record w₁ { store = set w.store q.parameters kept }

      finished :
          (kept : ProduceReqData) (f : Outcome ProduceResponse)
          → kept.rtp_parameters.media_codecs ≡ d.rtp_parameters.media_codecs
          → Result (logged f (after kept))
      finished kept (ok a) e = inr (
        after kept,
        refl,
        (refl, refl, (kept, get_elem?-set_self w.store q.parameters d kept hd, e)),
      )
      finished kept (err x) e = inr (
        after kept,
        refl,
        (refl, refl, (kept, get_elem?-set_self w.store q.parameters d kept hd, e)),
      )
      finished kept panic e = inl refl

      go :
          (o : Outcome (ProduceReqData × ServerPayload))
          → create_producer_request (some router) q d (env.rand_uint32 w.draws) ≡ o
          → Result ((attempt o >>= done) w₁)
      go panic e = inl refl
      go (err x) e = inr (w₁, refl, (refl, refl, (d, hd, refl)))
      go (ok (kept, m)) e =
          finished kept (producer_finish (env.remote m))
            (kept_codecs router q d kept (env.rand_uint32 w.draws) m e)

  push_users_panics :
      (u : User) (q : Producer) (d : ProduceReqData) (r : Room) (m : Dict ℕ) (w : World) (v : ℕ)
      (rest : List ℕ)
      → lookup id w.rooms ≡ some r
      → get_elem? w.store q.parameters ≡ some d
      → length d.rtp_parameters.media_codecs < needed q.kind
      → others u.user_id m ≡ v ∷ rest
      → IsOpen w v
      → push_users env id u q m w ≡ panic
  unfolding push_users others
  push_users_panics u q d r [] w v rest hr hd short e o = absurd (cc)
  push_users_panics u q d r ((k, x) ∷ m) w v rest hr hd short e o =
      go (str_eq k u.user_id) e (push_users_panics u q d r m w v rest hr hd short)
    where
      c : User → String → Consumer
      c other n =
          new_consumer env n (get_consumer_transport_id r.router other.user_id) q.producer_id q.kind

      next : User → String → M (Unit {0})
      next other n = do
        save_router id (add_consumer r.router other.user_id (some (c other n))).0
        a ← create_new_consumer_data env id (c other n) q u.peer_id other.user_id
        request_new_consumer x a
        push_users env id u q m

      go :
          (b : Bool)
          → (if b then others u.user_id m else x ∷ others u.user_id m) ≡ v ∷ rest
          → (others u.user_id m ≡ v ∷ rest → IsOpen w v → push_users env id u q m w ≡ panic)
          → (elim b as (λ _. M (Unit {0})) [
            | true ↦ push_users env id u q m
            | false ↦ do
              r ← load_room id
              other ← load x
              n ← rand_string env 36
              save_router id
                  (add_consumer r.router other.user_id (
                    some (
                      new_consumer env n
                        (get_consumer_transport_id r.router other.user_id)
                        q.producer_id
                        q.kind))).0
              a ←
                  create_new_consumer_data env id
                    (new_consumer env n
                      (get_consumer_transport_id r.router other.user_id)
                      q.producer_id
                      q.kind)
                    q
                    u.peer_id
                    other.user_id
              request_new_consumer x a
              push_users env id u q m
          ])
              w
            ≡ panic
      go true e ih = ih e o
      go false e ih =
          let same : x ≡ v = ground (arith, e) in
          let other : User = o.0 in
          let known : get_elem? w.users x ≡ some other = ap (get_elem? w.users) same ∙ o.1 in
          let n : String = env.rand_string w.draws 36 in
          let w₁ : World = record w { draws = w.draws + 1 } in
          let router : Router = (add_consumer r.router other.user_id (some (c other n))).0 in
          let w₂ : World = rerouted id r router w₁ in
          bind-ok (load_room id) _ w w r (load_room-some id r w hr)
          ∙ bind-ok (load x) _ w w other (load-some x other w known)
          ∙ bind-ok (rand_string env 36) (next other) w w₁ n refl
          ∙ bind-ok (save_router id router) _ w₁ w₂ tt (save_router-some id r router w₁ hr)
          ∙ bind-panic (create_new_consumer_data env id (c other n) q u.peer_id other.user_id) _ w₂
              (create_new_consumer_data-panics env id (c other n) q u.peer_id other.user_id w₂
                (record r { router = router }) d (router-rerouted id r router w₁)
                (unfold rerouted in hd) short)

  req_other_new_consumer_panics :
      (p : ℕ) (u : User) (q : Producer) (d : ProduceReqData) (r : Room) (w : World) (v : ℕ)
      (rest : List ℕ)
      → lookup id w.rooms ≡ some r
      → get_elem? w.users p ≡ some u
      → get_elem? w.store q.parameters ≡ some d
      → length d.rtp_parameters.media_codecs < needed q.kind
      → others u.user_id r.users ≡ v ∷ rest
      → IsOpen w v
      → req_other_new_consumer env id p q w ≡ panic
  unfolding req_other_new_consumer
  req_other_new_consumer_panics p u q d r w v rest hr hu hd short e o =
      bind-ok (load_room id) _ w w r (load_room-some id r w hr)
      ∙ bind-ok (load p) _ w w u (load-some p u w hu)
      ∙ push_users_panics u q d r r.users w v rest hr hd short e o

  pub produce_panics :
      (p : ℕ) (u : User) (req : ProduceReqData) (r : Room) (w : World) (v : ℕ) (rest : List ℕ)
      → lookup id w.rooms ≡ some r
      → get_elem? w.users p ≡ some u
      → length req.rtp_parameters.media_codecs < needed req.kind
      → others u.user_id r.users ≡ v ∷ rest
      → IsOpen w v
      → produce env id p req w ≡ panic
  unfolding produce
  produce_panics p u req r w v rest hr hu short e o =
      produce-begun env id p r u req w hr hu ∙ ends (create_producer_ends r.router q d w₄ held)
    where
      n : String
      n = env.rand_string w.draws 36

      q : Producer
      q = begun_producer env req w

      d : ProduceReqData
      d = stripped req

      router : Router
      router = add_producer r.router u.user_id (some q)

      w₂ : World
      w₂ = record w { draws = w.draws + 1; store = w.store ++ req ∷ [] }

      w₄ : World
      w₄ = begun env id r u req w

      held : get_elem? w₄.store (length w.store) ≡ some d
      held = begun-store env id r u req w

      afterwards : M String
      afterwards = spread_on env id p q n

      ends :
          (create_producer env r.router q w₄ ≡ panic)
            ⊎ ((w' : World) × (create_producer env r.router q w₄ ≡ ok (tt, w'))
                × Holds q.parameters d w₄ w')
          → (create_producer env r.router q >> afterwards) w₄ ≡ panic
      ends (inl h) = bind-panic (create_producer env r.router q) (λ _. afterwards) w₄ h
      ends (inr (w₅, h, (same_rooms, same_users, (d', kept, codecs)))) =
          bind-ok (create_producer env r.router q) (λ _. afterwards) w₄ w₅ tt h
          ∙ bind-panic (req_other_new_consumer env id p q) _ w₅ (
              req_other_new_consumer_panics p u q d' (record r { router = router }) w₅ v rest
                (ap (lookup id) same_rooms ∙ unfold rerouted in router-rerouted id r router w₂)
                (ap (λ l. get_elem? l p) same_users ∙ unfold rerouted in hu) kept
                (subst (λ k. k < needed req.kind)
                  (sym (ap length codecs ∙ length-map strip_codec req.rtp_parameters.media_codecs))
                  short)
                e (o.0, ap (λ l. get_elem? l v) same_users ∙ unfold rerouted in o.1, o.2))

-- ===== src/Conference/Begun.antt =====
-- `Produce` of src/server/room.go up to the call of `CreateProducer`.
use singal.Common.{
  ℕ, ◌+◌, ◌≡◌, refl, String, some, List, [], ◌∷◌, ◌++◌, length, get_elem?, set, ◌∙◌,
}
use singal.Conference.Consumers.{
  allocate, rand_string, req_other_new_consumer, req_pull_other_new_producer, save_router,
  store_params,
}
use singal.Conference.Grows.{rerouted, save_router-some}
use singal.Conference.Produce.{create_producer, produce}
use singal.Conference.Producing.{made_producer, saved, spread, stripped}
use singal.Conference.Steps.{bind-ok, get_elem?-set_self, load-some, load_room-some}
use singal.Conference.{Env, User, Room, World, M, ◌>>=◌, ◌>>◌, pure, load, load_room}
use singal.Dict.{lookup}
use singal.Media.{ProduceReqData}
use singal.Router.{Router, Producer, add_producer}

last_elem :
    (l : List ProduceReqData) (d : ProduceReqData) → get_elem? (l ++ d ∷ []) (length l) ≡ some d
last_elem [] d = refl
last_elem (x ∷ l) d = last_elem l d

-- The producer that is made of the request.
abbrev pub begun_producer : Env → ProduceReqData → World → Producer
begun_producer env req w = made_producer (env.rand_string w.draws 36) (length w.store) req

-- The world in which `CreateProducer` is called.
abbrev pub begun : Env → String → Room → User → ProduceReqData → World → World
begun env id r u req w =
    let router = add_producer r.router u.user_id (some (begun_producer env req w)) in
    let w₁ : World = record w { draws = w.draws + 1; store = w.store ++ req ∷ [] } in
    record (rerouted id r router w₁) {
      store = set (w.store ++ req ∷ []) (length w.store) (stripped req);
    }

pub begun-store :
    (env : Env) (id : String) (r : Room) (u : User) (req : ProduceReqData) (w : World)
    → get_elem? (begun env id r u req w).store (length w.store) ≡ some (stripped req)
begun-store env id r u req w =
    get_elem?-set_self (w.store ++ req ∷ []) (length w.store) req (stripped req)
      (last_elem w.store req)

-- What `Produce` does after `CreateProducer`.
abbrev pub spread_on : Env → String → ℕ → Producer → String → M String
spread_on env id p q n = do
  req_other_new_consumer env id p q
  req_pull_other_new_producer env id p q
  pure n

pub produce-begun :
    (env : Env) (id : String) (p : ℕ) (r : Room) (u : User) (req : ProduceReqData) (w : World)
    → lookup id w.rooms ≡ some r
    → get_elem? w.users p ≡ some u
    → produce env id p req w
      ≡ (create_producer env r.router (begun_producer env req w)
            >> spread_on env id p (begun_producer env req w) (env.rand_string w.draws 36))
          (begun env id r u req w)
unfolding produce rerouted
produce-begun env id p r u req w hr hu =
    let n : String = env.rand_string w.draws 36 in
    let a : ℕ = length w.store in
    let q : Producer = made_producer n a req in
    let router : Router = add_producer r.router u.user_id (some q) in
    let w₁ : World = record w { draws = w.draws + 1 } in
    let w₂ : World = record w₁ { store = w.store ++ req ∷ [] } in
    let w₃ : World = rerouted id r router w₂ in
    bind-ok (load_room id) _ w w r (load_room-some id r w hr)
    ∙ bind-ok (load p) _ w w u (load-some p u w hu)
    ∙ bind-ok (rand_string env 36) (λ n. allocate req >>= saved env id p r.router u.user_id req n) w
        w₁ n refl
    ∙ bind-ok (allocate req) (saved env id p r.router u.user_id req n) w₁ w₂ a refl
    ∙ bind-ok (save_router id router) (λ _. spread env id p r.router q req) w₂ w₃ tt
        (save_router-some id r router w₂ hr)
    ∙ bind-ok (store_params a (stripped req))
        (λ _. create_producer env r.router q >> spread_on env id p q n) w₃ (begun env id r u req w)
        tt refl

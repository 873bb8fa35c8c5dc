-- ===== src/Conference/Null.antt =====
-- A produce request with a null among its encodings.
use singal.Common.{
  ℕ, ℤ, ◌+◌, ◌≡◌, refl, false, String, Option, none, some, List, [], ◌∷◌, arith, Elem, inl, inr,
  get_elem?, str_eq, ◌∙◌,
}
use singal.Conference.Begun.{begun, begun_producer, begun-store, produce-begun, spread_on}
use singal.Conference.Consumers.{load_params, logged, store_params}
use singal.Conference.Crashes.{bind-panic}
use singal.Conference.Handlers.{handle_produce}
use singal.Conference.Produce.{attempt, create_producer, next_draw, produce}
use singal.Conference.Producing.{stripped}
use singal.Conference.Steps.{bind-ok, get_or_create_room-some, load-some}
use singal.Proto.{ServerPayload}
use singal.Conference.{Env, User, Room, World, M, ◌>>=◌, ◌>>◌, pure, load, get_or_create_room}
use singal.Dict.{lookup}
use singal.Media.{Encodings, ProduceReqData}
use singal.Router.{Router, Producer}
use singal.Rtc.Media.{Outcome, panic, producer_encodings}
use singal.Rtc.{create_producer_request, producer_finish, valid_router}

producer_encodings-panics :
    (kind : String) (draw : ℕ → ℕ) (vs : List (Option Encodings))
    → Elem none vs
    → producer_encodings kind draw vs ≡ panic
unfolding producer_encodings
producer_encodings-panics kind draw [] m = absurd m
producer_encodings-panics kind draw (none ∷ vs) m = refl
producer_encodings-panics kind draw (some v ∷ vs) (inl e) = absurd (cc)
producer_encodings-panics kind draw (some v ∷ vs) (inr m) =
    ground (arith, producer_encodings-panics kind (λ n. draw (n + 1)) vs m)

create_producer_request-panics :
    (router : Router) (q : Producer) (d : ProduceReqData) (draw : ℕ → ℕ)
    → str_eq router.worker_id "" ≡ false
    → Elem none d.rtp_parameters.encodings
    → create_producer_request (some router) q d draw ≡ panic
unfolding create_producer_request valid_router
create_producer_request-panics router q d draw h m =
    rw (h, producer_encodings-panics q.kind draw d.rtp_parameters.encodings m) refl

create_producer-panics :
    (env : Env) (router : Router) (q : Producer) (d : ProduceReqData) (w : World)
    → get_elem? w.store q.parameters ≡ some d
    → str_eq router.worker_id "" ≡ false
    → Elem none d.rtp_parameters.encodings
    → create_producer env router q w ≡ panic
unfolding create_producer
create_producer-panics env router q d w held h m =
    bind-ok (load_params q.parameters) _ w w d (ground (arith, held))
    ∙ bind-ok next_draw
        (λ n. attempt (create_producer_request (some router) q d (env.rand_uint32 n)) >>= done) w
        (record w { draws = w.draws + 1 }) w.draws refl
    ∙ bind-panic (attempt (create_producer_request (some router) q d (env.rand_uint32 w.draws)))
        done (record w { draws = w.draws + 1 })
        (rw (create_producer_request-panics router q d (env.rand_uint32 w.draws) h m) refl)
  where
    done : Option (ProduceReqData × ServerPayload) → M (Unit {0})
    done made = elim made [
      | none ↦ pure tt
      | some (kept, m) ↦ do store_params q.parameters kept; logged (producer_finish (env.remote m))
    ]

-- Where the room of a user is there and its router has a worker, a produce request with a null among
-- its encodings makes `handleProduce` panic, whoever else is in the room and whatever the worker would
-- answer.
pub handle_produce-null :
    (env : Env) (made : Outcome Router) (w : World) (p : ℕ) (id : ℤ) (req : ProduceReqData)
    (u : User) (r : Room)
    → get_elem? w.users p ≡ some u
    → lookup u.room_id w.rooms ≡ some r
    → str_eq r.router.worker_id "" ≡ false
    → Elem none req.rtp_parameters.encodings
    → handle_produce env made p id (some req) w ≡ panic
unfolding handle_produce
handle_produce-null env made w p id req u r hu hr h m =
    bind-ok (load p) _ w w u (load-some p u w hu)
    ∙ bind-ok (get_or_create_room made u.room_id) _ w w (some r)
        (get_or_create_room-some made u.room_id r w hr)
    ∙ bind-panic (produce env u.room_id p req) _ w (
        produce-begun env u.room_id p r u req w hr hu
        ∙ bind-panic (create_producer env r.router (begun_producer env req w))
            (λ _. spread_on env u.room_id p (begun_producer env req w) (env.rand_string w.draws 36))
            (begun env u.room_id r u req w)
            (create_producer-panics env r.router (begun_producer env req w) (stripped req)
              (begun env u.room_id r u req w) (begun-store env u.room_id r u req w) h m))

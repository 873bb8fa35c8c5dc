-- ===== src/Conference/Quiet.antt =====
-- The calls of `Produce` that leave rooms, users and channels alone.
use singal.Common.{ℕ, ◌≡◌, refl, String, none, some, arith, str_eq, ◌∙◌}
use singal.Conference.Consumers.{
  rand_string, load_params, store_params, allocate, lift, logged, create_new_consumer_data,
  consumer_codecs,
}
use singal.Conference.Gives.{
  IsPreorder, Gives, Any, Gives-bind, Gives-seq, Gives-pure, Gives-test, Gives-option,
}
use singal.Conference.Produce.{attempt, next_draw, create_producer}
use singal.Conference.{Env, World, M, ◌>>=◌, ◌>>◌, pure, load_room}
use singal.Media.{NewConsumerReqData, ProduceReqData}
use singal.Router.{Router, Consumer, Producer}
use singal.Rtc.{create_producer_request, producer_finish}
use singal.Rtc.Media.{Outcome, ok}

abbrev pub Quiet : World → World → Type 0
Quiet w w' = (w'.rooms ≡ w.rooms) × (w'.users ≡ w.users) × (w'.sent ≡ w.sent)

pub quiet : IsPreorder Quiet
quiet = record {
  reflexive = λ w. (refl, refl, refl);
  transitive = λ w v w' h k. (k.0 ∙ h.0, k.1 ∙ h.1, k.2 ∙ h.2);
}

module _ {A : Type 0} where
  Quiet-of :
      (m : M A) → ((w w' : World) (a : A) → m w ≡ ok (a, w') → Quiet w w') → Gives Quiet Any m
  Quiet-of m h = record { at = λ w w' a e. (h w w' a e, tt) }

  Quiet-attempt : (o : Outcome A) → Gives Quiet Any (attempt o)
  Quiet-attempt o = record { at = λ w w' a e. (ground (arith, e), tt) }

  Quiet-lift : (o : Outcome A) → Gives Quiet Any (lift o)
  Quiet-lift o = Quiet-of (lift o) λ w w' a e. ground (arith, e)

  Quiet-logged : (o : Outcome A) → Gives Quiet Any (logged o)
  Quiet-logged o = record { at = λ w w' a e. (ground (arith, e), tt) }

Quiet-load_room : (id : String) → Gives Quiet Any (load_room id)
Quiet-load_room id = Quiet-of (load_room id) λ w w' r e. ground (arith, e)

Quiet-load_params : (a : ℕ) → Gives Quiet Any (load_params a)
Quiet-load_params a = Quiet-of (load_params a) λ w w' d e. ground (arith, e)

pub Quiet-store_params : (a : ℕ) (d : ProduceReqData) → Gives Quiet Any (store_params a d)
Quiet-store_params a d = Quiet-of (store_params a d) λ w w' u e. ground (arith, e)

pub Quiet-allocate : (d : ProduceReqData) → Gives Quiet Any (allocate d)
Quiet-allocate d = Quiet-of (allocate d) λ w w' a e. ground (arith, e)

Quiet-next_draw : Gives Quiet Any next_draw
Quiet-next_draw = Quiet-of next_draw λ w w' a e. ground (arith, e)

module _ (env : Env) where
  pub Quiet-rand_string : (n : ℕ) → Gives Quiet Any (rand_string env n)
  Quiet-rand_string n = Quiet-of (rand_string env n) λ w w' a e. ground (arith, e)

  -- The data of a new consumer is about the producer that the consumer is of.
  pub Quiet-create_new_consumer_data :
      (id : String) (c : Consumer) (q : Producer) (peer_id user_id : String)
      → Gives Quiet
          (λ (d : NewConsumerReqData). d.producer_id ≡ c.producer_id)
          (create_new_consumer_data env id c q peer_id user_id)
  unfolding create_new_consumer_data
  Quiet-create_new_consumer_data id c q peer_id user_id =
      Gives-bind quiet (Quiet-load_room id) λ r _.
        Gives-bind quiet (Quiet-load_params q.parameters) λ params _.
          Gives-bind quiet
            (Gives-test (str_eq c.kind "video") (Quiet-rand_string 20)
              (Gives-pure quiet params.rtp_parameters.rtcp.c_name tt))
            λ c_name _.
              Gives-bind quiet
                (Quiet-lift (consumer_codecs c.kind params.rtp_parameters.media_codecs))
                λ codecs _.
                  Gives-seq quiet (Quiet-logged _)
                    (Gives-seq quiet (Quiet-store_params q.parameters _) (Gives-pure quiet _ refl))

  pub Quiet-create_producer :
      (router : Router) (q : Producer) → Gives Quiet Any (create_producer env router q)
  unfolding create_producer
  Quiet-create_producer router q = Gives-bind quiet (Quiet-load_params q.parameters) λ params _.
      Gives-bind quiet {f = λ n. rest params n} Quiet-next_draw λ n _.
        Gives-bind quiet
          (Quiet-attempt (create_producer_request (some router) q params (env.rand_uint32 n)))
          λ made _. Gives-option made (Gives-pure quiet tt tt) λ (kept, m).
            Gives-seq quiet (Quiet-store_params q.parameters kept)
              (Quiet-logged (producer_finish (env.remote m)))
    where
      rest : ProduceReqData → ℕ → M (Unit {0})
      rest params n = do
        made ← attempt (create_producer_request (some router) q params (env.rand_uint32 n))
        elim made [
          | none ↦ pure tt
          | some (kept, m) ↦ do
            store_params q.parameters kept
            logged (producer_finish (env.remote m))
        ]

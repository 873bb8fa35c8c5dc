-- ===== src/Conference/Crashes.antt =====
-- What a client can send that stops the server.
use singal.Common.{
  ℕ, ◌<◌, ◌≡◌, refl, Bool, true, false, String, some, List, [], ◌∷◌, arith, length, get_elem?,
  str_eq, if◌then◌else◌, ◌∙◌, ap, Bool-cases, inl, inr,
}
use singal.Conference.{Env, Room, World, M, ◌>>=◌, load_room, pure}
use singal.Conference.Consumers.{
  consumer_codecs, create_new_consumer_data, load_params, lift, rand_string,
}
use singal.Conference.Steps.{bind-ok, load_room-some}
use singal.Dict.{lookup}
use singal.Media.{ProduceReqData, CodecCapabilities}
use singal.Router.{Producer, Consumer}
use singal.Rtc.Media.{Outcome, ok, err, panic}

-- The codecs that a consumer of the kind is made with.
abbrev pub needed : String → ℕ
needed kind = if str_eq kind "video" then 2 else 1

consumer_codecs_short :
    (kind : String) (cs : List CodecCapabilities)
    → length cs < needed kind
    → consumer_codecs kind cs ≡ panic
unfolding consumer_codecs
consumer_codecs_short kind [] h = refl
consumer_codecs_short kind (c ∷ []) h = elim (Bool-cases (str_eq kind "video")) [
  | inl e ↦ ground (arith, e)
  | inr e ↦ absurd (ground (arith, e, h))
]
consumer_codecs_short kind (c ∷ d ∷ cs) h = absurd (elim (Bool-cases (str_eq kind "video")) [
  | inl e ↦ ground (arith, e, h)
  | inr e ↦ ground (arith, e, h)
])

pub bind-panic :
    {A B : Type 0} (m : M A) (f : A → M B) (w : World) → m w ≡ panic → (m >>= f) w ≡ panic
bind-panic m f w e =
    ap (λ (o : Outcome (_ × World)). elim o [ ok (b, v) ↦ f b v | err s ↦ err s | panic ↦ panic ]) e

named-panic :
    {A : Type 0} (env : Env) (c_name : String) (b : Bool) (f : String → M A) (w : World)
    → ((n : String) (v : World) → f n v ≡ panic)
    → ((elim b as (λ _. M String) [ true ↦ rand_string env 20 | false ↦ pure c_name ]) >>= f) w
      ≡ panic
named-panic env c_name true f w h = h _ _
named-panic env c_name false f w h = h _ _

lift-panic :
    (kind : String) (cs : List CodecCapabilities) (w : World)
    → length cs < needed kind
    → lift (consumer_codecs kind cs) w ≡ panic
lift-panic kind cs w h =
    ap
      (λ (o : Outcome (List CodecCapabilities)).
        elim o as (λ _. Outcome (List CodecCapabilities × World)) [
          | ok a ↦ ok (a, w)
          | err e ↦ err e
          | panic ↦ panic
        ])
      (consumer_codecs_short kind cs h)

-- `CreateNewConsumerData` panics, whatever the worker is, where the producer came with fewer codecs
-- than it indexes: two for a video consumer, one for any other.
pub create_new_consumer_data-panics :
    (env : Env) (id : String) (c : Consumer) (q : Producer) (peer_id user_id : String) (w : World)
    (r : Room) (d : ProduceReqData)
    → lookup id w.rooms ≡ some r
    → get_elem? w.store q.parameters ≡ some d
    → length d.rtp_parameters.media_codecs < needed c.kind
    → create_new_consumer_data env id c q peer_id user_id w ≡ panic
unfolding create_new_consumer_data
create_new_consumer_data-panics env id c q peer_id user_id w r d hr hd short =
    bind-ok (load_room id) _ w w r (load_room-some id r w hr)
    ∙ bind-ok (load_params q.parameters) _ w w d (ground (arith, hd))
    ∙ named-panic env d.rtp_parameters.rtcp.c_name (str_eq c.kind "video") _ w λ n v.
      bind-panic (lift (consumer_codecs c.kind d.rtp_parameters.media_codecs)) _ v
        (lift-panic c.kind d.rtp_parameters.media_codecs v short)

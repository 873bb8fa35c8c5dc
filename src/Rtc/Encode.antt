-- ===== src/Rtc/Encode.antt =====
-- What the workers are told about media.
use singal.Common.{
  ℕ, Option, none, some, ◌+◌, ◌<◌, ◌≡◌, refl, Bool, String, List, [], ◌∷◌, map, str_eq,
  if◌then◌else◌, arith, Bool-cases, inl, inr,
}
use singal.Media.{RtcpFeedback, Encodings}
use singal.Proto.{PbRtcpFeedback, Encoding}
use singal.Rtc.Media.{
  Outcome, ok, err, panic, producer_feedbacks, producer_encodings, consumer_encodings,
  mapped_payload_type,
}

-- Where `CreateProducer` gets through its encodings, those that it leaves in the producer's parameters are sent by a later
-- `CreateConsumer` of the same kind as they were sent for the producer: with the same SSRC and RTX
-- data, and without a nil pointer.
pub consumer-producer_encodings :
    (kind : String) (draw : ℕ → ℕ) (vs kept : List (Option Encodings)) (sent : List Encoding)
    → producer_encodings kind draw vs ≡ ok (kept, sent)
    → consumer_encodings kind kept ≡ ok sent
unfolding consumer_encodings producer_encodings
consumer-producer_encodings kind draw [] kept sent e = ground (arith, e)
consumer-producer_encodings kind draw (none ∷ vs) kept sent e = absurd (cc)
consumer-producer_encodings kind draw (some v ∷ vs) kept sent e =
    go (producer_encodings kind (λ n. draw (n + 1)) vs) refl
      (consumer-producer_encodings kind (λ n. draw (n + 1)) vs)
  where
    go :
        (o : Outcome (List (Option Encodings) × List Encoding))
        → producer_encodings kind (λ n. draw (n + 1)) vs ≡ o
        → ((k : List (Option Encodings)) (s : List Encoding)
            → producer_encodings kind (λ n. draw (n + 1)) vs ≡ ok (k, s)
            → consumer_encodings kind k ≡ ok s)
        → consumer_encodings kind kept ≡ ok sent
    go (ok (k, s)) h ih = ground (arith, e, h, ih k s h)
    go (err x) h ih = absurd (ground (arith, e, h))
    go panic h ih = absurd (ground (arith, e, h))

-- Different payload types are mapped to different ones, in uint32.
pub mapped_payload_type_inj :
    (kind : String) (a b : ℕ)
    → a < 4294967296
    → b < 4294967296
    → mapped_payload_type kind a ≡ mapped_payload_type kind b
    → a ≡ b
unfolding mapped_payload_type
mapped_payload_type_inj kind a b ha hb e = elim (Bool-cases (str_eq kind "video")) [
  | inl v ↦ ground (arith, v)
  | inr v ↦ ground (arith, v)
]

abbrev pub is_nack : PbRtcpFeedback → Bool
is_nack f = str_eq f.type "nack"

abbrev pub strip_nack : List RtcpFeedback → List PbRtcpFeedback
strip_nack [] = []
strip_nack (f ∷ fs) =
    let rest = strip_nack fs in
    if str_eq f.type "nack" then rest else record { type = f.type; parameter = f.parameter } ∷ rest

-- A producer's feedbacks are sent in order: without "nack" for an audio, all of them otherwise.
pub producer_feedbacks_lem :
    (kind : String) (fs : List RtcpFeedback)
    → producer_feedbacks kind fs ≡ (
        if str_eq kind "audio"
        then strip_nack fs
        else map (λ f. record { type = f.type; parameter = f.parameter }) fs)
unfolding producer_feedbacks
producer_feedbacks_lem kind [] = ground arith
producer_feedbacks_lem kind (f ∷ fs) = ground (arith, producer_feedbacks_lem kind fs)

-- ===== src/Rtc/Media.antt =====
-- The media parameters of a request, from the client's data (src/server/grpcServer.go).
use singal.Common.{
  Option, ℕ, ◌+◌, ◌-◌, ◌%◌, to_uint32, Bool, true, false, ◌&&◌, String, none, some, List, [], ◌∷◌,
  map, str_eq, if◌then◌else◌,
}
use singal.Media.{
  RtcpFeedback, CodecCapabilities, ProducerHeadExtension, Encodings, RtpCapabilities,
}
use singal.Proto.{PbRtcpFeedback, Codec, HeadExtension, Encoding, RtpMapping, RtpParameters}

-- A Go call that may return an error, or panic on a nil pointer or an index.
pub data Outcome (A : Type 0) : Type 0 where
  ok : A → Outcome A
  err : String → Outcome A
  panic : Outcome A

-- A producer's feedbacks; an audio's "nack" is left out.
unfoldable pub producer_feedbacks : String → List RtcpFeedback → List PbRtcpFeedback
producer_feedbacks kind [] = []
producer_feedbacks kind (f ∷ fs) =
    let rest = producer_feedbacks kind fs in
    if str_eq kind "audio" && str_eq f.type "nack"
    then rest
    else record { type = f.type; parameter = f.parameter } ∷ rest

unfoldable pub encode_codec : String → CodecCapabilities → Codec
encode_codec kind v = record {
  mime_type = v.mime_type;
  payload_type = to_uint32 v.payload_type;
  clock_rate = to_uint32 v.clock_rate;
  channels = to_uint32 v.channels;
  rtcp_feedbacks = producer_feedbacks kind v.feedbacks;
}

-- A consumer's codec keeps every feedback.
unfoldable pub codec_of : CodecCapabilities → Codec
codec_of v = record {
  mime_type = v.mime_type;
  payload_type = to_uint32 v.payload_type;
  clock_rate = to_uint32 v.clock_rate;
  channels = to_uint32 v.channels;
  rtcp_feedbacks = map (λ f. record { type = f.type; parameter = f.parameter }) v.feedbacks;
}

unfoldable pub encode_extension : ProducerHeadExtension → HeadExtension
encode_extension v = record { uri = v.uri; id = to_uint32 v.id; encrypt = v.encrypt }

-- An encoding with the given SSRC and RTX data.
abbrev pub encoding_of : Encodings → ℕ → Bool → ℕ → Encoding
encoding_of v ssrc has_rtx rtx_ssrc = record {
  active = v.active;
  scalability_mode = v.scalability_mode;
  scale_resolution_down_by = to_uint32 v.scale_resolution_down_by;
  max_bitrate = to_uint32 v.max_bitrate;
  rid = v.rid;
  dtx = v.dtx;
  ssrc = ssrc;
  has_rtx = has_rtx;
  rtx_ssrc = rtx_ssrc;
}

-- `ssrc + 1`, in uint32.
abbrev pub next_ssrc : ℕ → ℕ
next_ssrc n = (n + 1) % 4294967296

-- The loop of `CreateProducer` over the encodings: those that the producer keeps, and those that are
-- sent. A video encoding without RTX data gets an SSRC and RTX data by `rand.Uint32`, which gives
-- `draw i` for the encoding at place `i`. An entry may be a nil pointer.
unfoldable pub producer_encodings :
    String → (ℕ → ℕ) → List (Option Encodings) → Outcome (List (Option Encodings) × List Encoding)
producer_encodings kind draw [] = ok ([], [])
producer_encodings kind draw (none ∷ vs) = panic
producer_encodings kind draw (some v ∷ vs) = elim (producer_encodings kind (λ n. draw (n + 1)) vs) [
  | ok (kept, sent) ↦
      if str_eq kind "video"
      then elim v.rtx [
        | none ↦
            let x = some (record { ssrc = next_ssrc (draw 0) }) in
            ok (
              some (record v { ssrc = draw 0; rtx = x }) ∷ kept,
              encoding_of v (draw 0) true (next_ssrc (draw 0)) ∷ sent,
            )
        | some x ↦ ok (some v ∷ kept, encoding_of v v.ssrc true x.ssrc ∷ sent)
      ]
      else ok (some v ∷ kept, encoding_of v v.ssrc false 0 ∷ sent)
  | err e ↦ err e
  | panic ↦ panic
]

-- The loop of `CreateConsumer`: the RTX data of a video encoding that has none is a nil pointer.
unfoldable pub consumer_encodings : String → List (Option Encodings) → Outcome (List Encoding)
consumer_encodings kind [] = ok []
consumer_encodings kind (none ∷ vs) = panic
consumer_encodings kind (some v ∷ vs) =
    let rest = consumer_encodings kind vs in
    if str_eq kind "video"
    then elim v.rtx [
      | none ↦ panic
      | some x ↦ elim rest [
        | ok es ↦ ok (encoding_of v v.ssrc true x.ssrc ∷ es)
        | err e ↦ err e
        | panic ↦ panic
      ]
    ]
    else elim rest [
      | ok es ↦ ok (encoding_of v v.ssrc false 0 ∷ es)
      | err e ↦ err e
      | panic ↦ panic
    ]

-- `v.PayloadType + 5` for a video and `v.PayloadType - 11` else, in uint32.
unfoldable pub mapped_payload_type : String → ℕ → ℕ
mapped_payload_type kind pt =
    if str_eq kind "video" then (pt + 5) % 4294967296 else (pt + (4294967296 - 11)) % 4294967296

unfoldable pub rtp_mapping : String → List Codec → List Encoding → RtpMapping
rtp_mapping kind codecs encodings = record {
  payload_map =
      map
        (λ v. record {
          payload_type = v.payload_type;
          mapped_payload_type = mapped_payload_type kind v.payload_type;
        })
        codecs;
  encoding_map = map (λ v. record { rid = v.rid; ssrc = v.ssrc; mapped_ssrc = v.ssrc }) encodings;
}

unfoldable pub parameters_of : String → RtpCapabilities → List Codec → List Encoding → RtpParameters
parameters_of kind p codecs encodings = record {
  mid = p.mid;
  msid = p.msid;
  rtcp = record { cname = p.rtcp.c_name; reduced_size = p.rtcp.reduced_size };
  codecs = codecs;
  head_extensions = map encode_extension p.header_extensions;
  encodings = encodings;
  rtp_mapping = rtp_mapping kind codecs encodings;
}

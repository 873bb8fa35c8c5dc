-- ===== src/Proto.antt =====
-- The messages between this server and the media workers, as src/server/proto/singal.pb.go has them.
-- Every number is a uint32, but `seq_id`, a uint64.
use singal.Common.{ℕ, Bool, String, Option, List}

pub record ListenInfo : Type 0 where
  pub protocol : String
  pub ip : String
  pub port : ℕ
  pub announced_address : String
  pub announced_ip : String
  pub announced_port : ℕ
  pub tcp : Bool
  pub ipv6_only : Bool
  pub udp_reuse_port : Bool
  pub recv_buffer_size : ℕ
  pub send_buffer_size : ℕ

pub record RouterRequest : Type 0 where
  pub worker_id : String
  pub room_id : String
  pub server_id : String
  pub method : String
  pub info : Option ListenInfo

pub record RouterResponse : Type 0 where
  pub router_id : String
  pub success : Bool
  pub error_detail : String

pub record DtlsFingerprint : Type 0 where
  pub algorithm : String
  pub value : String

pub record PbIceCandidate : Type 0 where
  pub foundation : String
  pub priority : ℕ
  pub ip : String
  pub protocol : String
  pub port : ℕ
  pub type : String
  pub tcp_type : String

pub record CreateTransportRequest : Type 0 where
  pub worker_id : String
  pub router_id : String
  pub transport_id : String

pub record CreateTransportResponse : Type 0 where
  pub transport_id : String
  pub ice_ufrag : String
  pub ice_pwd : String
  pub ice_candidates : List PbIceCandidate
  pub dtls_fingerprints : List DtlsFingerprint
  pub dtls_role : String
  pub success : Bool
  pub error_detail : String

pub record ConnectTransportRequest : Type 0 where
  pub worker_id : String
  pub router_id : String
  pub transport_id : String
  pub dtls_role : String
  pub dtls_fingerprints : List DtlsFingerprint

pub record ConnectTransportResponse : Type 0 where
  pub transport_id : String
  pub success : Bool
  pub error_detail : String

pub record PbRtcp : Type 0 where
  pub cname : String
  pub reduced_size : Bool

pub record PbRtcpFeedback : Type 0 where
  pub type : String
  pub parameter : String

pub record Codec : Type 0 where
  pub mime_type : String
  pub payload_type : ℕ
  pub clock_rate : ℕ
  pub channels : ℕ
  pub rtcp_feedbacks : List PbRtcpFeedback

pub record HeadExtension : Type 0 where
  pub uri : String
  pub id : ℕ
  pub encrypt : Bool

pub record Encoding : Type 0 where
  pub active : Bool
  pub scalability_mode : String
  pub scale_resolution_down_by : ℕ
  pub max_bitrate : ℕ
  pub rid : String
  pub dtx : Bool
  pub ssrc : ℕ
  pub has_rtx : Bool
  pub rtx_ssrc : ℕ

pub record PayloadMap : Type 0 where
  pub payload_type : ℕ
  pub mapped_payload_type : ℕ

pub record EncodingMap : Type 0 where
  pub rid : String
  pub ssrc : ℕ
  pub mapped_ssrc : ℕ

pub record RtpMapping : Type 0 where
  pub payload_map : List PayloadMap
  pub encoding_map : List EncodingMap

pub record RtpParameters : Type 0 where
  pub mid : String
  pub msid : String
  pub rtcp : PbRtcp
  pub codecs : List Codec
  pub head_extensions : List HeadExtension
  pub encodings : List Encoding
  pub rtp_mapping : RtpMapping

pub record ProduceRequest : Type 0 where
  pub router_id : String
  pub transport_id : String
  pub producer_id : String
  pub kind : String
  pub method : String
  pub rtp_parameters : Option RtpParameters

pub record ProduceResponse : Type 0 where
  pub producer_id : String
  pub success : Bool
  pub error_detail : String

pub record ConsumeRequest : Type 0 where
  pub router_id : String
  pub transport_id : String
  pub producer_id : String
  pub consumer_id : String
  pub kind : String
  pub method : String
  pub rtp_parameters : Option RtpParameters

pub record ConsumeResponse : Type 0 where
  pub consumer_id : String
  pub producer_id : String
  pub success : Bool
  pub error_detail : String

pub record WorkerRegister : Type 0 where
  pub worker_id : String
  pub public_ip : String
  pub public_port : ℕ
  pub use_udp : Bool
  pub router_count : ℕ
  pub cpu_usage : ℕ
  pub memory_usage : ℕ

pub record WorkerKeepalive : Type 0 where
  pub worker_id : String
  pub router_count : ℕ
  pub cpu_usage : ℕ
  pub memory_usage : ℕ

pub record WorkerRegisterResponse : Type 0 where
  pub worker_id : String
  pub success : Bool
  pub error_detail : String

-- The payloads of `WorkerToServer`. A keepalive may carry no message.
pub data WorkerPayload : Type 0 where
  create_router_res : RouterResponse → WorkerPayload
  create_transport_res : CreateTransportResponse → WorkerPayload
  connect_transport_res : ConnectTransportResponse → WorkerPayload
  produce_res : ProduceResponse → WorkerPayload
  consumer_res : ConsumeResponse → WorkerPayload
  worker_register : WorkerRegister → WorkerPayload
  worker_keepalive : Option WorkerKeepalive → WorkerPayload
  stats_push : String → WorkerPayload

pub record WorkerToServer : Type 0 where
  pub seq_id : ℕ
  pub payload : WorkerPayload

pub data ServerPayload : Type 0 where
  create_router_req : RouterRequest → ServerPayload
  create_transport_req : CreateTransportRequest → ServerPayload
  connect_transport_req : ConnectTransportRequest → ServerPayload
  produce_req : ProduceRequest → ServerPayload
  consumer_req : ConsumeRequest → ServerPayload
  worker_register_res : WorkerRegisterResponse → ServerPayload
  worker_keepalive_res : Bool → ServerPayload

pub record ServerToWorker : Type 0 where
  pub seq_id : ℕ
  pub payload : ServerPayload

-- The getters of `WorkerToServer`: nil for a payload of another kind.
unfoldable pub get_create_router_res : WorkerToServer → Option RouterResponse
get_create_router_res m = elim m.payload [ create_router_res r ↦ Option.some r | _ ↦ Option.none ]

unfoldable pub get_create_transport_res : WorkerToServer → Option CreateTransportResponse
get_create_transport_res m = elim m.payload [
  | create_transport_res r ↦ Option.some r
  | _ ↦ Option.none
]

unfoldable pub get_connect_transport_res : WorkerToServer → Option ConnectTransportResponse
get_connect_transport_res m = elim m.payload [
  | connect_transport_res r ↦ Option.some r
  | _ ↦ Option.none
]

unfoldable pub get_produce_res : WorkerToServer → Option ProduceResponse
get_produce_res m = elim m.payload [ produce_res r ↦ Option.some r | _ ↦ Option.none ]

unfoldable pub get_consumer_res : WorkerToServer → Option ConsumeResponse
get_consumer_res m = elim m.payload [ consumer_res r ↦ Option.some r | _ ↦ Option.none ]

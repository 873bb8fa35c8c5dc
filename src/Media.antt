-- ===== src/Media.antt =====
-- The data that clients and workers exchange about media: src/server/reqResData.go and the codec
-- types of src/server/config.go. A Go `int` that a client can send is ℤ; `uint32`, and an `int` that
-- only takes constants and converted `uint32` values, is ℕ. Free-form JSON (`interface{}`) is left out.
use singal.Common.{ℕ, ℤ, Bool, String, Option, List}

pub record CodecParameters : Type 0 where
  pub packetization_mode : ℤ
  pub profile_level_id : String
  pub level_asymmetry_allowed : ℤ
  pub x_google_start_bitrate : ℤ
  pub apt : ℤ
  pub min_p_time : ℤ
  pub use_in_band_fec : ℤ
  pub sprop_stereo : ℤ
  pub use_dtx : ℤ

pub record RtcpFeedback : Type 0 where
  pub type : String
  pub parameter : String

pub record CodecCapabilities : Type 0 where
  pub kind : String
  pub mime_type : String
  pub clock_rate : ℤ
  pub channels : ℤ
  pub parameters : Option CodecParameters
  pub feedbacks : List RtcpFeedback
  pub preferred_payload_type : ℤ
  pub payload_type : ℤ

pub record ProducerHeadExtension : Type 0 where
  pub uri : String
  pub id : ℤ
  pub encrypt : Bool

pub record Rtcp : Type 0 where
  pub c_name : String
  pub reduced_size : Bool

pub record Rtx : Type 0 where
  pub ssrc : ℕ

pub record Encodings : Type 0 where
  pub active : Bool
  pub scalability_mode : String
  pub scale_resolution_down_by : ℤ
  pub max_bitrate : ℤ
  pub rid : String
  pub dtx : Bool
  pub ssrc : ℕ
  pub rtx : Option Rtx

pub record RtpCapabilities : Type 0 where
  pub mid : String
  pub media_codecs : List CodecCapabilities
  pub header_extensions : List ProducerHeadExtension
  pub encodings : List (Option Encodings)
  pub rtcp : Rtcp
  pub msid : String

pub record NumStreams : Type 0 where
  pub os : ℤ
  pub mis : ℤ

pub record SctpCapabilities : Type 0 where
  pub num_streams : NumStreams

pub record AppData : Type 0 where
  pub direction : String
  pub channel : String
  pub source : String
  pub peer_id : String

pub record CreateTransportReqData : Type 0 where
  pub sctp_capabilities : SctpCapabilities
  pub force_tcp : Bool
  pub app_data : AppData

pub record Fingerprint : Type 0 where
  pub algorithm : String
  pub value : String

pub record DtlsParameters : Type 0 where
  pub fingerprints : List Fingerprint
  pub role : String

pub record IceParameters : Type 0 where
  pub username_fragment : String
  pub password : String
  pub ice_lite : Bool

pub record IceCandidate : Type 0 where
  pub foundation : String
  pub priority : ℕ
  pub ip : String
  pub address : String
  pub protocol : String
  pub port : ℕ
  pub type : String
  pub tcp_type : String

pub record SctpParameters : Type 0 where
  pub port : ℕ
  pub os : ℕ
  pub mis : ℕ
  pub max_message_size : ℕ
  pub send_buffer_size : ℕ
  pub sctp_buffered_amount : ℕ
  pub is_data_channel : Bool

pub record CreateTransportResData : Type 0 where
  pub transport_id : String
  pub ice_parameters : IceParameters
  pub ice_candidates : List IceCandidate
  pub dtls_parameters : DtlsParameters
  pub sctp_parameters : SctpParameters

pub record Device : Type 0 where
  pub flag : String
  pub name : String
  pub version : String

pub record JoinReqData : Type 0 where
  pub display_name : String
  pub device : Option Device
  pub rtp_capabilities : RtpCapabilities

pub record ConnectTransportReqData : Type 0 where
  pub transport_id : String
  pub dtls_parameters : DtlsParameters

pub record SctpStreamParameters : Type 0 where
  pub stream_id : ℕ
  pub orderd : Bool

pub record ProduceDataReqData : Type 0 where
  pub transport_id : String
  pub sctp_stream_parameters : SctpStreamParameters
  pub label : String
  pub app_data : AppData

pub record ProduceDataResData : Type 0 where
  pub data_producer_id : String

pub record NewDataConsumerReqData : Type 0 where
  pub peer_id : String
  pub transport_id : String
  pub data_producer_id : String
  pub data_consumer_id : String
  pub sctp_stream_parameters : SctpStreamParameters
  pub label : String
  pub app_data : AppData

pub record ConsumerScore : Type 0 where
  pub score : ℕ
  pub producer_score : ℕ
  pub producer_scores : List ℕ

pub record NewConsumerReqData : Type 0 where
  pub peer_id : String
  pub transport_id : String
  pub consumer_id : String
  pub producer_id : String
  pub kind : String
  pub rtp_parameters : RtpCapabilities
  pub type : String
  pub producer_paused : Bool
  pub app_data : AppData
  pub consumer_score : ConsumerScore

pub record ProduceReqData : Type 0 where
  pub transport_id : String
  pub kind : String
  pub rtp_parameters : RtpCapabilities

pub record Peer : Type 0 where
  pub peer_id : String
  pub display_name : String
  pub device : Option Device
  pub remote_address : String

pub record JoinResData : Type 0 where
  pub peers : List Peer

pub record PeerData : Type 0 where
  pub peer : Peer

pub record ProduceResData : Type 0 where
  pub producer_id : String

pub record ConsumeResData : Type 0 where
  pub consumer_id : String

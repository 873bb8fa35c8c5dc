-- ===== src/Rtc.antt =====
-- The operations that `WebRtcServer` performs on workers (src/server/grpcServer.go): each builds a
-- request, waits in `sendRequest`, and reads the response. What other goroutines do while it waits
-- is free, so an operation is a function for the request and one for the answer.
pub mod Media
pub mod Routing
pub mod Encode
use singal.Common.{
  ℕ, ◌+◌, ◌-◌, ◌%◌, to_uint32, Bool, true, false, ◌&&◌, String, Option, none, some, List, [], ◌∷◌,
  map, str_eq, if◌then◌else◌,
}
use singal.Media.{
  RtpCapabilities, ProduceReqData, NewConsumerReqData, ConnectTransportReqData, Fingerprint,
}
use singal.Proto.{
  ListenInfo, RouterRequest, RouterResponse, CreateTransportRequest, CreateTransportResponse,
  ConnectTransportRequest, ConnectTransportResponse, ProduceRequest, ProduceResponse,
  ConsumeRequest, ConsumeResponse, RtpParameters, DtlsFingerprint, ServerPayload, WorkerToServer,
  create_router_req, create_transport_req, connect_transport_req, produce_req, consumer_req,
  get_create_router_res, get_create_transport_res, get_connect_transport_res, get_produce_res,
  get_consumer_res, Encoding,
}
use singal.Router.{Router, Producer, Consumer}
use singal.Server.{SendError, worker_offline, send_failed, request_timeout}
use singal.Workers.{Worker, WorkerManager, choose_best_worker, add_router, remove_router}
use Media.{
  Outcome, ok, err, panic, encode_codec, encode_extension, codec_of, rtp_mapping,
  producer_encodings, consumer_encodings, parameters_of,
}

-- What `sendRequest` returns.
pub data Answer : Type 0 where
  response : WorkerToServer → Answer
  refused : SendError → Answer

abbrev pub error_text : SendError → String
error_text worker_offline = "worker offline"
error_text send_failed = "send failed"
error_text request_timeout = "request timeout"

-- The tail of every operation: an error of `sendRequest` is returned, a response of another kind is
-- a nil pointer, and a response without success is its error.
unfoldable pub read_answer :
    {R : Type 0} → (WorkerToServer → Option R) → (R → Bool) → (R → String) → Answer → Outcome R
read_answer get success detail (refused e) = err (error_text e)
read_answer get success detail (response m) = elim (get m) [
  | none ↦ panic
  | some r ↦ if success r then ok r else err (detail r)
]

abbrev pub router_answer : Answer → Outcome RouterResponse
router_answer = read_answer get_create_router_res (λ r. r.success) (λ r. r.error_detail)

-- The router that is made for a worker, and the request for it.
abbrev pub router_on : Worker → String → Router
router_on w router_id = record {
  router_id = router_id;
  public_ip = w.public_ip;
  min_port = 0;
  port = w.public_port;
  max_port = 0;
  preference_udp = w.use_udp;
  send_buf_size = 1024;
  recv_buf_size = 1024;
  worker_id = w.worker_id;
  producers = [];
  consumers = [];
  produce_transport_ids = [];
  consume_transport_ids = [];
}

abbrev pub router_message : Worker → String → String → ServerPayload
router_message w router_id server_id = create_router_req (record {
  worker_id = w.worker_id;
  room_id = router_id;
  server_id = server_id;
  method = "create";
  info = some (record {
    protocol = "UDP";
    ip = "0.0.0.0";
    port = w.public_port;
    announced_address = w.public_ip;
    announced_ip = w.public_ip;
    announced_port = w.public_port;
    tcp = false;
    ipv6_only = false;
    udp_reuse_port = false;
    recv_buffer_size = 1024;
    send_buffer_size = 1024;
  });
})

-- `CreateRouterOnWorker` up to `sendRequest`; the ids come from `RandString`.
unfoldable pub create_router_request :
    WorkerManager → ℕ → String → String → Option (Router × ServerPayload)
create_router_request wm now router_id server_id = elim (choose_best_worker wm now) [
  | none ↦ none
  | some w ↦ some (router_on w router_id, router_message w router_id server_id)
]

unfoldable pub create_router_finish :
    WorkerManager → Router → Answer → WorkerManager × Outcome Router
create_router_finish wm router answer = elim (router_answer answer) [
  | ok _ ↦ ((add_router wm router.worker_id router).0, ok router)
  | err e ↦ (wm, err e)
  | panic ↦ (wm, panic)
]

unfoldable pub close_router_request : Router → String → ServerPayload
close_router_request router server_id = create_router_req (record {
  worker_id = router.worker_id;
  room_id = router.router_id;
  server_id = server_id;
  method = "close";
  info = none;
})

unfoldable pub close_router_finish :
    WorkerManager → Router → Answer → WorkerManager × Outcome (Unit {0})
close_router_finish wm router answer = elim (router_answer answer) [
  | ok _ ↦ ((remove_router wm router.worker_id router.router_id).0, ok tt)
  | err e ↦ (wm, err e)
  | panic ↦ (wm, panic)
]

-- `if router == nil || router.workerId == ""`
unfoldable pub valid_router : Option Router → Outcome Router
valid_router none = err "invalid router"
valid_router (some r) = if str_eq r.worker_id "" then err "invalid router" else ok r

abbrev pub and_then : {A B : Type 0} → Outcome A → (A → Outcome B) → Outcome B
and_then (ok a) f = f a
and_then (err e) f = err e
and_then panic f = panic

unfoldable pub create_transport_request : Option Router → String → Outcome ServerPayload
create_transport_request router transport_id = and_then (valid_router router) λ r. ok (
    create_transport_req
      (record { worker_id = r.worker_id; router_id = r.router_id; transport_id = transport_id }))

unfoldable pub create_transport_finish : Answer → Outcome CreateTransportResponse
create_transport_finish =
    read_answer get_create_transport_res (λ r. r.success) (λ r. r.error_detail)

unfoldable pub connect_transport_request :
    Option Router → ConnectTransportReqData → Outcome ServerPayload
connect_transport_request router req = and_then (valid_router router) λ r. ok (
    connect_transport_req (record {
      worker_id = r.worker_id;
      router_id = r.router_id;
      transport_id = req.transport_id;
      dtls_role = req.dtls_parameters.role;
      dtls_fingerprints =
          map (λ v. record { algorithm = v.algorithm; value = v.value })
            req.dtls_parameters.fingerprints;
    }))

unfoldable pub connect_transport_finish : Answer → Outcome (Unit {0})
connect_transport_finish answer =
    and_then (read_answer get_connect_transport_res (λ r. r.success) (λ r. r.error_detail) answer)
      (λ _. ok tt)

-- `CreateProducer`: missing RTX data of a video is drawn and written to the producer's parameters,
-- so the request data comes back changed.
unfoldable pub create_producer_request :
    Option Router → Producer → ProduceReqData → (ℕ → ℕ) → Outcome (ProduceReqData × ServerPayload)
create_producer_request router producer params draw = and_then (valid_router router) λ r.
    and_then (producer_encodings producer.kind draw params.rtp_parameters.encodings) λ (kept, sent).
      let codecs = map (encode_codec producer.kind) params.rtp_parameters.media_codecs in
      ok (
        record params { rtp_parameters = record (params.rtp_parameters) { encodings = kept } },
        produce_req (record {
          router_id = r.router_id;
          transport_id = producer.transport_id;
          producer_id = producer.producer_id;
          kind = producer.kind;
          method = "create";
          rtp_parameters = some (parameters_of producer.kind params.rtp_parameters codecs sent);
        }),
      )

unfoldable pub close_producer_request : Option Router → Producer → Outcome ServerPayload
close_producer_request router producer = and_then (valid_router router) λ r. ok (
    produce_req (record {
      router_id = r.router_id;
      transport_id = producer.transport_id;
      producer_id = producer.producer_id;
      kind = producer.kind;
      method = "close";
      rtp_parameters = none;
    }))

-- The tail of `CreateProducer` and of `CloseProducer`.
unfoldable pub producer_finish : Answer → Outcome ProduceResponse
producer_finish = read_answer get_produce_res (λ r. r.success) (λ r. r.error_detail)

unfoldable pub create_consumer_request : Option Router → NewConsumerReqData → Outcome ServerPayload
create_consumer_request router req = and_then (valid_router router) λ r.
    and_then (consumer_encodings req.kind req.rtp_parameters.encodings) λ sent.
      let codecs = map codec_of req.rtp_parameters.media_codecs in
      ok (
        consumer_req (record {
          router_id = r.router_id;
          transport_id = req.transport_id;
          producer_id = req.producer_id;
          consumer_id = req.consumer_id;
          kind = req.kind;
          method = "create";
          rtp_parameters = some (parameters_of req.kind req.rtp_parameters codecs sent);
        }))

unfoldable pub close_consumer_request : Option Router → Consumer → Outcome ServerPayload
close_consumer_request router consumer = and_then (valid_router router) λ r. ok (
    consumer_req (record {
      router_id = r.router_id;
      transport_id = consumer.transport_id;
      producer_id = consumer.producer_id;
      consumer_id = consumer.consumer_id;
      kind = consumer.kind;
      method = "close";
      rtp_parameters = none;
    }))

-- The tail of `CreateConsumer` and of `CloseConsumer`.
unfoldable pub consumer_finish : Answer → Outcome ConsumeResponse
consumer_finish = read_answer get_consumer_res (λ r. r.success) (λ r. r.error_detail)

-- ===== src/Server.antt =====
-- `WebRtcServer` of src/server/grpcServer.go: the streams of the workers and the requests in flight.
-- `Sync` runs once for each stream and `sendRequest` once for each caller, so both are given by the
-- steps that they make on the shared server, and a history interleaves the steps.
pub mod Heap
pub mod Invariant
pub mod Requests
pub mod Waits
pub mod Lives
pub mod Refines
pub mod Delivery
pub mod Sessions
use singal.Common.{
  ℕ, zero, suc, ◌+◌, ◌%◌, Bool, true, false, String, Option, none, some, List, [], ◌∷◌, ◌++◌,
  str_eq, ◌==◌, if◌then◌else◌, length,
}
use singal.Dict.{Dict, lookup, insert, delete}
use singal.Proto.{
  WorkerPayload, WorkerToServer, ServerPayload, ServerToWorker, WorkerRegister, WorkerKeepalive,
  worker_register_res, worker_keepalive_res,
}
use singal.Workers.{
  WorkerManager, new_worker_manager, register_worker, heartbeat, update_worker_stats, remove_worker,
}

-- A `WorkerStream`: the gRPC stream, by a number, and the sequence ids of the requests that wait for
-- a response. The response channel of a request is named by its sequence id.
pub record WorkerStream : Type 0 where
  pub stream : ℕ
  pub pending : List ℕ

-- `workers` holds pointers into `heap`. `channels` has what was put in the response channels and
-- `sent` what went out, newest first, each with its stream.
pub record WebRtcServer : Type 0 where
  pub manager : WorkerManager
  pub workers : Dict ℕ
  pub heap : List WorkerStream
  pub next_id : ℕ
  pub channels : List (ℕ × WorkerToServer)
  pub sent : List (ℕ × ServerToWorker)

-- The variables of one run of `Sync`.
pub record Session : Type 0 where
  pub stream : ℕ
  pub worker_id : String
  pub ws : Option ℕ

unfoldable pub new_web_rtc_server : WebRtcServer
new_web_rtc_server = record {
  manager = new_worker_manager;
  workers = [];
  heap = [];
  next_id = 0;
  channels = [];
  sent = [];
}

unfoldable pub new_session : ℕ → Session
new_session stream = record { stream = stream; worker_id = ""; ws = none }

abbrev pub remove_seq : ℕ → List ℕ → List ℕ
remove_seq n [] = []
remove_seq n (m ∷ ms) = let rest = remove_seq n ms in if m == n then rest else m ∷ rest

abbrev pub has_seq : ℕ → List ℕ → Bool
has_seq n [] = false
has_seq n (m ∷ ms) = if m == n then true else has_seq n ms

-- A write through a pointer.
abbrev pub set_pending : ℕ → (List ℕ → List ℕ) → List WorkerStream → List WorkerStream
set_pending p f [] = []
set_pending zero f (w ∷ ws) = record w { pending = f w.pending } ∷ ws
set_pending (suc p) f (w ∷ ws) = w ∷ set_pending p f ws

abbrev pub pending_of : ℕ → List WorkerStream → List ℕ
pending_of p [] = []
pending_of zero (w ∷ ws) = w.pending
pending_of (suc p) (w ∷ ws) = pending_of p ws

abbrev pub stream_of : ℕ → List WorkerStream → ℕ
stream_of p [] = 0
stream_of zero (w ∷ ws) = w.stream
stream_of (suc p) (w ∷ ws) = stream_of p ws

-- `RemoveWorker(id)` and `workers.Delete(id)`
abbrev pub forget_worker : WebRtcServer → String → WebRtcServer
forget_worker s id = record s {
  manager = remove_worker s.manager id;
  workers = delete id s.workers;
}

-- The end of the stream, for EOF and for any other error of `Recv`.
unfoldable pub sync_end : WebRtcServer → Session → WebRtcServer
sync_end s t = if str_eq t.worker_id "" then s else forget_worker s t.worker_id

abbrev pub send_on : ℕ → ServerToWorker → WebRtcServer → WebRtcServer
send_on stream m s = record s { sent = (stream, m) ∷ s.sent }

-- `RegisterWorker`, a new `WorkerStream`, and `workers.Store`
abbrev pub enrol : WebRtcServer → ℕ → WorkerRegister → ℕ → WebRtcServer
enrol s stream w now = record s {
  manager = (register_worker s.manager w.worker_id w.public_ip w.public_port w.use_udp now).0;
  workers = insert w.worker_id (length s.heap) s.workers;
  heap = s.heap ++ record { stream = stream; pending = [] } ∷ [];
}

-- A registration; an earlier one of the same stream is taken back first. `sent_ok` is false where
-- `Send` returns an error, which ends the stream. The last component says whether the loop goes on.
unfoldable pub sync_register :
    WebRtcServer → Session → ℕ → WorkerRegister → ℕ → Bool → WebRtcServer × Session × Bool
sync_register s t seq_id w now sent_ok =
    let s₁ = sync_end s t in
    let s₂ = enrol s₁ t.stream w now in
    let t' : Session = record t { worker_id = w.worker_id; ws = some (length s₁.heap) } in
    let res : ServerToWorker = record {
      seq_id = seq_id;
      payload =
          worker_register_res
            (record { worker_id = w.worker_id; success = true; error_detail = "" });
    } in
    (if sent_ok then send_on t.stream res s₂ else s₂, t', sent_ok)

unfoldable pub sync_keepalive :
    WebRtcServer → Session → ℕ → WorkerKeepalive → ℕ → Bool → WebRtcServer × Session
sync_keepalive s t seq_id k now sent_ok =
    let t' : Session = record t { worker_id = k.worker_id } in
    let (m₁, success) = heartbeat s.manager k.worker_id now in
    let res : ServerToWorker = record { seq_id = seq_id; payload = worker_keepalive_res success } in
    elim t.ws [
      | none ↦ (record s { manager = m₁ }, t')
      | some p ↦
          let m₂ =
            if success
            then (update_worker_stats m₁ k.worker_id k.router_count k.cpu_usage k.memory_usage
                now).0
            else m₁ in
          let s' : WebRtcServer = record s { manager = m₂ } in
          (if sent_ok then send_on (stream_of p s.heap) res s' else s', t')
    ]

-- A response: it is put in the channel of the request that waits for it on this stream.
unfoldable pub sync_response : WebRtcServer → Session → WorkerToServer → WebRtcServer
sync_response s t m = elim t.ws [
  | none ↦ s
  | some p ↦
      if has_seq m.seq_id (pending_of p s.heap)
      then record s {
        channels = (m.seq_id, m) ∷ s.channels;
        heap = set_pending p (remove_seq m.seq_id) s.heap;
      }
      else s
]

-- One message of `Sync`.
unfoldable pub sync_message :
    WebRtcServer → Session → WorkerToServer → ℕ → Bool → WebRtcServer × Session × Bool
sync_message s t m now sent_ok = elim m.payload [
  | WorkerPayload.worker_register w ↦ sync_register s t m.seq_id w now sent_ok
  | WorkerPayload.worker_keepalive none ↦ (s, t, true)
  | WorkerPayload.worker_keepalive (some k) ↦
      let (s', t') = sync_keepalive s t m.seq_id k now sent_ok in (s', t', true)
  | WorkerPayload.stats_push _ ↦ (s, t, true)
  | _ ↦ (sync_response s t m, t, true)
]

unfoldable pub get_worker_stream : WebRtcServer → String → Option ℕ
get_worker_stream s id = lookup id s.workers

pub data SendError : Type 0 where
  worker_offline send_failed request_timeout : SendError

-- A request under way: its stream and its sequence id.
pub record Ticket : Type 0 where
  pub ws : ℕ
  pub seq : ℕ

pub data Started : Type 0 where
  waiting : Ticket → Started
  failed : SendError → Started

abbrev pub uint64_mod : ℕ
uint64_mod = 18446744073709551616

-- `atomic.AddUint64(&s.nextID, 1)`
abbrev pub next_seq : WebRtcServer → ℕ
next_seq s = (s.next_id + 1) % uint64_mod

-- The sequence id is taken, and a channel for it is put into the `pending` of the stream.
abbrev pub enqueue : WebRtcServer → ℕ → WebRtcServer
enqueue s p = record s {
  next_id = next_seq s;
  heap = set_pending p (λ l. next_seq s ∷ remove_seq (next_seq s) l) s.heap;
}

-- The channel of a request is taken out of `pending`.
abbrev pub dequeue : WebRtcServer → ℕ → ℕ → WebRtcServer
dequeue s p seq = record s { heap = set_pending p (remove_seq seq) s.heap }

-- `sendRequest` up to its `select`. A failed `Send` is one step with what stands before it.
unfoldable pub start_request : WebRtcServer → String → ServerPayload → Bool → WebRtcServer × Started
start_request s id payload sent_ok = elim (get_worker_stream s id) [
  | none ↦ (s, failed worker_offline)
  | some p ↦
      if sent_ok
      then (
        send_on (stream_of p s.heap) (record { seq_id = next_seq s; payload = payload })
            (enqueue s p),
        waiting (record { ws = p; seq = next_seq s }),
      )
      else (dequeue (enqueue s p) p (next_seq s), failed send_failed)
]

abbrev pub channel : ℕ → List (ℕ × WorkerToServer) → Option WorkerToServer
channel n [] = none
channel n ((k, m) ∷ l) = if k == n then some m else channel n l

-- The two branches of the `select`: what is in the channel, if anything, and the timeout.
unfoldable pub receive : WebRtcServer → Ticket → Option WorkerToServer
receive s t = channel t.seq s.channels

unfoldable pub time_out : WebRtcServer → Ticket → WebRtcServer × SendError
time_out s t = (dequeue s t.ws t.seq, request_timeout)

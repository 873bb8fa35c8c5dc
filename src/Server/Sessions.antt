-- ===== src/Server/Sessions.antt =====
-- A stream against the registry: registration, keepalives, and the end of a stream.
use singal.Server.{WorkerStream}
use singal.Common.{
  arith, ◌∙◌, ℕ, ◌≡◌, ◌≢◌, refl, sym, Bool, true, false, String, none, some, [], ◌∷◌, ◌++◌, length,
  Option-cases, inl, inr, str_eq-false,
}
use singal.Dict.{lookup, insert, delete, lookup-insert_self, lookup-delete_self, lookup-insert_ne}
use singal.Proto.{
  WorkerToServer, ServerPayload, WorkerRegister, WorkerKeepalive, worker_keepalive_res,
}
use singal.Workers.{
  Worker, WorkerManager, online, register_worker, remove_worker, get_worker, heartbeat,
}
use singal.Server.Heap.{pending_of-last, stream_of-last}
use singal.Server.{
  WebRtcServer, Session, failed, worker_offline, sync_end, sync_register, sync_keepalive,
  sync_response, start_request, get_worker_stream, pending_of, stream_of,
}

get_worker-remove : (wm : WorkerManager) (id : String) → get_worker (remove_worker wm id) id ≡ none
unfolding get_worker remove_worker
get_worker-remove wm id = elim (Option-cases (lookup id wm.workers)) [
  | inl e ↦ rw (e, remove_worker) e
  | inr (w, e) ↦ rw (e, remove_worker) (lookup-delete_self id _)
]

get_worker-register :
    (wm : WorkerManager) (id ip : String) (port : ℕ) (udp : Bool) (now : ℕ)
    → (w : Worker) × (get_worker (register_worker wm id ip port udp now).0 id ≡ some w)
      × (w.status ≡ online)
      × (w.last_heartbeat ≡ now)
unfolding get_worker register_worker
get_worker-register wm id ip port udp now = elim (Option-cases (lookup id wm.workers)) [
  | inl e ↦ (
    record {
      worker_id = id;
      public_ip = ip;
      public_port = port;
      use_udp = udp;
      status = online;
      router_count = 0;
      cpu_usage = 0;
      memory_usage = 0;
      last_heartbeat = now;
      routers = [];
    },
    rw (e, register_worker) (lookup-insert_self id _ wm.workers),
    refl,
    refl,
  )
  | inr (w, e) ↦ (
    record w { last_heartbeat = now; status = online },
    rw (e, register_worker) (lookup-insert_self id _ wm.workers),
    refl,
    refl,
  )
]

sync_end_known :
    (s : WebRtcServer) (t : Session)
    → t.worker_id ≢ ""
    → sync_end s t ≡ record s {
      manager = remove_worker s.manager t.worker_id;
      workers = delete t.worker_id s.workers;
    }
unfolding sync_end
sync_end_known s t ne = rw (str_eq-false t.worker_id "" ne, sync_end)

module _ (s : WebRtcServer) (t : Session) (w : WorkerRegister) where
  abbrev before : WebRtcServer
  before = sync_end s t

  abbrev new_stream : WorkerStream
  new_stream = record { stream = t.stream; pending = [] }

  enrolled_stream :
      (p : ℕ) × (lookup w.worker_id (insert w.worker_id (length before.heap) before.workers)
        ≡ some p)
      × (some (length before.heap) ≡ some p)
      × (pending_of p (before.heap ++ new_stream ∷ []) ≡ [])
      × (stream_of p (before.heap ++ new_stream ∷ []) ≡ t.stream)
  enrolled_stream = (
    length before.heap,
    lookup-insert_self w.worker_id (length before.heap) before.workers,
    refl,
    pending_of-last before.heap new_stream,
    stream_of-last before.heap new_stream,
  )

  enrolled_other :
      t.worker_id ≢ ""
      → t.worker_id ≢ w.worker_id
      → lookup t.worker_id (insert w.worker_id (length before.heap) before.workers) ≡ none
  enrolled_other ne other =
      rw
        (lookup-insert_ne w.worker_id t.worker_id (length before.heap) before.workers
          (λ e. other (sym e)))
        (rw (sync_end_known s t ne) (lookup-delete_self t.worker_id s.workers))

-- A registration, whether or not its answer is sent, puts the worker online with a fresh
-- heartbeat, and gives it a stream entry for the stream on which it came, with no request waiting;
-- the session remembers both.
sync_register_lem :
    (s : WebRtcServer) (t : Session) (seq : ℕ) (w : WorkerRegister) (now : ℕ) (ok : Bool)
    → let r = sync_register s t seq w now ok in
      ((v : Worker) × (get_worker r.0.manager w.worker_id ≡ some v)
        × (v.status ≡ online)
        × (v.last_heartbeat ≡ now))
      × ((p : ℕ) × (get_worker_stream r.0 w.worker_id ≡ some p)
          × (r.1.ws ≡ some p)
          × (pending_of p r.0.heap ≡ [])
          × (stream_of p r.0.heap ≡ t.stream))
      × (r.1.worker_id ≡ w.worker_id)
unfolding sync_register get_worker_stream
sync_register_lem s t seq w now true = (
  get_worker-register (sync_end s t).manager w.worker_id w.public_ip w.public_port w.use_udp now,
  enrolled_stream s t w,
  refl,
)
sync_register_lem s t seq w now false = (
  get_worker-register (sync_end s t).manager w.worker_id w.public_ip w.public_port w.use_udp now,
  enrolled_stream s t w,
  refl,
)

-- A stream with a worker id that registers another worker gives up the earlier one: requests to
-- that one fail as offline.
pub sync_register-forgets :
    (s : WebRtcServer) (t : Session) (seq : ℕ) (w : WorkerRegister) (now : ℕ)
    (payload : ServerPayload) (ok : Bool)
    → t.worker_id ≢ ""
    → t.worker_id ≢ w.worker_id
    → (start_request (sync_register s t seq w now true).0 t.worker_id payload ok).1
      ≡ failed worker_offline
unfolding sync_register start_request get_worker_stream
sync_register-forgets s t seq w now payload ok ne other =
    rw (enrolled_other s t w ne other, start_request)

-- After a registration on a stream, whatever response comes next on the stream changes nothing,
-- also one to a request that was waiting before.
pub register-drops_pending :
    (s : WebRtcServer) (t : Session) (seq : ℕ) (w : WorkerRegister) (now : ℕ) (m : WorkerToServer)
    → let r = sync_register s t seq w now true in sync_response r.0 r.1 m ≡ r.0
unfolding sync_register sync_response
register-drops_pending s t seq w now m = rw (pending_of-last (sync_end s t).heap _)

-- When a stream ends, its worker id is forgotten even if another stream has registered that worker
-- since: requests to the worker then fail as offline, and it is not in the registry.
pub stale_end-offline :
    (s : WebRtcServer) (old new : Session) (seq now : ℕ) (w : WorkerRegister)
    (payload : ServerPayload) (ok : Bool)
    → w.worker_id ≢ ""
    → old.worker_id ≡ w.worker_id
    → let s' = sync_end (sync_register s new seq w now true).0 old in
      ((start_request s' w.worker_id payload ok).1 ≡ failed worker_offline)
      × (get_worker s'.manager w.worker_id ≡ none)
unfolding start_request get_worker_stream
stale_end-offline s old new seq now w payload ok ne e =
    rw (sync_end_known (sync_register s new seq w now true).0 old (λ c. ne (sym e ∙ c)), e)
      (rw
        (
          lookup-delete_self w.worker_id (sync_register s new seq w now true).0.workers,
          start_request,
        )
        (refl, get_worker-remove _ w.worker_id))

-- On a stream that has registered, a keepalive of a worker that is not in the registry leaves the
-- registry as it is and is answered with a failure.
pub keepalive_unknown :
    (s : WebRtcServer) (t : Session) (seq : ℕ) (k : WorkerKeepalive) (now p : ℕ)
    → get_worker s.manager k.worker_id ≡ none
    → t.ws ≡ some p
    → let r = sync_keepalive s t seq k now true in
      (r.0.manager ≡ s.manager)
      × (r.0.sent
          ≡ (stream_of p s.heap, record { seq_id = seq; payload = worker_keepalive_res false })
            ∷ s.sent)
unfolding sync_keepalive heartbeat get_worker
keepalive_unknown s t seq k now p h e = ground (arith, e, h)

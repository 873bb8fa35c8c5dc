-- ===== src/Server/Invariant.antt =====
-- What every interleaving of streams and requests keeps true of the server.
use singal.Common.{
  ℕ, ◌+◌, ◌≤◌, ◌<◌, ◌≡◌, Bool, true, false, String, none, some, List, [], ◌∷◌, ◌++◌, arith, All,
  length, Bool-cases, Option-cases, inl, inr, length-append, str_eq, if◌then◌else◌,
}
use singal.Dict.{Dict, AllEntries, AllEntries-insert, AllEntries-delete}
use singal.Proto.{WorkerPayload, WorkerToServer, ServerPayload, WorkerRegister, WorkerKeepalive}
use singal.Server.{Started}
use singal.Server.{
  enrol, enqueue, dequeue, next_seq, send_on, stream_of, waiting, failed, send_failed,
}
use singal.Server.Heap.{
  AllBelow-pending, Below, Below-remove_seq, AllBelow, AllBelow-mono, AllBelow-set, AllBelow-append,
  length-set_pending,
}
use singal.Server.{
  WebRtcServer, WorkerStream, Session, Ticket, sync_end, sync_register, sync_keepalive,
  sync_response, sync_message, start_request, time_out, get_worker_stream, forget_worker,
  set_pending, pending_of, remove_seq, has_seq, uint64_mod, new_web_rtc_server,
}

-- No request that waits, and no response, has a sequence id that is still to come; the table of
-- workers points into the heap.
pub record IsSound (s : WebRtcServer) : Type 0 where
  pub waits : AllBelow s.next_id s.heap
  pub answered : All (λ c. c.0 ≤ s.next_id) s.channels
  pub pointers : AllEntries (λ _ p. p < length s.heap) s.workers

pub data Event : Type 0 where
  end : Session → Event
  message : Session → WorkerToServer → ℕ → Bool → Event
  start : String → ServerPayload → Bool → Event
  expire : Ticket → Event

unfoldable pub step : WebRtcServer → Event → WebRtcServer
step s (end t) = sync_end s t
step s (message t m now ok) = (sync_message s t m now ok).0
step s (start id payload ok) = (start_request s id payload ok).0
step s (expire t) = (time_out s t).0

unfoldable pub run : WebRtcServer → List Event → WebRtcServer
unfolding step
run s [] = s
run s (e ∷ es) = run (step s e) es

forget-IsSound : (s : WebRtcServer) (id : String) → IsSound s → IsSound (forget_worker s id)
forget-IsSound s id v = record {
  waits = v.waits;
  answered = v.answered;
  pointers = AllEntries-delete (λ _ p. p < length s.heap) id s.workers v.pointers;
}

end-IsSound : (s : WebRtcServer) (t : Session) → IsSound s → IsSound (sync_end s t)
unfolding sync_end
end-IsSound s t v = elim (Bool-cases (str_eq t.worker_id "")) [
  | inl e ↦ rw (e, sync_end) v
  | inr e ↦ rw (e, sync_end) (forget-IsSound s t.worker_id v)
]

pointers-grow :
    (m n : ℕ) (d : Dict ℕ) → m ≤ n → AllEntries (λ _ p. p < m) d → AllEntries (λ _ p. p < n) d
pointers-grow m n [] h v = tt
pointers-grow m n ((k, p) ∷ d) h v = (omega arith, pointers-grow m n d h v.1)

enrol-IsSound :
    (s : WebRtcServer) (stream : ℕ) (w : WorkerRegister) (now : ℕ)
    → IsSound s
    → IsSound (enrol s stream w now)
enrol-IsSound s stream w now v =
    let ws : WorkerStream = record { stream = stream; pending = [] } in
    let grown : length (s.heap ++ ws ∷ []) ≡ length s.heap + 1 = length-append s.heap (ws ∷ []) in
    record {
      waits = AllBelow-append s.next_id s.heap ws v.waits tt;
      answered = v.answered;
      pointers =
          AllEntries-insert (λ _ p. p < length (s.heap ++ ws ∷ [])) w.worker_id (length s.heap)
            s.workers (omega (arith, grown))
            (pointers-grow (length s.heap) _ s.workers (omega (arith, grown)) v.pointers);
    }

register-IsSound :
    (s : WebRtcServer) (t : Session) (seq : ℕ) (w : WorkerRegister) (now : ℕ) (ok : Bool)
    → IsSound s
    → IsSound (sync_register s t seq w now ok).0
unfolding sync_register
register-IsSound s t seq w now true v =
    let u = enrol-IsSound (sync_end s t) t.stream w now (end-IsSound s t v) in
    record { waits = u.waits; answered = u.answered; pointers = u.pointers }
register-IsSound s t seq w now false v =
    enrol-IsSound (sync_end s t) t.stream w now (end-IsSound s t v)

keepalive-IsSound :
    (s : WebRtcServer) (t : Session) (seq : ℕ) (k : WorkerKeepalive) (now : ℕ) (ok : Bool)
    → IsSound s
    → IsSound (sync_keepalive s t seq k now ok).0
unfolding sync_keepalive
keepalive-IsSound s t seq k now true v = elim (Option-cases t.ws) [
  | inl e ↦
      rw (e, sync_keepalive)
        (record { waits = v.waits; answered = v.answered; pointers = v.pointers })
  | inr (p, e) ↦
      rw (e, sync_keepalive)
        (record { waits = v.waits; answered = v.answered; pointers = v.pointers })
]
keepalive-IsSound s t seq k now false v = elim (Option-cases t.ws) [
  | inl e ↦
      rw (e, sync_keepalive)
        (record { waits = v.waits; answered = v.answered; pointers = v.pointers })
  | inr (p, e) ↦
      rw (e, sync_keepalive)
        (record { waits = v.waits; answered = v.answered; pointers = v.pointers })
]

set-IsSound :
    (s : WebRtcServer) (p : ℕ) (f : List ℕ → List ℕ)
    → ((l : List ℕ) → Below s.next_id l → Below s.next_id (f l))
    → IsSound s
    → IsSound (record s { heap = set_pending p f s.heap })
set-IsSound s p f k v = record {
  waits = AllBelow-set s.next_id p f s.heap k v.waits;
  answered = v.answered;
  pointers =
      pointers-grow (length s.heap) _ s.workers (omega (arith, length-set_pending f p s.heap))
        v.pointers;
}

has_seq-le : (k n : ℕ) (l : List ℕ) → Below n l → has_seq k l ≡ true → k ≤ n
has_seq-le k n [] b h = cc
has_seq-le k n (x ∷ l) b h = ground (arith, has_seq-le k n l b.1)

response-IsSound :
    (s : WebRtcServer) (t : Session) (m : WorkerToServer)
    → IsSound s
    → IsSound (sync_response s t m)
unfolding sync_response
response-IsSound s t m v = elim (Option-cases t.ws) [
  | inl e ↦ rw (e, sync_response) v
  | inr (p, e) ↦
      rw (e, sync_response)
        (elim (Bool-cases (has_seq m.seq_id (pending_of p s.heap))) [
          | inl f ↦
              let u =
                set-IsSound s p (remove_seq m.seq_id) (Below-remove_seq m.seq_id s.next_id) v in
              rw f (record {
                waits = u.waits;
                answered = (
                  has_seq-le m.seq_id s.next_id _ (AllBelow-pending s.next_id p s.heap v.waits) f,
                  v.answered,
                );
                pointers = u.pointers;
              })
          | inr f ↦ rw f v
        ])
]

message-IsSound :
    (s : WebRtcServer) (t : Session) (seq : ℕ) (payload : WorkerPayload) (now : ℕ) (ok : Bool)
    → IsSound s
    → IsSound (sync_message s t (record { seq_id = seq; payload = payload }) now ok).0
unfolding sync_message
message-IsSound s t seq (WorkerPayload.worker_register w) now ok v =
    register-IsSound s t seq w now ok v
message-IsSound s t seq (WorkerPayload.worker_keepalive none) now ok v = v
message-IsSound s t seq (WorkerPayload.worker_keepalive (some k)) now ok v =
    keepalive-IsSound s t seq k now ok v
message-IsSound s t seq (WorkerPayload.stats_push _) now ok v = v
message-IsSound s t seq payload now ok v = response-IsSound s t _ v

enqueue-IsSound :
    (s : WebRtcServer) (p : ℕ) → s.next_id + 1 < uint64_mod → IsSound s → IsSound (enqueue s p)
enqueue-IsSound s p h v = record {
  waits =
      AllBelow-set (next_seq s) p (λ l. next_seq s ∷ remove_seq (next_seq s) l) s.heap
        (λ l b. (omega arith, Below-remove_seq (next_seq s) (next_seq s) l b))
        (AllBelow-mono s.next_id (next_seq s) s.heap (omega arith) v.waits);
  answered = channels-grow s.next_id (next_seq s) s.channels (omega arith) v.answered;
  pointers =
      pointers-grow (length s.heap) _ s.workers
        (omega (arith, length-set_pending (λ l. next_seq s ∷ remove_seq (next_seq s) l) p s.heap))
        v.pointers;
}
  where
    channels-grow :
        (m n : ℕ) (l : List (ℕ × WorkerToServer))
        → m ≤ n
        → All (λ c. c.0 ≤ m) l
        → All (λ c. c.0 ≤ n) l
    channels-grow m n [] le b = tt
    channels-grow m n (c ∷ l) le b = (omega arith, channels-grow m n l le b.1)

dequeue-IsSound : (s : WebRtcServer) (p seq : ℕ) → IsSound s → IsSound (dequeue s p seq)
dequeue-IsSound s p seq v = set-IsSound s p (remove_seq seq) (Below-remove_seq seq s.next_id) v

start-IsSound :
    (s : WebRtcServer) (id : String) (payload : ServerPayload) (ok : Bool)
    → s.next_id + 1 < uint64_mod
    → IsSound s
    → IsSound (start_request s id payload ok).0
unfolding start_request
start-IsSound s id payload ok h v = elim (Option-cases (get_worker_stream s id)) [
  | inl e ↦ rw (e, start_request) v
  | inr (p, e) ↦ rw (e, start_request) (sent p ok)
]
  where
    sent :
        (p : ℕ) (ok : Bool)
        → IsSound (
            (if◌then◌else◌ {A = WebRtcServer × Started} ok
              (
                send_on
                    (stream_of p s.heap)
                    (record { seq_id = next_seq s; payload = payload })
                    (enqueue s p),
                waiting (record { ws = p; seq = next_seq s }),
              )
              (dequeue (enqueue s p) p (next_seq s), failed send_failed)).0)
    sent p true =
        let u = enqueue-IsSound s p h v in
        record { waits = u.waits; answered = u.answered; pointers = u.pointers }
    sent p false = dequeue-IsSound (enqueue s p) p (next_seq s) (enqueue-IsSound s p h v)

pub step-IsSound :
    (s : WebRtcServer) (e : Event) → s.next_id + 1 < uint64_mod → IsSound s → IsSound (step s e)
unfolding step time_out
step-IsSound s (end t) h v = end-IsSound s t v
step-IsSound s (message t m now ok) h v = message-IsSound s t m.seq_id m.payload now ok v
step-IsSound s (start id payload ok) h v = start-IsSound s id payload ok h v
step-IsSound s (expire t) h v = dequeue-IsSound s t.ws t.seq v

-- A step takes at most one sequence id.
pub next_id-step :
    (s : WebRtcServer) (e : Event) → s.next_id + 1 < uint64_mod → (step s e).next_id ≤ s.next_id + 1
unfolding step sync_end sync_message sync_register sync_keepalive sync_response start_request
    time_out
next_id-step s (end t) h = ground arith
next_id-step s (message t m now ok) h = ground arith
next_id-step s (start id payload ok) h = ground arith
next_id-step s (expire t) h = omega arith

pub run-IsSound :
    (s : WebRtcServer) (es : List Event)
    → s.next_id + length es < uint64_mod
    → IsSound s
    → IsSound (run s es)
unfolding run
run-IsSound s [] h v = v
run-IsSound s (e ∷ es) h v =
    let n : (step s e).next_id ≤ s.next_id + 1 = next_id-step s e (omega arith) in
    run-IsSound (step s e) es (omega arith) (step-IsSound s e (omega arith) v)

-- After any interleaving of fewer than 2^64 steps of streams and requests on a new server, every
-- waiting request and every response has a sequence id of at most the last one given out, and
-- every entry of the table of workers points to a stream.
pub run-new-IsSound :
    (es : List Event) → length es < uint64_mod → IsSound (run new_web_rtc_server es)
unfolding new_web_rtc_server
run-new-IsSound es h =
    run-IsSound new_web_rtc_server es (omega arith)
      (record { waits = tt; answered = tt; pointers = tt })

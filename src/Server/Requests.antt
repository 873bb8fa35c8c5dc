-- ===== src/Server/Requests.antt =====
-- A request from its start to its response or its timeout.
use native.Mathlib.Decide.{ℕ_discrete}
use singal.Server.Heap.{has_seq-remove_ne, remove_seq-cons}
use singal.Common.{
  ◌∙◌, sym, ℕ, ◌+◌, ◌≤◌, ◌<◌, ◌≡◌, ◌≢◌, refl, true, false, String, none, some, List, [], ◌∷◌, arith,
  All, length, Bool-cases, Option-cases, inl, inr,
}
use singal.Dict.{AllEntries-lookup}
use singal.Proto.{WorkerToServer, ServerPayload}
use singal.Server.Heap.{
  AllBelow-pending, has_seq-above, has_seq-remove, pending_of-set_self, pending_of-set_ne,
  length-set_pending,
}
use singal.Server.Invariant.{IsSound}
use singal.Server.{
  WebRtcServer, Session, Ticket, waiting, failed, send_failed, sync_response, start_request,
  time_out, receive, channel, get_worker_stream, set_pending, pending_of, stream_of, remove_seq,
  has_seq, uint64_mod, next_seq, enqueue, send_on,
}

pub channel-above :
    (n k : ℕ) (l : List (ℕ × WorkerToServer)) → All (λ c. c.0 ≤ n) l → n < k → channel k l ≡ none
channel-above n k [] b h = refl
channel-above n k (c ∷ l) b h = ground (arith, channel-above n k l b.1)

-- The session that reads the stream of a request.
abbrev pub Reader : Session → Ticket → Type 0
Reader t k = t.ws ≡ some k.ws

-- The state in which a request waits: only its own channel is there, and it is empty.
pub record IsWaiting (s : WebRtcServer) (k : Ticket) : Type 0 where
  pub registered : has_seq k.seq (pending_of k.ws s.heap) ≡ true
  pub unanswered : receive s k ≡ none
  pub in_heap : k.ws < length s.heap

started_as :
    (s : WebRtcServer) (id : String) (payload : ServerPayload) (p : ℕ)
    → get_worker_stream s id ≡ some p
    → start_request s id payload true ≡ (
      send_on
          (stream_of p s.heap)
          (record { seq_id = next_seq s; payload = payload })
          (enqueue s p),
      waiting (record { ws = p; seq = next_seq s }),
    )
unfolding start_request
started_as s id payload p e = rw (e, start_request)

-- In a sound state with sequence ids left, a request to a worker that has a stream, and whose
-- `Send` succeeds, is sent on that stream under the next sequence id, for which no other stream
-- waits, and it waits for its response.
pub start_request-IsWaiting :
    (s : WebRtcServer) (id : String) (payload : ServerPayload) (p q : ℕ)
    → IsSound s
    → s.next_id + 1 < uint64_mod
    → get_worker_stream s id ≡ some p
    → q ≢ p
    → let k : Ticket = record { ws = p; seq = s.next_id + 1 } in
      let s' = (start_request s id payload true).0 in
      ((start_request s id payload true).1 ≡ waiting k)
      × IsWaiting s' k
      × (s'.sent
          ≡ (stream_of p s.heap, record { seq_id = s.next_id + 1; payload = payload }) ∷ s.sent)
      × (has_seq (s.next_id + 1) (pending_of q s'.heap) ≡ false)
unfolding get_worker_stream receive
start_request-IsWaiting s id payload p q v h e ne = rw (started_as s id payload p e) (
    rw seq (
      refl,
      record {
        registered = rw (pending_of-set_self take p s.heap here) (ground arith);
        unanswered = channel-above s.next_id (s.next_id + 1) s.channels v.answered (omega arith);
        in_heap = omega (arith, length-set_pending take p s.heap, here);
      },
      refl,
      rw (pending_of-set_ne take p q s.heap (λ c. ne (sym c))) (
          has_seq-above (s.next_id + 1) s.next_id _ (AllBelow-pending s.next_id q s.heap v.waits)
            (omega arith)),
    ))
  where
    seq : next_seq s ≡ s.next_id + 1
    seq = omega arith

    take : List ℕ → List ℕ
    take l = (s.next_id + 1) ∷ remove_seq (s.next_id + 1) l

    here : p < length s.heap
    here = AllEntries-lookup (λ _ q. q < length s.heap) id p s.workers e v.pointers

-- The response to a waiting request, read from the stream of the request, is what the caller
-- receives; a second response of that sequence id on that stream changes nothing.
pub sync_response-receive :
    (s : WebRtcServer) (t : Session) (k : Ticket) (m n : WorkerToServer)
    → IsWaiting s k
    → Reader t k
    → m.seq_id ≡ k.seq
    → n.seq_id ≡ k.seq
    → (receive (sync_response s t m) k ≡ some m)
      × (sync_response (sync_response s t m) t n ≡ sync_response s t m)
unfolding sync_response receive
sync_response-receive s t k m n w r e f =
    rw (r, e)
      (rw (w.registered, f)
        (
          ground arith,
          rw (
            pending_of-set_self (remove_seq k.seq) k.ws s.heap w.in_heap,
            has_seq-remove k.seq (pending_of k.ws s.heap),
          ),
        ))

-- A response under another sequence id, read from any stream, leaves a waiting request waiting.
pub sync_response-other :
    (s : WebRtcServer) (t : Session) (k : Ticket) (m : WorkerToServer)
    → IsWaiting s k
    → m.seq_id ≢ k.seq
    → IsWaiting (sync_response s t m) k
unfolding sync_response receive
sync_response-other s t k m w ne = elim (Option-cases t.ws) [
  | inl e ↦ rw (e, sync_response) w
  | inr (p, e) ↦
      rw (e, sync_response)
        (elim (Bool-cases (has_seq m.seq_id (pending_of p s.heap))) [
          | inl f ↦ rw f (record {
            registered = still p (ℕ_discrete p k.ws);
            unanswered = ground (arith, w.unanswered);
            in_heap = omega (arith, length-set_pending (remove_seq m.seq_id) p s.heap, w.in_heap);
          })
          | inr f ↦ rw f w
        ])
]
  where
    still :
        (p : ℕ)
        → Dec (p ≡ k.ws)
        → has_seq k.seq (pending_of k.ws (set_pending p (remove_seq m.seq_id) s.heap)) ≡ true
    still p (yes e) = rw e (
        rw (pending_of-set_self (remove_seq m.seq_id) k.ws s.heap w.in_heap)
          (has_seq-remove_ne k.seq m.seq_id _ (λ c. ne (sym c)) ∙ w.registered))
    still p (no e) = rw (pending_of-set_ne (remove_seq m.seq_id) p k.ws s.heap e) w.registered

-- After the timeout of a waiting request, its response on the stream of the request changes
-- nothing, and the request has received nothing.
pub time_out-response :
    (s : WebRtcServer) (t : Session) (k : Ticket) (m : WorkerToServer)
    → IsWaiting s k
    → Reader t k
    → m.seq_id ≡ k.seq
    → (sync_response (time_out s k).0 t m ≡ (time_out s k).0) × (receive (time_out s k).0 k ≡ none)
unfolding sync_response time_out receive
time_out-response s t k m w r e = (
  ground (
    arith,
    r,
    e,
    pending_of-set_self (remove_seq k.seq) k.ws s.heap w.in_heap,
    has_seq-remove k.seq (pending_of k.ws s.heap),
  ),
  w.unanswered,
)

-- In a sound state with sequence ids left, a request to a worker with a stream whose `Send` fails
-- returns that error, and every stream waits for what it waited for.
pub start_request-send_failed :
    (s : WebRtcServer) (id : String) (payload : ServerPayload) (p q : ℕ)
    → IsSound s
    → s.next_id + 1 < uint64_mod
    → get_worker_stream s id ≡ some p
    → ((start_request s id payload false).1 ≡ failed send_failed)
      × (pending_of q (start_request s id payload false).0.heap ≡ pending_of q s.heap)
unfolding start_request get_worker_stream
start_request-send_failed s id payload p q v h e =
    rw (e, start_request) (rw seq (refl, restored (ℕ_discrete p q)))
  where
    seq : next_seq s ≡ s.next_id + 1
    seq = omega arith

    take : List ℕ → List ℕ
    take l = (s.next_id + 1) ∷ remove_seq (s.next_id + 1) l

    here : p < length s.heap
    here = AllEntries-lookup (λ _ q. q < length s.heap) id p s.workers e v.pointers

    restored :
        Dec (p ≡ q)
        → pending_of q (set_pending p (remove_seq (s.next_id + 1)) (set_pending p take s.heap))
          ≡ pending_of q s.heap
    restored (yes c) = rw (← c) (
        rw
          (
            pending_of-set_self (remove_seq (s.next_id + 1)) p (set_pending p take s.heap)
                (omega (arith, length-set_pending take p s.heap, here)),
            pending_of-set_self take p s.heap here,
          )
          (remove_seq-cons (s.next_id + 1) (pending_of p s.heap) (
            has_seq-above (s.next_id + 1) s.next_id _ (AllBelow-pending s.next_id p s.heap v.waits)
              (omega arith))))
    restored (no c) =
        pending_of-set_ne (remove_seq (s.next_id + 1)) p q (set_pending p take s.heap) c
        ∙ pending_of-set_ne take p q s.heap c

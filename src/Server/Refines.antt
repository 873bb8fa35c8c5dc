-- ===== src/Server/Refines.antt =====
-- What each step of the server does to the lives of the requests.
use native.Mathlib.Decide.{ℕ_discrete}
use singal.Common.{
  ℕ, ◌+◌, ◌<◌, ◌≡◌, refl, Bool, true, String, none, some, ◌∷◌, arith, length, Bool-cases,
  Option-cases, inl, inr, str_eq, sym, ap, ◌∙◌, ltb,
}
use singal.Dict.{AllEntries-lookup}
use singal.Proto.{WorkerPayload, WorkerToServer, ServerPayload, WorkerKeepalive, WorkerRegister}
use singal.Server.{
  WebRtcServer, Session, sync_end, sync_register, sync_keepalive, sync_response, sync_message,
  start_request, channel, get_worker_stream, set_pending, pending_of, remove_seq, has_seq,
  uint64_mod, next_seq, send_on, stream_of, dequeue, enqueue, enrol,
}
use singal.Server.Lives.{
  Moves, life, IsTidy, life-same, response-Moves, dequeue-Moves, enqueue-Moves, failed-Moves,
  put_once, put_empty,
}
use singal.Server.Waits.{
  waits, once, waits-remove, waits-remove_le, once-remove, waits-append, once-append,
}

-- What a step does: each life moves, and what waits stays in order.
pub record Refines (s s' : WebRtcServer) : Type 0 where
  pub moves : (n : ℕ) → Moves n (life s n) (life s' n)
  pub single : (n : ℕ) → once n s'.heap ≡ true
  pub empty : (n : ℕ) → waits n s'.heap ≡ true → channel n s'.channels ≡ none

-- A step that keeps sequence ids and channels, and what waits.
quiet-Refines :
    (s s' : WebRtcServer)
    → IsTidy s
    → s'.next_id ≡ s.next_id
    → s'.channels ≡ s.channels
    → ((n : ℕ) → waits n s'.heap ≡ waits n s.heap)
    → ((n : ℕ) → once n s'.heap ≡ once n s.heap)
    → Refines s s'
quiet-Refines s s' v e c w o = record {
  moves = λ n. life-same s s' n (ap (λ k. ltb k n) e) (ap (channel n) c) (w n);
  single = λ n. o n ∙ v.single n;
  empty = λ n h. ap (channel n) c ∙ v.empty n (sym (w n) ∙ h);
}

pub end-Refines : (s : WebRtcServer) (t : Session) → IsTidy s → Refines s (sync_end s t)
unfolding sync_end
end-Refines s t v = elim (Bool-cases (str_eq t.worker_id "")) [
  | inl e ↦ rw (e, sync_end) (quiet-Refines s s v refl refl (λ n. refl) (λ n. refl))
  | inr e ↦ rw (e, sync_end) (quiet-Refines s _ v refl refl (λ n. refl) (λ n. refl))
]

register-Refines :
    (s : WebRtcServer) (t : Session) (seq : ℕ) (w : WorkerRegister) (now : ℕ) (ok : Bool)
    → IsTidy s
    → Refines s (sync_register s t seq w now ok).0
unfolding sync_register
register-Refines s t seq w now ok v = elim (Bool-cases ok) [
  | inl e ↦ rw e (quiet-Refines s _ v next_same channels_same waits_same once_same)
  | inr e ↦ rw e (quiet-Refines s _ v next_same channels_same waits_same once_same)
]
  where
    next_same : (sync_end s t).next_id ≡ s.next_id
    next_same = unfold sync_end in ground arith

    channels_same : (sync_end s t).channels ≡ s.channels
    channels_same = unfold sync_end in ground arith

    heap_same : (sync_end s t).heap ≡ s.heap
    heap_same = unfold sync_end in ground arith

    waits_same : (n : ℕ) → waits n (enrol (sync_end s t) t.stream w now).heap ≡ waits n s.heap
    waits_same n = waits-append n t.stream (sync_end s t).heap ∙ ap (waits n) heap_same

    once_same : (n : ℕ) → once n (enrol (sync_end s t) t.stream w now).heap ≡ once n s.heap
    once_same n = once-append n t.stream (sync_end s t).heap ∙ ap (once n) heap_same

keepalive-Refines :
    (s : WebRtcServer) (t : Session) (seq : ℕ) (k : WorkerKeepalive) (now : ℕ) (ok : Bool)
    → IsTidy s
    → Refines s (sync_keepalive s t seq k now ok).0
unfolding sync_keepalive
keepalive-Refines s t seq k now ok v =
    quiet-Refines s _ v (ground arith) (ground arith) (λ n. ground arith) (λ n. ground arith)

pub dequeue-Refines : (s : WebRtcServer) (p j : ℕ) → IsTidy s → Refines s (dequeue s p j)
dequeue-Refines s p j v = record {
  moves = λ n. dequeue-Moves s p j n v;
  single = λ n. once-remove j n p s.heap (v.single n);
  empty = λ n h. v.empty n (waits-remove_le j n p s.heap h);
}

response-Refines :
    (s : WebRtcServer) (t : Session) (m : WorkerToServer)
    → IsTidy s
    → Refines s (sync_response s t m)
unfolding sync_response
response-Refines s t m v = record {
  moves = λ n. response-Moves s t m n v;
  single = λ n. (kept n).0;
  empty = λ n. (kept n).1;
}
  where
    given :
        (p n : ℕ)
        → has_seq m.seq_id (pending_of p s.heap) ≡ true
        → waits n (set_pending p (remove_seq m.seq_id) s.heap) ≡ true
        → channel n ((m.seq_id, m) ∷ s.channels) ≡ none
    given p n f h = elim (ℕ_discrete n m.seq_id) [
      | yes e ↦ absurd (ground (arith, waits-remove m.seq_id p s.heap (v.single m.seq_id) f, e, h))
      | no ne ↦ ground (arith, ne, v.empty n (waits-remove_le m.seq_id n p s.heap h))
    ]

    kept :
        (n : ℕ)
        → (once n (sync_response s t m).heap ≡ true)
          × (waits n (sync_response s t m).heap ≡ true
              → channel n (sync_response s t m).channels ≡ none)
    kept n = elim (Option-cases t.ws) [
      | inl e ↦ rw (e, sync_response) (v.single n, v.empty n)
      | inr (p, e) ↦
          rw (e, sync_response)
            (elim (Bool-cases (has_seq m.seq_id (pending_of p s.heap))) [
              | inl f ↦ rw f (once-remove m.seq_id n p s.heap (v.single n), given p n f)
              | inr f ↦ rw f (v.single n, v.empty n)
            ])
    ]

module _ (s : WebRtcServer) (p : ℕ) (v : IsTidy s) (room : s.next_id + 1 < uint64_mod)
    (here : p < length s.heap) where
  put-Refines : Refines s (enqueue s p)
  put-Refines = record {
    moves = enqueue-Moves s p v room here;
    single = put_once s p v room here;
    empty = put_empty s p v room here;
  }

  taken-Refines : Refines s (dequeue (enqueue s p) p (next_seq s))
  taken-Refines = record {
    moves = failed-Moves s p v room here;
    single = λ n. once-remove (next_seq s) n p (enqueue s p).heap (put_once s p v room here n);
    empty =
        λ n h. put_empty s p v room here n (waits-remove_le (next_seq s) n p (enqueue s p).heap h);
  }

pub message-Refines :
    (s : WebRtcServer) (t : Session) (seq : ℕ) (payload : WorkerPayload) (now : ℕ) (ok : Bool)
    → IsTidy s
    → Refines s (sync_message s t (record { seq_id = seq; payload = payload }) now ok).0
unfolding sync_message
message-Refines s t seq (WorkerPayload.worker_register w) now ok v =
    register-Refines s t seq w now ok v
message-Refines s t seq (WorkerPayload.worker_keepalive none) now ok v =
    quiet-Refines s s v refl refl (λ n. refl) (λ n. refl)
message-Refines s t seq (WorkerPayload.worker_keepalive (some k)) now ok v =
    keepalive-Refines s t seq k now ok v
message-Refines s t seq (WorkerPayload.stats_push _) now ok v =
    quiet-Refines s s v refl refl (λ n. refl) (λ n. refl)
message-Refines s t seq payload now ok v = response-Refines s t _ v

pub start-Refines :
    (s : WebRtcServer) (id : String) (payload : ServerPayload) (ok : Bool)
    → s.next_id + 1 < uint64_mod
    → IsTidy s
    → Refines s (start_request s id payload ok).0
unfolding start_request get_worker_stream
start-Refines s id payload ok h v = elim (Option-cases (get_worker_stream s id)) [
  | inl e ↦ rw (e, start_request) (quiet-Refines s s v refl refl (λ n. refl) (λ n. refl))
  | inr (p, e) ↦
      let here : p < length s.heap =
        AllEntries-lookup (λ _ q. q < length s.heap) id p s.workers e v.sound.pointers in
      rw (e, start_request)
        (elim (Bool-cases ok) [
          | inl o ↦ rw o (sent_on p (put-Refines s p v h here))
          | inr o ↦ rw o (taken-Refines s p v h here)
        ])
]
  where
    sent_on :
        (p : ℕ)
        → Refines s (enqueue s p)
        → Refines s (
            send_on
              (stream_of p s.heap)
              (record { seq_id = next_seq s; payload = payload })
              (enqueue s p))
    sent_on p r = record { moves = unfold life in r.moves; single = r.single; empty = r.empty }

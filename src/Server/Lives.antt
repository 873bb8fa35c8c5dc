-- ===== src/Server/Lives.antt =====
-- The life of a request as its caller sees it: an automaton that only goes forward, and the steps of
-- the server as moves of it.
use native.Mathlib.Decide.{ℕ_discrete}
use singal.Common.{
  ℕ, ◌+◌, ◌<◌, ◌≡◌, ◌≢◌, refl, Bool, true, false, Option, none, some, ◌∷◌, arith, length, ltb,
  Bool-cases, Option-cases, inl, inr, sym, ap, ◌∙◌,
}
use mathlib.Core.Path.{subst, subst₂}
use singal.Proto.{WorkerToServer}
use singal.Server.{
  WebRtcServer, Session, sync_response, channel, set_pending, pending_of, remove_seq, has_seq,
  uint64_mod, next_seq, dequeue, enqueue,
}
use singal.Server.Invariant.{IsSound}
use singal.Server.Heap.{pending_of-set_self}
use singal.Server.Requests.{channel-above}
use singal.Server.Waits.{
  waits, waits-pending, once, waits-above, waits-remove_ne, waits-remove, waits-remove_le,
  waits-put_ne, once-put_ne, waits-put, once-put,
}

-- A sequence id is not given out yet, waits for a response, has one, or will get none.
pub data Life : Type 0 where
  unissued : Life
  awaited : Life
  answered : WorkerToServer → Life
  gone : Life

abbrev pub is_final : Life → Bool
is_final unissued = false
is_final awaited = false
is_final (answered m) = true
is_final gone = true

-- The steps of a life. An id that is given out for a `Send` that fails is gone at once.
pub data Moves (n : ℕ) : Life → Life → Type 0 where
  stays : (a : Life) → Moves n a a
  issue : Moves n unissued awaited
  fail : Moves n unissued gone
  deliver : (m : WorkerToServer) → m.seq_id ≡ n → Moves n awaited (answered m)
  give_up : Moves n awaited gone

abbrev pub life_of : Bool → Option WorkerToServer → Bool → Life
life_of true response waiting = unissued
life_of false (some m) waiting = answered m
life_of false none true = awaited
life_of false none false = gone

unfoldable pub life : WebRtcServer → ℕ → Life
life s n = life_of (ltb s.next_id n) (channel n s.channels) (waits n s.heap)

-- No id waits on two streams, and none waits that has its response.
pub record IsTidy (s : WebRtcServer) : Type 0 where
  pub sound : IsSound s
  pub single : (n : ℕ) → once n s.heap ≡ true
  pub empty : (n : ℕ) → waits n s.heap ≡ true → channel n s.channels ≡ none

-- What a life is from its three parts.
record Parts (s : WebRtcServer) (n : ℕ) (a : Bool) (c : Option WorkerToServer) (w : Bool)
    : Type 0 where
  later : ltb s.next_id n ≡ a
  response : channel n s.channels ≡ c
  waiting : waits n s.heap ≡ w

life_lem :
    (s : WebRtcServer) (n : ℕ) (a : Bool) (c : Option WorkerToServer) (w : Bool)
    → Parts s n a c w
    → life s n ≡ life_of a c w
unfolding life
life_lem s n a c w p =
    ap (λ b. life_of b (channel n s.channels) (waits n s.heap)) p.later
    ∙ ap (λ o. life_of a o (waits n s.heap)) p.response
    ∙ ap (life_of a c) p.waiting

life-Moves :
    (s s' : WebRtcServer) (n : ℕ) {a a' w w' : Bool} {c c' : Option WorkerToServer}
    → Parts s n a c w
    → Parts s' n a' c' w'
    → Moves n (life_of a c w) (life_of a' c' w')
    → Moves n (life s n) (life s' n)
life-Moves s s' n p q h =
    subst₂ (Moves n) (sym (life_lem s n _ _ _ p)) (sym (life_lem s' n _ _ _ q)) h

pub life-same :
    (s s' : WebRtcServer) (n : ℕ)
    → ltb s'.next_id n ≡ ltb s.next_id n
    → channel n s'.channels ≡ channel n s.channels
    → waits n s'.heap ≡ waits n s.heap
    → Moves n (life s n) (life s' n)
life-same s s' n e f g =
    life-Moves s s' n (record { later = refl; response = refl; waiting = refl })
      (record { later = e; response = f; waiting = g }) (stays _)

-- A request that waits has been issued.
issued : (n : ℕ) (s : WebRtcServer) → IsTidy s → waits n s.heap ≡ true → ltb s.next_id n ≡ false
issued n s v w = ground (arith, waits-above s.next_id n s.heap v.sound.waits)

pub response-Moves :
    (s : WebRtcServer) (t : Session) (m : WorkerToServer) (n : ℕ)
    → IsTidy s
    → Moves n (life s n) (life (sync_response s t m) n)
unfolding sync_response
response-Moves s t m n v = elim (Option-cases t.ws) [
  | inl e ↦ rw (e, sync_response) (stays (life s n))
  | inr (p, e) ↦
      rw (e, sync_response)
        (elim (Bool-cases (has_seq m.seq_id (pending_of p s.heap))) [
          | inl f ↦ rw f (given p f (ℕ_discrete n m.seq_id))
          | inr f ↦ rw f (stays (life s n))
        ])
]
  where
    given :
        (p : ℕ)
        → has_seq m.seq_id (pending_of p s.heap) ≡ true
        → Dec (n ≡ m.seq_id)
        → Moves n (life s n) (
            life
              (record s {
                channels = (m.seq_id, m) ∷ s.channels;
                heap = set_pending p (remove_seq m.seq_id) s.heap;
              })
              n)
    given p f (yes e) =
        let w : waits n s.heap ≡ true = ground (arith, waits-pending m.seq_id p s.heap f, e) in
        let here : channel n ((m.seq_id, m) ∷ s.channels) ≡ some m = ground (arith, e) in
        let done : waits n (set_pending p (remove_seq m.seq_id) s.heap) ≡ false =
          ap (λ j. waits j (set_pending p (remove_seq m.seq_id) s.heap)) e
          ∙ waits-remove m.seq_id p s.heap (v.single m.seq_id) f in
        life-Moves s
          (record s {
            channels = (m.seq_id, m) ∷ s.channels;
            heap = set_pending p (remove_seq m.seq_id) s.heap;
          })
          n (record { later = issued n s v w; response = v.empty n w; waiting = w })
          (record { later = issued n s v w; response = here; waiting = done }) (deliver m (sym e))
    given p f (no ne) =
        life-same s
          (record s {
            channels = (m.seq_id, m) ∷ s.channels;
            heap = set_pending p (remove_seq m.seq_id) s.heap;
          })
          n refl (ground (arith, ne)) (waits-remove_ne m.seq_id n p s.heap ne)

-- A request is given up.
pub dequeue-Moves :
    (s : WebRtcServer) (p j n : ℕ) → IsTidy s → Moves n (life s n) (life (dequeue s p j) n)
dequeue-Moves s p j n v = go (waits n s.heap) (waits n (dequeue s p j).heap) refl refl
  where
    go :
        (b c : Bool)
        → waits n s.heap ≡ b
        → waits n (dequeue s p j).heap ≡ c
        → Moves n (life s n) (life (dequeue s p j) n)
    go true true e f = life-same s (dequeue s p j) n refl refl (f ∙ sym e)
    go true false e f =
        life-Moves s (dequeue s p j) n
          (record { later = issued n s v e; response = v.empty n e; waiting = e })
          (record { later = issued n s v e; response = v.empty n e; waiting = f }) give_up
    go false true e f = absurd (ground (arith, waits-remove_le j n p s.heap f, e))
    go false false e f = life-same s (dequeue s p j) n refl refl (f ∙ sym e)

-- The id that is next.
module _ (s : WebRtcServer) (p : ℕ) (v : IsTidy s) (room : s.next_id + 1 < uint64_mod)
    (here : p < length s.heap) where
  next_is : next_seq s ≡ s.next_id + 1
  next_is = omega arith

  fresh : waits (s.next_id + 1) s.heap ≡ false
  fresh = waits-above s.next_id (s.next_id + 1) s.heap v.sound.waits (omega arith)

  no_response : channel (s.next_id + 1) s.channels ≡ none
  no_response = channel-above s.next_id (s.next_id + 1) s.channels v.sound.answered (omega arith)

  put_waits : waits (s.next_id + 1) (enqueue s p).heap ≡ true
  put_waits =
      ap (λ k. waits (s.next_id + 1) (set_pending p (λ l. k ∷ remove_seq k l) s.heap)) next_is
      ∙ waits-put (s.next_id + 1) p s.heap here

  pub put_once : (n : ℕ) → once n (enqueue s p).heap ≡ true
  put_once n =
      ap (λ k. once n (set_pending p (λ l. k ∷ remove_seq k l) s.heap)) next_is
      ∙ (elim (ℕ_discrete n (s.next_id + 1)) [
        | yes e ↦
            ap
              (λ j.
                once j (set_pending p (λ l. (s.next_id + 1) ∷ remove_seq (s.next_id + 1) l) s.heap))
              e
            ∙ once-put (s.next_id + 1) p s.heap fresh
        | no ne ↦ once-put_ne (s.next_id + 1) n p s.heap ne ∙ v.single n
      ])

  pub put_other : (n : ℕ) → n ≢ s.next_id + 1 → waits n (enqueue s p).heap ≡ waits n s.heap
  put_other n ne =
      ap (λ k. waits n (set_pending p (λ l. k ∷ remove_seq k l) s.heap)) next_is
      ∙ waits-put_ne (s.next_id + 1) n p s.heap ne

  pub put_empty : (n : ℕ) → waits n (enqueue s p).heap ≡ true → channel n s.channels ≡ none
  put_empty n e = elim (ℕ_discrete n (s.next_id + 1)) [
    | yes f ↦ ap (λ k. channel k s.channels) f ∙ no_response
    | no ne ↦ v.empty n (sym (put_other n ne) ∙ e)
  ]

  next_later : ltb s.next_id (s.next_id + 1) ≡ true
  next_later = ground arith

  next_given : ltb (next_seq s) (s.next_id + 1) ≡ false
  next_given = ground (arith, next_is)

  other_later : (n : ℕ) → n ≢ s.next_id + 1 → ltb (next_seq s) n ≡ ltb s.next_id n
  other_later n ne = ground (arith, next_is, ne)

  unissued_now : Parts s (s.next_id + 1) true none false
  unissued_now = record { later = next_later; response = no_response; waiting = fresh }

  pub enqueue-Moves : (n : ℕ) → Moves n (life s n) (life (enqueue s p) n)
  enqueue-Moves n = elim (ℕ_discrete n (s.next_id + 1)) [
    | yes e ↦
        subst (λ k. Moves k (life s k) (life (enqueue s p) k)) (sym e)
          (life-Moves s (enqueue s p) (s.next_id + 1) unissued_now
            (record { later = next_given; response = no_response; waiting = put_waits }) issue)
    | no ne ↦ life-same s (enqueue s p) n (other_later n ne) refl (put_other n ne)
  ]

  taken_back : waits (s.next_id + 1) (dequeue (enqueue s p) p (next_seq s)).heap ≡ false
  taken_back =
      ap (λ k. waits (s.next_id + 1) (set_pending p (remove_seq k) (enqueue s p).heap)) next_is
      ∙ waits-remove (s.next_id + 1) p (enqueue s p).heap (put_once (s.next_id + 1)) (
          ground (
            arith,
            pending_of-set_self (λ l. next_seq s ∷ remove_seq (next_seq s) l) p s.heap here,
            next_is,
          ))

  pub failed-Moves : (n : ℕ) → Moves n (life s n) (life (dequeue (enqueue s p) p (next_seq s)) n)
  failed-Moves n = elim (ℕ_discrete n (s.next_id + 1)) [
    | yes e ↦
        subst (λ k. Moves k (life s k) (life (dequeue (enqueue s p) p (next_seq s)) k)) (sym e)
          (life-Moves s (dequeue (enqueue s p) p (next_seq s)) (s.next_id + 1) unissued_now
            (record { later = next_given; response = no_response; waiting = taken_back }) fail)
    | no ne ↦ life-same s (dequeue (enqueue s p) p (next_seq s)) n (other_later n ne) refl (
        ap (λ k. waits n (set_pending p (remove_seq k) (enqueue s p).heap)) next_is
        ∙ waits-remove_ne (s.next_id + 1) n p (enqueue s p).heap ne
        ∙ put_other n ne)
  ]

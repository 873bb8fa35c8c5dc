-- ===== src/Server/Waits.antt =====
-- Which sequence ids wait for a response on any stream.
use singal.Common.{
  ℕ, zero, suc, ◌<◌, ◌≡◌, ◌≢◌, refl, Bool, true, false, not, List, [], ◌∷◌, ◌++◌, arith, length,
  if◌then◌else◌,
}
use singal.Server.{WorkerStream, set_pending, pending_of, remove_seq, has_seq}
use singal.Server.Heap.{AllBelow, has_seq-above, has_seq-remove, has_seq-remove_ne}

abbrev pub waits : ℕ → List WorkerStream → Bool
waits n [] = false
waits n (w ∷ ws) = if has_seq n w.pending then true else waits n ws

-- The id waits on one stream at most.
abbrev pub once : ℕ → List WorkerStream → Bool
once n [] = true
once n (w ∷ ws) = if has_seq n w.pending then not (waits n ws) else once n ws

pub waits-pending :
    (n p : ℕ) (h : List WorkerStream) → has_seq n (pending_of p h) ≡ true → waits n h ≡ true
waits-pending n p [] e = cc
waits-pending n zero (w ∷ h) e = ground (arith, e)
waits-pending n (suc p) (w ∷ h) e = ground (arith, waits-pending n p h e)

pub waits-above : (m n : ℕ) (h : List WorkerStream) → AllBelow m h → m < n → waits n h ≡ false
waits-above m n [] b lt = refl
waits-above m n (w ∷ h) b lt =
    ground (arith, has_seq-above n m w.pending b.0 lt, waits-above m n h b.1 lt)

pub once-unseen : (n : ℕ) (h : List WorkerStream) → waits n h ≡ false → once n h ≡ true
once-unseen n [] e = refl
once-unseen n (w ∷ h) e = ground (arith, once-unseen n h, e)

has_seq-remove_le : (n j : ℕ) (l : List ℕ) → has_seq n (remove_seq j l) ≡ true → has_seq n l ≡ true
has_seq-remove_le n j [] e = e
has_seq-remove_le n j (x ∷ l) e = ground (arith, has_seq-remove_le n j l, e)

module _ (j : ℕ) where
  pub waits-remove_ne :
      (n p : ℕ) (h : List WorkerStream)
      → n ≢ j
      → waits n (set_pending p (remove_seq j) h) ≡ waits n h
  waits-remove_ne n p [] ne = refl
  waits-remove_ne n zero (w ∷ h) ne = ground (arith, has_seq-remove_ne n j w.pending ne)
  waits-remove_ne n (suc p) (w ∷ h) ne = ground (arith, waits-remove_ne n p h ne)

  pub once-remove_ne :
      (n p : ℕ) (h : List WorkerStream) → n ≢ j → once n (set_pending p (remove_seq j) h) ≡ once n h
  once-remove_ne n p [] ne = refl
  once-remove_ne n zero (w ∷ h) ne = ground (arith, has_seq-remove_ne n j w.pending ne)
  once-remove_ne n (suc p) (w ∷ h) ne =
      ground (arith, waits-remove_ne n p h ne, once-remove_ne n p h ne)

  -- An id that waits on one stream only does not wait once it is taken out there.
  pub waits-remove :
      (p : ℕ) (h : List WorkerStream)
      → once j h ≡ true
      → has_seq j (pending_of p h) ≡ true
      → waits j (set_pending p (remove_seq j) h) ≡ false
  waits-remove p [] o e = refl
  waits-remove zero (w ∷ h) o e = ground (arith, has_seq-remove j w.pending, o, e)
  waits-remove (suc p) (w ∷ h) o e = ground (arith, waits-remove p h, waits-pending j p h e, o)

  -- Taking out an id makes nothing wait.
  pub waits-remove_le :
      (n p : ℕ) (h : List WorkerStream)
      → waits n (set_pending p (remove_seq j) h) ≡ true
      → waits n h ≡ true
  waits-remove_le n p [] e = e
  waits-remove_le n zero (w ∷ h) e = ground (arith, has_seq-remove_le n j w.pending, e)
  waits-remove_le n (suc p) (w ∷ h) e = ground (arith, waits-remove_le n p h, e)

  pub once-remove :
      (n p : ℕ) (h : List WorkerStream)
      → once n h ≡ true
      → once n (set_pending p (remove_seq j) h) ≡ true
  once-remove n p [] o = refl
  once-remove n zero (w ∷ h) o = ground (arith, has_seq-remove_le n j w.pending, once-unseen n h, o)
  once-remove n (suc p) (w ∷ h) o = ground (arith, waits-remove_le n p h, once-remove n p h, o)

  -- A new id.
  pub waits-put_ne :
      (n p : ℕ) (h : List WorkerStream)
      → n ≢ j
      → waits n (set_pending p (λ l. j ∷ remove_seq j l) h) ≡ waits n h
  waits-put_ne n p [] ne = refl
  waits-put_ne n zero (w ∷ h) ne = ground (arith, has_seq-remove_ne n j w.pending ne, ne)
  waits-put_ne n (suc p) (w ∷ h) ne = ground (arith, waits-put_ne n p h ne)

  pub once-put_ne :
      (n p : ℕ) (h : List WorkerStream)
      → n ≢ j
      → once n (set_pending p (λ l. j ∷ remove_seq j l) h) ≡ once n h
  once-put_ne n p [] ne = refl
  once-put_ne n zero (w ∷ h) ne = ground (arith, has_seq-remove_ne n j w.pending ne, ne)
  once-put_ne n (suc p) (w ∷ h) ne = ground (arith, waits-put_ne n p h ne, once-put_ne n p h ne)

  pub waits-put :
      (p : ℕ) (h : List WorkerStream)
      → p < length h
      → waits j (set_pending p (λ l. j ∷ remove_seq j l) h) ≡ true
  waits-put p [] lt = absurd (omega arith)
  waits-put zero (w ∷ h) lt = ground arith
  waits-put (suc p) (w ∷ h) lt =
      let rest : waits j (set_pending p (λ l. j ∷ remove_seq j l) h) ≡ true =
        waits-put p h (omega arith) in
      ground (arith, rest)

  pub once-put :
      (p : ℕ) (h : List WorkerStream)
      → waits j h ≡ false
      → once j (set_pending p (λ l. j ∷ remove_seq j l) h) ≡ true
  once-put p [] e = refl
  once-put zero (w ∷ h) e = ground (arith, e)
  once-put (suc p) (w ∷ h) e = ground (arith, once-put p h, e)

pub waits-append :
    (n s : ℕ) (h : List WorkerStream)
    → waits n (h ++ record { stream = s; pending = [] } ∷ []) ≡ waits n h
waits-append n s [] = refl
waits-append n s (w ∷ h) = ground (arith, waits-append n s h)

pub once-append :
    (n s : ℕ) (h : List WorkerStream)
    → once n (h ++ record { stream = s; pending = [] } ∷ []) ≡ once n h
once-append n s [] = refl
once-append n s (w ∷ h) = ground (arith, once-append n s h, waits-append n s h)

-- ===== src/Server/Heap.antt =====
-- Reads and writes of the streams on the heap, and of lists of sequence ids.
use singal.Common.{
  ℕ, zero, suc, ◌≤◌, ◌<◌, ◌≡◌, ◌≢◌, refl, ap, false, List, [], ◌∷◌, ◌++◌, arith, All, length, ◌==◌,
  Bool-cases, inl, inr,
}
use singal.Server.{WorkerStream, set_pending, pending_of, stream_of, remove_seq, has_seq}

abbrev pub Below : ℕ → List ℕ → Type 0
Below n = All (λ m. m ≤ n)

pub Below-mono : (m n : ℕ) (l : List ℕ) → m ≤ n → Below m l → Below n l
Below-mono m n [] h b = tt
Below-mono m n (x ∷ l) h b = (omega arith, Below-mono m n l h b.1)

pub Below-remove_seq : (k n : ℕ) (l : List ℕ) → Below n l → Below n (remove_seq k l)
Below-remove_seq k n [] b = tt
Below-remove_seq k n (x ∷ l) b = elim (Bool-cases (x == k)) [
  | inl e ↦ rw (e, remove_seq) (Below-remove_seq k n l b.1)
  | inr e ↦ rw (e, remove_seq) (b.0, Below-remove_seq k n l b.1)
]

pub has_seq-above : (k n : ℕ) (l : List ℕ) → Below n l → n < k → has_seq k l ≡ false
has_seq-above k n [] b h = refl
has_seq-above k n (x ∷ l) b h = ground (arith, has_seq-above k n l b.1)

pub has_seq-remove : (k : ℕ) (l : List ℕ) → has_seq k (remove_seq k l) ≡ false
has_seq-remove k [] = refl
has_seq-remove k (x ∷ l) = ground (arith, has_seq-remove k l)

pub remove_seq-absent : (k : ℕ) (l : List ℕ) → has_seq k l ≡ false → remove_seq k l ≡ l
remove_seq-absent k [] h = refl
remove_seq-absent k (x ∷ l) h = ground (arith, remove_seq-absent k l)

module _ (f : List ℕ → List ℕ) where
  pub pending_of-set_self :
      (p : ℕ) (h : List WorkerStream)
      → p < length h
      → pending_of p (set_pending p f h) ≡ f (pending_of p h)
  pending_of-set_self p [] lt = absurd (omega arith)
  pending_of-set_self zero (w ∷ h) lt = refl
  pending_of-set_self (suc p) (w ∷ h) lt = pending_of-set_self p h (omega arith)

  pub pending_of-set_ne :
      (p q : ℕ) (h : List WorkerStream) → p ≢ q → pending_of q (set_pending p f h) ≡ pending_of q h
  pending_of-set_ne p q [] ne = refl
  pending_of-set_ne zero zero (w ∷ h) ne = absurd (ne refl)
  pending_of-set_ne zero (suc q) (w ∷ h) ne = refl
  pending_of-set_ne (suc p) zero (w ∷ h) ne = refl
  pending_of-set_ne (suc p) (suc q) (w ∷ h) ne = pending_of-set_ne p q h (λ e. ne (ap suc e))

  pub length-set_pending : (p : ℕ) (h : List WorkerStream) → length (set_pending p f h) ≡ length h
  length-set_pending p [] = refl
  length-set_pending zero (w ∷ h) = refl
  length-set_pending (suc p) (w ∷ h) = ap suc (length-set_pending p h)

abbrev pub AllBelow : ℕ → List WorkerStream → Type 0
AllBelow n = All (λ w. Below n w.pending)

pub AllBelow-mono : (m n : ℕ) (h : List WorkerStream) → m ≤ n → AllBelow m h → AllBelow n h
AllBelow-mono m n [] le b = tt
AllBelow-mono m n (w ∷ h) le b = (Below-mono m n w.pending le b.0, AllBelow-mono m n h le b.1)

pub AllBelow-set :
    (n p : ℕ) (f : List ℕ → List ℕ) (h : List WorkerStream)
    → ((l : List ℕ) → Below n l → Below n (f l))
    → AllBelow n h
    → AllBelow n (set_pending p f h)
AllBelow-set n p f [] k b = tt
AllBelow-set n zero f (w ∷ h) k b = (k w.pending b.0, b.1)
AllBelow-set n (suc p) f (w ∷ h) k b = (b.0, AllBelow-set n p f h k b.1)

pub AllBelow-append :
    (n : ℕ) (h : List WorkerStream) (w : WorkerStream)
    → AllBelow n h
    → Below n w.pending
    → AllBelow n (h ++ w ∷ [])
AllBelow-append n [] w b k = (k, tt)
AllBelow-append n (v ∷ h) w b k = (b.0, AllBelow-append n h w b.1 k)

pub AllBelow-pending : (n p : ℕ) (h : List WorkerStream) → AllBelow n h → Below n (pending_of p h)
AllBelow-pending n p [] b = tt
AllBelow-pending n zero (w ∷ h) b = b.0
AllBelow-pending n (suc p) (w ∷ h) b = AllBelow-pending n p h b.1

pub pending_of-last :
    (h : List WorkerStream) (w : WorkerStream) → pending_of (length h) (h ++ w ∷ []) ≡ w.pending
pending_of-last [] w = refl
pending_of-last (v ∷ h) w = pending_of-last h w

pub stream_of-last :
    (h : List WorkerStream) (w : WorkerStream) → stream_of (length h) (h ++ w ∷ []) ≡ w.stream
stream_of-last [] w = refl
stream_of-last (v ∷ h) w = stream_of-last h w

pub has_seq-remove_ne : (k j : ℕ) (l : List ℕ) → k ≢ j → has_seq k (remove_seq j l) ≡ has_seq k l
has_seq-remove_ne k j [] ne = refl
has_seq-remove_ne k j (x ∷ l) ne = ground (arith, has_seq-remove_ne k j l)

-- Taking out an id that was just put in.
pub remove_seq-cons :
    (k : ℕ) (l : List ℕ) → has_seq k l ≡ false → remove_seq k (k ∷ remove_seq k l) ≡ l
remove_seq-cons k l h = ground (arith, has_seq-remove k l, remove_seq-absent k l h)

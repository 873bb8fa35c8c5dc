-- ===== src/Workers/Choice.antt =====
-- Which worker `ChooseBestWorker` takes.
use mathlib.Core.Path.{subst}
use singal.Common.{
  sym, ℕ, ◌≤◌, ◌≡◌, refl, ◌↔◌, ◌⊎◌, inl, inr, Bool, true, false, ltb_ℤ, ltb, if◌then◌else◌, Option,
  none, some, List, [], ◌∷◌, arith, All, Elem, Bool-cases,
}
use singal.Workers.{
  Worker, WorkerManager, is_online, online_of, load, score, best_from, get_all_workers,
  get_online_workers, choose_best_worker, values,
}

-- The score falls as the load grows.
pub ltb-score : (a b : Worker) → ltb_ℤ (score a) (score b) ≡ ltb (load b) (load a)
unfolding score
ltb-score a b = ground arith

abbrev pub IsBest : List Worker → Option Worker → Type 0
IsBest ws none = ws ≡ []
IsBest ws (some b) = Elem b ws × All (λ w. ltb_ℤ (score b) (score w) ≡ false) ws

abbrev Light : ℕ → List Worker → Type 0
Light n ws = All (λ w. n ≤ load w) ws

Light-mono : (m n : ℕ) (ws : List Worker) → m ≤ n → Light n ws → Light m ws
Light-mono m n [] h l = tt
Light-mono m n (w ∷ ws) h l = (omega arith, Light-mono m n ws h l.1)

-- The loop ends with one of the workers that it saw, of the least load.
best_from_least :
    (b : Worker) (ws : List Worker)
    → (r : Worker) × (best_from (some b) ws ≡ some r)
      × ((b ≡ r) ⊎ Elem r ws)
      × (load r ≤ load b)
      × Light (load r) ws
unfolding best_from
best_from_least b [] = (b, refl, inl refl, omega arith, tt)
best_from_least b (w ∷ ws) = elim (Bool-cases (ltb_ℤ (score b) (score w))) [
  | inl e ↦
      let (r, p, q, l, m) = best_from_least w ws in
      (r, rw (e, best_from) p, inr q, ground (arith, ltb-score b w), (l, m))
  | inr e ↦
      let (r, p, q, l, m) = best_from_least b ws in
      (r, rw (e, best_from) p, later r q, l, (ground (arith, ltb-score b w), m))
]
  where
    later : (r : Worker) → (b ≡ r) ⊎ Elem r ws → (b ≡ r) ⊎ ((w ≡ r) ⊎ Elem r ws)
    later r (inl e) = inl e
    later r (inr e) = inr (inr e)

Light-score :
    (b : Worker) (ws : List Worker)
    → Light (load b) ws
    → All (λ w. ltb_ℤ (score b) (score w) ≡ false) ws
Light-score b [] l = tt
Light-score b (w ∷ ws) l = (ground (arith, ltb-score b w), Light-score b ws l.1)

best_from-IsBest : (ws : List Worker) → IsBest ws (best_from none ws)
unfolding best_from
best_from-IsBest [] = refl
best_from-IsBest (w ∷ ws) =
    let (r, p, q, l, m) = best_from_least w ws in rw p (q, Light-score r (w ∷ ws) (l, m))

-- `ChooseBestWorker` returns nil only when no worker is online; otherwise it returns an online
-- worker, and no online worker has a higher score.
pub choose_best_worker-IsBest :
    (wm : WorkerManager) (now : ℕ) → IsBest (get_online_workers wm now) (choose_best_worker wm now)
unfolding choose_best_worker
choose_best_worker-IsBest wm now = best_from-IsBest (get_online_workers wm now)

Elem-if :
    (b : Bool) (v w : Worker) (xs : List Worker)
    → Elem w (if b then v ∷ xs else xs)
    → ((b ≡ true) × (v ≡ w)) ⊎ Elem w xs
Elem-if true v w xs (inl e) = inl (refl, e)
Elem-if true v w xs (inr m) = inr m
Elem-if false v w xs m = inr m

Elem-if_tail :
    (b : Bool) (v w : Worker) (xs : List Worker) → Elem w xs → Elem w (if b then v ∷ xs else xs)
Elem-if_tail true v w xs m = inr m
Elem-if_tail false v w xs m = m

Elem-of_online :
    (now : ℕ) (w : Worker) (ws : List Worker)
    → Elem w (online_of now ws)
    → Elem w ws × (is_online now w ≡ true)
unfolding online_of
Elem-of_online now w [] m = absurd m
Elem-of_online now w (v ∷ ws) m = go (Elem-if _ v w _ m) (Elem-of_online now w ws)
  where
    go :
        ((is_online now v ≡ true) × (v ≡ w)) ⊎ Elem w (online_of now ws)
        → (Elem w (online_of now ws) → Elem w ws × (is_online now w ≡ true))
        → ((v ≡ w) ⊎ Elem w ws) × (is_online now w ≡ true)
    go (inl (on, e)) ih = (inl e, subst (λ u. is_online now u ≡ true) e on)
    go (inr k) ih = (inr (ih k).0, (ih k).1)

Elem-to_online :
    (now : ℕ) (w : Worker) (ws : List Worker)
    → Elem w ws
    → is_online now w ≡ true
    → Elem w (online_of now ws)
unfolding online_of
Elem-to_online now w [] m on = elim m [ ]
Elem-to_online now w (v ∷ ws) (inl e) on =
    rw (subst (λ u. is_online now u ≡ true) (sym e) on, online_of) (inl e)
Elem-to_online now w (v ∷ ws) (inr m) on = Elem-if_tail _ v w _ (Elem-to_online now w ws m on)

-- `GetOnlineWorkers` returns exactly the registered workers that are online and were heard of
-- within the timeout.
pub Elem-get_online_workers :
    (wm : WorkerManager) (now : ℕ) (w : Worker)
    → Elem w (get_online_workers wm now) ↔ (Elem w (get_all_workers wm) × (is_online now w ≡ true))
unfolding get_online_workers get_all_workers
Elem-get_online_workers wm now w = (
  Elem-of_online now w (values wm.workers),
  λ h. Elem-to_online now w (values wm.workers) h.0 h.1,
)

All-elem : (P : Worker → Type 0) (w : Worker) (ws : List Worker) → All P ws → Elem w ws → P w
All-elem P w [] h m = elim m [ ]
All-elem P w (v ∷ ws) h (inl e) = subst P e h.0
All-elem P w (v ∷ ws) h (inr m) = All-elem P w ws h.1 m

-- Two managers with the same workers, in any order, choose workers of the same load where both
-- choose one.
pub load-choose_best_worker :
    (wm vm : WorkerManager) (now : ℕ) (a b : Worker)
    → ((w : Worker) → Elem w (get_all_workers wm) ↔ Elem w (get_all_workers vm))
    → choose_best_worker wm now ≡ some a
    → choose_best_worker vm now ≡ some b
    → load a ≡ load b
load-choose_best_worker wm vm now a b same p q =
    let best_a : IsBest (get_online_workers wm now) (some a) =
      subst (IsBest _) p (choose_best_worker-IsBest wm now) in
    let best_b : IsBest (get_online_workers vm now) (some b) =
      subst (IsBest _) q (choose_best_worker-IsBest vm now) in
    let on_a = (Elem-get_online_workers wm now a).0 best_a.0 in
    let on_b = (Elem-get_online_workers vm now b).0 best_b.0 in
    let a_in = (Elem-get_online_workers vm now a).1 ((same a).0 on_a.0, on_a.1) in
    let b_in = (Elem-get_online_workers wm now b).1 ((same b).1 on_b.0, on_b.1) in
    let b_not = All-elem _ b _ best_a.1 b_in in
    let a_not = All-elem _ a _ best_b.1 a_in in
    ground (arith, b_not, a_not, ltb-score a b, ltb-score b a)

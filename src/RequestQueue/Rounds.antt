-- ===== src/RequestQueue/Rounds.antt =====
-- Rounds of the retry loop.
use mathlib.Core.List.{append_assoc, append-nil}
use singal.Common.{
  sym, ℕ, zero, suc, ◌≡◌, ◌≢◌, ◌∙◌, ap, List, [], ◌∷◌, ◌++◌, arith, str_eq-false, length, All,
  negsuc,
}
use singal.Rtc.Media.{Outcome, ok, err, panic}
use singal.RequestQueue.{Request, Post, send_post, push_request, pop_request, deal_timeout_req}

-- A request as `PushRequest` makes it.
abbrev pub IsPushed : {D : Type 0} → Request D → Type 0
IsPushed r = (r.url ≢ "") × (r.try_times ≡ 0)

-- Rounds that all go the same way.
unfoldable pub rounds : {D : Type 0} → ℕ → Post → List (Request D) → Outcome (List (Request D))
rounds zero post queue = ok queue
rounds (suc n) post queue = elim (deal_timeout_req queue post) [
  | ok queue' ↦ rounds n post queue'
  | err e ↦ err e
  | panic ↦ panic
]

module _ {D : Type 0} where
  round_fails :
      (r : Request D) (rs : List (Request D)) (post : Post)
      → IsPushed r
      → (n : ℕ) → send_post post ≡ ok (negsuc n)
      → deal_timeout_req (r ∷ rs) post ≡ ok (rs ++ r ∷ [])
  unfolding deal_timeout_req pop_request push_request
  round_fails r rs post h n e = ground (arith, e, str_eq-false r.url "" h.0, h.1)

  rounds_step :
      (n : ℕ) (post : Post) (queue queue' : List (Request D))
      → deal_timeout_req queue post ≡ ok queue'
      → rounds (suc n) post queue ≡ rounds n post queue'
  unfolding rounds
  rounds_step n post queue queue' e = ground (arith, e)

  rotate :
      (post : Post) (n : ℕ) (xs ys : List (Request D))
      → send_post post ≡ ok (negsuc n)
      → All IsPushed xs
      → rounds (length xs) post (xs ++ ys) ≡ ok (ys ++ xs)
  unfolding rounds
  rotate post n [] ys e h = ap ok (sym (append-nil ys))
  rotate post n (x ∷ xs) ys e h =
      rounds_step (length xs) post (x ∷ xs ++ ys) ((xs ++ ys) ++ x ∷ [])
        (round_fails x (xs ++ ys) post h.0 n e)
      ∙ ap (rounds (length xs) post) (append_assoc xs ys (x ∷ []))
      ∙ rotate post n xs (ys ++ x ∷ []) e h.1
      ∙ ap ok (append_assoc ys (x ∷ []) xs)

  -- While every post fails, the queue goes round: after as many rounds as it has requests it holds
  -- the same requests in the same order.
  pub rounds_fail :
      (post : Post) (n : ℕ) (queue : List (Request D))
      → send_post post ≡ ok (negsuc n)
      → All IsPushed queue
      → rounds (length queue) post queue ≡ ok queue
  rounds_fail post n queue e h =
      ap (rounds (length queue) post) (sym (append-nil queue)) ∙ rotate post n queue [] e h

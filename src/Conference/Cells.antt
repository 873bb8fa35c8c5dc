-- ===== src/Conference/Cells.antt =====
-- `RemoveFeedbackRemb` of src/server/room.go by its index: a slice as the cells of its array and a
-- length.
use singal.Common.{
  ℕ, zero, suc, ◌<◌, ◌≡◌, refl, true, false, Option, none, some, List, [], ◌∷◌, ◌++◌, arith, length,
  get_elem?, str_eq, Bool-cases, inl, inr, ap, sym, ◌∙◌, length-append,
}
use mathlib.Core.List.{append_assoc, append-nil}
use singal.Conference.Consumers.{last_of, remb_loop, remove_feedback_remb}
use singal.Media.{RtcpFeedback}

-- The cells from the first on, of which `n` move down by one.
abbrev pub move_down : ℕ → RtcpFeedback → List RtcpFeedback → List RtcpFeedback
move_down zero x xs = x ∷ xs
move_down (suc n) x [] = x ∷ []
move_down (suc n) x (y ∷ ys) = y ∷ move_down n y ys

-- `append(x[:i], x[i+1:]...)` on a slice of `i + 1 + n` cells.
abbrev pub cut_cell : ℕ → ℕ → List RtcpFeedback → List RtcpFeedback
cut_cell i n [] = []
cut_cell zero n (x ∷ xs) = move_down n x xs
cut_cell (suc i) n (x ∷ xs) = x ∷ cut_cell i n xs

-- The loop at the index `i`, with `n` cells of the slice from there on, on fuel; `none` where the
-- fuel runs out or an index is out of range.
unfoldable pub index_loop : ℕ → ℕ → ℕ → List RtcpFeedback → Option (List RtcpFeedback)
index_loop zero i n cells = none
index_loop (suc fuel) i zero cells = some cells
index_loop (suc fuel) i (suc n) cells = elim (get_elem? cells i) [
  | none ↦ none
  | some f ↦ elim (str_eq f.type "goog-remb") [
    | true ↦ index_loop fuel i n (cut_cell i n cells)
    | false ↦ index_loop fuel (suc i) n cells
  ]
]

move_down_lem :
    (x : RtcpFeedback) (fs past : List RtcpFeedback)
    → move_down (length fs) x (fs ++ past) ≡ fs ++ (last_of x fs ∷ past)
move_down_lem x [] past = refl
move_down_lem x (f ∷ fs) past = ap (λ l. f ∷ l) (move_down_lem f fs past)

cut_cell_lem :
    (pre : List RtcpFeedback) (x : RtcpFeedback) (fs past : List RtcpFeedback)
    → cut_cell (length pre) (length fs) (pre ++ (x ∷ (fs ++ past)))
      ≡ pre ++ (fs ++ (last_of x fs ∷ past))
cut_cell_lem [] x fs past = move_down_lem x fs past
cut_cell_lem (y ∷ pre) x fs past = ap (λ l. y ∷ l) (cut_cell_lem pre x fs past)

here :
    (pre : List RtcpFeedback) (x : RtcpFeedback) (l : List RtcpFeedback)
    → get_elem? (pre ++ (x ∷ l)) (length pre) ≡ some x
here [] x l = refl
here (y ∷ pre) x l = here pre x l

loop_cut :
    (fuel i n : ℕ) (f : RtcpFeedback) (cells : List RtcpFeedback)
    → get_elem? cells i ≡ some f
    → str_eq f.type "goog-remb" ≡ true
    → index_loop (suc fuel) i (suc n) cells ≡ index_loop fuel i n (cut_cell i n cells)
unfolding index_loop
loop_cut fuel i n f cells g e = ground (arith, g, e)

loop_keep :
    (fuel i n : ℕ) (f : RtcpFeedback) (cells : List RtcpFeedback)
    → get_elem? cells i ≡ some f
    → str_eq f.type "goog-remb" ≡ false
    → index_loop (suc fuel) i (suc n) cells ≡ index_loop fuel (suc i) n cells
unfolding index_loop
loop_keep fuel i n f cells g e = ground (arith, g, e)

remb_cut :
    (f : RtcpFeedback) (fs past : List RtcpFeedback)
    → str_eq f.type "goog-remb" ≡ true
    → remb_loop (f ∷ fs) past ≡ remb_loop fs (last_of f fs ∷ past)
unfolding remb_loop
remb_cut f fs past e = ground (arith, e)

remb_keep :
    (f : RtcpFeedback) (fs past : List RtcpFeedback)
    → str_eq f.type "goog-remb" ≡ false
    → remb_loop (f ∷ fs) past ≡ f ∷ remb_loop fs past
unfolding remb_loop
remb_keep f fs past e = ground (arith, e)

one_more : (pre : List RtcpFeedback) (f : RtcpFeedback) → suc (length pre) ≡ length (pre ++ f ∷ [])
one_more pre f = omega (arith, length-append pre (f ∷ []))

index_loop_at :
    (fuel : ℕ) (pre fs past : List RtcpFeedback)
    → length fs < fuel
    → index_loop fuel (length pre) (length fs) (pre ++ (fs ++ past))
      ≡ some (pre ++ remb_loop fs past)
unfolding index_loop remb_loop
index_loop_at zero pre fs past h = absurd (omega arith)
index_loop_at (suc fuel) pre [] past h = refl
index_loop_at (suc fuel) pre (f ∷ fs) past h = elim (Bool-cases (str_eq f.type "goog-remb")) [
  | inl e ↦
      loop_cut fuel (length pre) (length fs) f (pre ++ (f ∷ (fs ++ past))) (here pre f (fs ++ past))
        e
      ∙ ap (index_loop fuel (length pre) (length fs)) (cut_cell_lem pre f fs past)
      ∙ index_loop_at fuel pre fs (last_of f fs ∷ past) (omega arith)
      ∙ ap (λ l. some (pre ++ l)) (sym (remb_cut f fs past e))
  | inr e ↦
      loop_keep fuel (length pre) (length fs) f (pre ++ (f ∷ (fs ++ past)))
        (here pre f (fs ++ past)) e
      ∙ ap (index_loop fuel (suc (length pre)) (length fs))
          (sym (append_assoc pre (f ∷ []) (fs ++ past)))
      ∙ ap (λ k. index_loop fuel k (length fs) ((pre ++ f ∷ []) ++ (fs ++ past))) (one_more pre f)
      ∙ index_loop_at fuel (pre ++ f ∷ []) fs past (omega arith)
      ∙ ap some (append_assoc pre (f ∷ []) (remb_loop fs past))
      ∙ ap (λ l. some (pre ++ l)) (sym (remb_keep f fs past e))
]

-- The loop of `RemoveFeedbackRemb`, which takes its index back after a removal, stops within one
-- round more than the slice is long, with the array that `remove_feedback_remb` says.
pub index_loop_lem :
    (cells : List RtcpFeedback) (fuel : ℕ)
    → length cells < fuel
    → index_loop fuel 0 (length cells) cells ≡ some (remove_feedback_remb cells)
unfolding remove_feedback_remb
index_loop_lem cells fuel h =
    ap (λ l. index_loop fuel 0 (length cells) l) (sym (append-nil cells))
    ∙ index_loop_at fuel [] cells [] h

-- ===== src/Conference/Feedback.antt =====
-- `RemoveFeedbackRemb` of src/server/room.go.
use singal.Common.{
  ◌≡◌, refl, List, [], ◌∷◌, ◌++◌, str_eq, if◌then◌else◌, Bool-cases, inl, inr, ◌∙◌, ap, sym,
}
use mathlib.Core.List.{append_assoc, append-nil}
use singal.Conference.Consumers.{remb_loop, remove_feedback_remb, last_of}
use singal.Media.{RtcpFeedback}

-- The entries that are not of type `goog-remb`, and as many copies of one entry as there are others.
unfoldable pub kept : List RtcpFeedback → List RtcpFeedback
kept [] = []
kept (f ∷ fs) = if str_eq f.type "goog-remb" then kept fs else f ∷ kept fs

unfoldable pub copies : RtcpFeedback → List RtcpFeedback → List RtcpFeedback
copies z [] = []
copies z (f ∷ fs) = if str_eq f.type "goog-remb" then z ∷ copies z fs else copies z fs

copies_swap :
    (z : RtcpFeedback) (fs past : List RtcpFeedback)
    → copies z fs ++ z ∷ past ≡ z ∷ copies z fs ++ past
unfolding copies
copies_swap z [] past = refl
copies_swap z (f ∷ fs) past = elim (Bool-cases (str_eq f.type "goog-remb")) [
  | inl e ↦ rw (e, copies) (ap (λ t. z ∷ t) (copies_swap z fs past))
  | inr e ↦ rw (e, copies) (copies_swap z fs past)
]

copies_append :
    (z : RtcpFeedback) (fs past : List RtcpFeedback)
    → kept fs ++ copies z fs ++ z ∷ past ≡ kept fs ++ (z ∷ copies z fs) ++ past
copies_append z fs past =
    append_assoc (kept fs) (copies z fs) (z ∷ past)
    ∙ ap (λ t. kept fs ++ t) (copies_swap z fs past)
    ∙ sym (append_assoc (kept fs) (z ∷ copies z fs) past)

remb_loop_lem :
    (x z : RtcpFeedback) (fs past : List RtcpFeedback)
    → last_of x fs ≡ z
    → remb_loop fs past ≡ kept fs ++ copies z fs ++ past
unfolding kept copies remb_loop
remb_loop_lem x z [] past h = refl
remb_loop_lem x z (f ∷ fs) past h = elim (Bool-cases (str_eq f.type "goog-remb")) [
  | inl e ↦
      rw (e, remb_loop, kept, copies, h)
        (remb_loop_lem f z fs (z ∷ past) h ∙ copies_append z fs past)
  | inr e ↦ rw (e, remb_loop, kept, copies) (ap (λ t. f ∷ t) (remb_loop_lem f z fs past h))
]

-- The array that the caller of `RemoveFeedbackRemb` still sees has the kept entries first, in their
-- order, and then one copy of the array's last entry for each entry that was removed.
pub remove_feedback_remb_lem :
    (f : RtcpFeedback) (fs : List RtcpFeedback)
    → remove_feedback_remb (f ∷ fs) ≡ kept (f ∷ fs) ++ copies (last_of f fs) (f ∷ fs)
unfolding remove_feedback_remb
remove_feedback_remb_lem f fs =
    remb_loop_lem f (last_of f fs) (f ∷ fs) [] refl
    ∙ append-nil (kept (f ∷ fs) ++ copies (last_of f fs) (f ∷ fs))

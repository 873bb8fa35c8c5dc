-- ===== src/Conference/Sockets.antt =====
-- The loops of `ReadMessage` and `WriteMessage` (src/server/user.go) over a whole connection.
use singal.Common.{
  ℤ, ℕ, ◌≡◌, refl, Bool, true, false, String, Option, none, some, List, [], ◌∷◌, ◌++◌, arith, ap,
  sym, ◌∙◌, Option-cases, Bool-cases, inl, inr,
}
use mathlib.Core.List.{append_assoc}
use singal.Conference.{Env, World, WsMessage}
use singal.Conference.Ends.{Ends-bind}
use singal.Conference.Frame.{answers}
use singal.Conference.Handlers.{Received, read_message, read_messages, write_messages}
use singal.Router.{Router}
use singal.Rtc.Media.{Outcome, ok}
use singal.Conference.Responses.{due, answers-read_message}

-- The responses that what a socket gave asks for, newest first.
unfoldable pub all_due : ℕ → List (Option Received) → List (ℕ × ℤ)
all_due p [] = []
all_due p (none ∷ frames) = all_due p frames
all_due p (some m ∷ frames) = all_due p frames ++ due p m

-- Where the loop of `ReadMessage` gets to the end of what the socket gives, the responses it has
-- made are one for each message that decodes and is of one of the six kinds that ask for a response,
-- with the id of the message and to the sender, in the order in which the messages came.
pub answers-read_messages :
    (env : Env) (made : Outcome Router) (p : ℕ) (frames : List (Option Received)) (w w' : World)
    → read_messages env made p frames w ≡ ok (tt, w')
    → answers w'.sent ≡ all_due p frames ++ answers w.sent
unfolding read_messages all_due
answers-read_messages env made p [] w w' e =
    let t : w' ≡ w = ground (arith, e) in ap (λ (v : World). answers v.sent) t
answers-read_messages env made p (none ∷ frames) w w' e =
    answers-read_messages env made p frames w w' e
answers-read_messages env made p (some m ∷ frames) w w' e =
    Ends-bind (read_message env made p m) (λ _. read_messages env made p frames) w
      (λ _ v. answers v.sent ≡ (all_due p frames ++ due p m) ++ answers w.sent)
      (λ a v h b x k.
        answers-read_messages env made p frames v x k
        ∙ ap (λ l. all_due p frames ++ l) (answers-read_message env made p m w v h)
        ∙ sym (append_assoc (all_due p frames) (due p m) (answers w.sent)))
      tt w' e

-- The texts of the messages that are encoded.
unfoldable pub texts : (WsMessage → Option String) → List WsMessage → List String
texts encode [] = []
texts encode (m ∷ ms) =
    let rest = texts encode ms in elim (encode m) [ none ↦ rest | some text ↦ text ∷ rest ]

abbrev pub is_empty : List WsMessage → Bool
is_empty [] = true
is_empty (m ∷ ms) = false

-- The client gets the texts of the messages at the front of the channel, in their order; the loop of
-- `WriteMessage` is running exactly if none is left over.
write_messages_lem :
    (encode : WsMessage → Option String) (writes : String → Bool) (ms : List WsMessage)
    → (front rest : List WsMessage) × (ms ≡ front ++ rest)
      × (write_messages encode writes ms ≡ (texts encode front, is_empty rest))
unfolding write_messages texts
write_messages_lem encode writes [] = ([], [], refl, refl)
write_messages_lem encode writes (m ∷ ms) =
    let (front, rest, e, f) = write_messages_lem encode writes ms in
    elim (Option-cases (encode m)) [
      | inl g ↦ (m ∷ front, rest, ap (λ l. m ∷ l) e, ground (arith, f, g))
      | inr (text, g) ↦ elim (Bool-cases (writes text)) [
        | inl h ↦ (m ∷ front, rest, ap (λ l. m ∷ l) e, ground (arith, f, g, h))
        | inr h ↦ ([], m ∷ ms, refl, ground (arith, g, h))
      ]
    ]

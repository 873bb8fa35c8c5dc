-- ===== src/Net/Draws.antt =====
-- Texts that are drawn at random.
use Prim.Native.Char.{Char}
use Prim.Native.String.{count}
use Prim.Native.String.count
use singal.Common.{
  ℕ, ◌+◌, ◌≡◌, refl, ◌<◌, ◌≤◌, String, Option, none, some, arith, ◌⊎◌, inl, inr, suc, zero,
}
use singal.Net.{letter, letters, draw_text, rand_string}
use singal.Rtc.Media.{Outcome, ok, err, panic}

-- Each character of the text is one of the alphabet.
abbrev pub IsOver : String → String → Type 0
IsOver alphabet String.[] = Unit
IsOver alphabet (String.◌∷◌ c s) = ((i : ℕ) × (letter alphabet i ≡ some c)) × IsOver alphabet s

letter-some : (s : String) (n : ℕ) → n < count s → (c : Char) × (letter s n ≡ some c)
unfolding letter
letter-some String.[] n h = absurd (omega arith)
letter-some (String.◌∷◌ c s) zero h = (c, refl)
letter-some (String.◌∷◌ c s) (suc n) h = letter-some s n (omega (arith, count.cons c s))

-- Either every draw succeeds, and the text has the length that is asked for, over the alphabet; or the
-- first draw that fails is the result.
unfoldable pub Drawn : String → (ℕ → Option ℕ) → ℕ → ℕ → Outcome String → Type 0
Drawn alphabet draw n i o =
    ((s : String) × (o ≡ ok s) × (count s ≡ n) × IsOver alphabet s)
    ⊎ ((j : ℕ) × (i ≤ j) × (j < i + n) × (draw j ≡ none) × (o ≡ err "rand"))

extended :
    (alphabet : String) (draw : ℕ → Option ℕ) (n i : ℕ) (c : Char)
    → ((k : ℕ) × (letter alphabet k ≡ some c))
    → (o : Outcome String) → Drawn alphabet draw n (i + 1) o
    → Drawn alphabet draw
        (suc n)
        i
        (elim o [ ok s ↦ ok (String.◌∷◌ c s) | err e ↦ err e | panic ↦ panic ])
unfolding Drawn
extended alphabet draw n i c k o (inl (s, e, l, h)) =
    inl (String.◌∷◌ c s, rw e refl, omega (arith, l, count.cons c s), (k, h))
extended alphabet draw n i c k o (inr (j, p, q, f, e)) =
    inr (j, omega arith, omega arith, f, rw e refl)

-- `ranged` is what the generator promises: a number below the length of the alphabet.
pub draw_text_lem :
    (alphabet : String) (draw : ℕ → Option ℕ) (n i : ℕ)
    → ((j d : ℕ) → draw j ≡ some d → d < count alphabet)
    → Drawn alphabet draw n i (draw_text alphabet draw n i)
unfolding draw_text Drawn
draw_text_lem alphabet draw zero i ranged = inl ("", refl, refl, tt)
draw_text_lem alphabet draw (suc n) i ranged =
    go (draw i) refl (draw_text_lem alphabet draw n (i + 1) ranged)
  where
    go :
        (o : Option ℕ)
        → draw i ≡ o
        → Drawn alphabet draw n (i + 1) (draw_text alphabet draw n (i + 1))
        → Drawn alphabet draw (suc n) i (elim o as (λ _. Outcome String) [
          | none ↦ err "rand"
          | some d ↦ elim (letter alphabet d) [
            | none ↦ panic
            | some c ↦ elim (draw_text alphabet draw n (i + 1)) [
              | ok s ↦ ok (String.◌∷◌ c s)
              | err e ↦ err e
              | panic ↦ panic
            ]
          ]
        ])
    go none e h = inr (i, omega arith, omega arith, e, refl)
    go (some d) e h =
        let (c, f) = letter-some alphabet d (ranged i d e) in
        rw f (extended alphabet draw n i c (d, f) (draw_text alphabet draw n (i + 1)) h)

-- Where every number that is drawn is below 62, `RandString` of `n` returns a text of `n` characters,
-- each of them one of its letters.
rand_string_lem :
    (draw : ℕ → ℕ) (n : ℕ)
    → ((j : ℕ) → draw j < 62)
    → (s : String) × (rand_string draw n ≡ ok s) × (count s ≡ n) × IsOver letters s
unfolding rand_string Drawn
rand_string_lem draw n ranged =
    elim (draw_text_lem letters (λ i. some (draw i)) n 0 λ j d e. ground (arith, ranged j, e)) [
      | inl h ↦ h
      | inr (j, p, q, e, f) ↦ absurd (cc)
    ]

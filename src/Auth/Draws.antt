-- ===== src/Auth/Draws.antt =====
-- The codes that the email service draws.
use Prim.Native.String.{count}
use singal.Auth.Codes.{verify-register}
use singal.Auth.{
  Services, Store, RegisterRequest, register, verify_email, reply, code_success, code_lifetime,
  generate_code, code_of, digits, send_verification_code,
}
use singal.Common.{ℕ, ◌+◌, ◌<◌, ◌≡◌, ◌≢◌, Bool, String, Option, none, some, arith, inl, inr, sym}
use singal.Net.Draws.{Drawn, IsOver, draw_text_lem}
use singal.Rtc.Media.{Outcome, ok}
use mathlib.Core.Path.{subst}

generate_code_lem :
    (draw : ℕ → Option ℕ)
    → ((j d : ℕ) → draw j ≡ some d → d < 10)
    → Drawn digits draw 6 0 (generate_code draw)
unfolding generate_code
generate_code_lem draw ranged = draw_text_lem digits draw 6 0 ranged

module _ (sv : Services) where
  without_code :
      (st : Store) (req : RegisterRequest) (mailed : Bool) (sent : ℕ)
      → (register sv st (some req) none mailed sent).1
        ≢ reply 200 code_success "Verification code sent to email" none
  unfolding register send_verification_code
  without_code st req mailed sent e = ground (arith, e)

  abbrev Registers : Store → RegisterRequest → Bool → ℕ → Outcome String → Type 0
  Registers st req mailed sent o =
      (register sv st (some req) (code_of o) mailed sent).1
      ≡ reply 200 code_success "Verification code sent to email" none

  abbrev Verifies : Store → RegisterRequest → Bool → ℕ → ℕ → String → Outcome String → Type 0
  Verifies st req mailed sent now code o =
      (verify_email sv (register sv st (some req) (code_of o) mailed sent).0
        (some (record { email = req.email; code = code })) now).1
      ≡ reply 200 code_success "Email verified successfully" none

  -- Where the numbers that are drawn are below ten: after a `Register` that succeeded, the code that was
  -- drawn has six characters, each of them a digit, and `VerifyEmail` accepts it before its lifetime
  -- is over.
  pub verify-register-generate_code :
      (st : Store) (req : RegisterRequest) (draw : ℕ → Option ℕ) (mailed : Bool) (sent now : ℕ)
      → ((j d : ℕ) → draw j ≡ some d → d < 10)
      → (register sv st (some req) (code_of (generate_code draw)) mailed sent).1
        ≡ reply 200 code_success "Verification code sent to email" none
      → now < sent + code_lifetime
      → (code : String) × (generate_code draw ≡ ok code)
        × (count code ≡ 6)
        × IsOver digits code
        × ((verify_email sv
              (register sv st (some req) (code_of (generate_code draw)) mailed sent).0
              (some (record { email = req.email; code = code }))
              now).1
            ≡ reply 200 code_success "Email verified successfully" none)
  unfolding Drawn
  verify-register-generate_code st req draw mailed sent now ranged e lt =
      elim (generate_code_lem draw ranged) [
        | inl (code, f, l, h) ↦ (
          code,
          f,
          l,
          h,
          subst (Verifies st req mailed sent now code) (sym f) (
              verify-register sv st req code mailed sent now
                (subst (Registers st req mailed sent) f e) lt),
        )
        | inr (j, p, q, f, g) ↦
            absurd (without_code st req mailed sent (subst (Registers st req mailed sent) g e))
      ]

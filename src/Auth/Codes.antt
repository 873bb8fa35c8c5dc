-- ===== src/Auth/Codes.antt =====
-- The life of a verification code.
use singal.Common.{none, ℕ, ◌+◌, ◌<◌, ◌≡◌, Bool, true, false, String, some, arith, eq_refl}
use singal.Dict.{insert, lookup-insert_self, lookup-delete_self}
use singal.Auth.{
  VerifyEmailRequest, RegisterRequest, CompleteRequest, register, verify_email,
  complete_registration, reply, normalize_email, code_success, code_invalid_param,
}
use singal.Auth.{
  Store, Services, send_verification_code, verify_code, get_verification_code_key, code_lifetime,
}

module _ (sv : Services) where
  -- Where redis is there and answers, a code that was stored for an email verifies it before its
  -- lifetime is over, and does not verify it a second time.
  verify_code-send :
      (st : Store) (email code : String) (sent now later : ℕ) (mailed : Bool)
      → sv.has_redis ≡ true
      → sv.redis_up ≡ true
      → now < sent + code_lifetime
      → let st₁ = (send_verification_code sv st email (some code) mailed sent).0 in
        let st₂ = (verify_code sv st₁ email code now).0 in
        ((verify_code sv st₁ email code now).1 ≡ true)
        × ((verify_code sv st₂ email code later).1 ≡ false)
  unfolding verify_code send_verification_code
  verify_code-send st email code sent now later mailed r u h = ground (
    arith,
    r,
    u,
    lookup-insert_self (get_verification_code_key sv email) (code, sent + code_lifetime) st.codes,
    lookup-delete_self (get_verification_code_key sv email)
        (insert (get_verification_code_key sv email) (code, sent + code_lifetime) st.codes),
    eq_refl code,
  )

  verify_code_spent :
      (st : Store) (email code other : String) (now later : ℕ)
      → (verify_code sv st email code now).1 ≡ true
      → verify_code sv (verify_code sv st email code now).0 email other later
        ≡ ((verify_code sv st email code now).0, false)
  unfolding verify_code
  verify_code_spent st email code other now later h =
      ground (arith, lookup-delete_self (get_verification_code_key sv email) st.codes)

  -- Once `VerifyEmail` has accepted a code for an email, `CompleteRegistration` for that email
  -- refuses every code and changes nothing.
  pub complete-after_verify :
      (st : Store) (v : VerifyEmailRequest) (req : CompleteRequest) (now later : ℕ)
      → (verify_email sv st (some v) now).1
        ≡ reply 200 code_success "Email verified successfully" none
      → req.email ≡ v.email
      → let st' = (verify_email sv st (some v) now).0 in
        complete_registration sv st' (some req) later
        ≡ (st', reply 400 code_invalid_param "Invalid or expired verification code" none)
  unfolding verify_email complete_registration
  complete-after_verify st v req now later h e =
      ground (arith, e, verify_code_spent st (normalize_email sv v.email) v.code req.code now later)

  sent_code :
      (st : Store) (email code : String) (mailed : Bool) (sent now : ℕ)
      → (send_verification_code sv st email (some code) mailed sent).1 ≡ true
      → now < sent + code_lifetime
      → (verify_code sv
          (send_verification_code sv st email (some code) mailed sent).0
          email
          code
          now).1
        ≡ true
  unfolding send_verification_code verify_code
  sent_code st email code mailed sent now h lt = ground (
    arith,
    eq_refl code,
    lookup-insert_self (get_verification_code_key sv email) (code, sent + code_lifetime) st.codes,
  )

  -- After a `Register` that succeeded, `VerifyEmail` accepts the code that was sent, before its
  -- lifetime is over.
  pub verify-register :
      (st : Store) (req : RegisterRequest) (code : String) (mailed : Bool) (sent now : ℕ)
      → (register sv st (some req) (some code) mailed sent).1
        ≡ reply 200 code_success "Verification code sent to email" none
      → now < sent + code_lifetime
      → (verify_email sv
          (register sv st (some req) (some code) mailed sent).0
          (some (record { email = req.email; code = code }))
          now).1
        ≡ reply 200 code_success "Email verified successfully" none
  unfolding register verify_email
  verify-register st req code mailed sent now h lt =
      ground (arith, sent_code st (normalize_email sv req.email) code mailed sent now)

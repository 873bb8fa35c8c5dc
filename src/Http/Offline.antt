-- ===== src/Http/Offline.antt =====
-- The account routes where neither the database nor the email service has been initialised.
use singal.Auth.{
  Services, Store, RegisterRequest, VerifyEmailRequest, CompleteRequest, LoginRequest, register,
  verify_email, complete_registration, login, code_success,
}
use singal.Common.{
  ◌≡◌, ◌≢◌, refl, Bool, true, false, String, Option, none, some, arith, ℕ, if◌then◌else◌, str_eq,
  eq_iff,
}
use singal.Dict.{lookup, insert}
use singal.Http.{
  new_http_handler, Handler, echo_test, register_user, verify_user, complete_user, login_user,
  HttpRequest, Bodies, Meets, Response, answered, echoed, no_route, recovered, handle, serve,
  recover,
}

-- An answer of an account route that is no success, without an account.
abbrev pub Refuses : Response → Type 0
Refuses (answered status code message account) = (code ≢ code_success) × (account ≡ none)
Refuses (echoed status code message trace_id) = ⊥
Refuses no_route = Unit
Refuses recovered = Unit

only_echo :
    (path : String) (h : Handler)
    → lookup path new_http_handler ≡ some h
    → h ≡ echo_test
    → path ≡ "/echo"
unfolding new_http_handler lookup insert
only_echo path h f k = ground (
  arith,
  f,
  k,
  eq_iff "/echo" path,
  eq_iff "/register" path,
  eq_iff "/verify" path,
  eq_iff "/completeRegistration" path,
  eq_iff "/login" path,
)

module _ (sv : Services) (no_db : sv.has_db ≡ false) (no_email : sv.has_email ≡ false)
    (st : Store) where
  refused_register :
      (req : Option RegisterRequest) (code : Option String) (mailed : Bool) (now : ℕ)
      → ((register sv st req code mailed now).0 ≡ st)
        × Refuses (recover (register sv st req code mailed now).1)
  unfolding register
  refused_register none code mailed now = (refl, ground arith)
  refused_register (some r) code mailed now = ground (arith, no_db)

  refused_verify :
      (req : Option VerifyEmailRequest) (now : ℕ)
      → ((verify_email sv st req now).0 ≡ st) × Refuses (recover (verify_email sv st req now).1)
  unfolding verify_email
  refused_verify none now = (refl, ground arith)
  refused_verify (some r) now = ground (arith, no_email)

  refused_complete :
      (req : Option CompleteRequest) (now : ℕ)
      → ((complete_registration sv st req now).0 ≡ st)
        × Refuses (recover (complete_registration sv st req now).1)
  unfolding complete_registration
  refused_complete none now = (refl, ground arith)
  refused_complete (some r) now = ground (arith, no_email)

  refused_login : (req : Option LoginRequest) → Refuses (recover (login sv st req))
  unfolding login
  refused_login none = ground arith
  refused_login (some r) = ground (arith, no_db)

  refused_handler :
      (bodies : Bodies) (h : Handler) (body : String) (m : Meets)
      → h ≢ echo_test
      → ((handle sv bodies h st body m).0 ≡ st) × Refuses (handle sv bodies h st body m).1
  unfolding handle
  refused_handler bodies echo_test body m e = absurd (e refl)
  refused_handler bodies register_user body m e =
      refused_register (bodies.register_of body) m.code m.mailed m.now
  refused_handler bodies verify_user body m e = refused_verify (bodies.verify_of body) m.now
  refused_handler bodies complete_user body m e = refused_complete (bodies.complete_of body) m.now
  refused_handler bodies login_user body m e = (refl, refused_login (bodies.login_of body))

  -- Whatever is asked of a route but "/echo", the accounts and codes stay as they are, and the answer
  -- has neither the code of success nor an account.
  pub serve-Refuses :
      (bodies : Bodies) (r : HttpRequest) (m : Meets)
      → r.path ≢ "/echo"
      → ((serve sv bodies st r m).0 ≡ st) × Refuses (serve sv bodies st r m).1
  unfolding serve
  serve-Refuses bodies r m e = go (str_eq r.method "POST") (lookup r.path new_http_handler) refl
    where
      go :
          (b : Bool) (o : Option Handler)
          → lookup r.path new_http_handler ≡ o
          → ((if b
                then elim o as (λ _. Store × Response) [
                  | none ↦ (st, no_route)
                  | some h ↦ handle sv bodies h st r.body m
                ]
                else (st, no_route)).0
              ≡ st)
            × Refuses
                (if b
                  then elim o as (λ _. Store × Response) [
                    | none ↦ (st, no_route)
                    | some h ↦ handle sv bodies h st r.body m
                  ]
                  else (st, no_route)).1
      go false o f = (refl, tt)
      go true none f = (refl, tt)
      go true (some h) f = refused_handler bodies h r.body m (λ k. e (only_echo r.path h f k))

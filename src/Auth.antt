-- ===== src/Auth.antt =====
-- Accounts: the handlers of src/server/httpHandler.go, `EmailService` of src/server/emailService.go
-- and `AuthUser` of src/server/authDB.go. Times are nanoseconds.
pub mod Codes
pub mod Accounts
pub mod Draws
use Prim.Native.String.{len}
use Prim.Native.String
use singal.Common.{
  ℕ, ◌+◌, Bool, true, false, not, String, Option, none, some, List, [], ◌∷◌, ◌++◌, str_eq,
  if◌then◌else◌, ltb,
}
use singal.Net.{draw_text}
use singal.Rtc.Media.{Outcome, ok, err, panic}
use singal.Dict.{Dict, lookup, insert, delete}

pub record AuthUser : Type 0 where
  pub id : ℕ
  pub email : String
  pub password : String
  pub username : String
  pub is_active : Bool

pub record RegisterRequest : Type 0 where
  pub email : String
  pub password : String
  pub username : String

pub record VerifyEmailRequest : Type 0 where
  pub email : String
  pub code : String

pub record LoginRequest : Type 0 where
  pub email : String
  pub password : String

-- The request of `CompleteRegistration`.
pub record CompleteRequest : Type 0 where
  pub email : String
  pub code : String
  pub password : String
  pub username : String

-- The database and redis as they stand: the accounts in the order of their ids, and each
-- verification code with the time at which redis drops it.
pub record Store : Type 0 where
  pub users : List AuthUser
  pub next_id : ℕ
  pub codes : Dict (String × ℕ)

-- What the handlers take from elsewhere: text functions, the email pattern, bcrypt, which services
-- have been initialised, and whether redis and the database answer.
pub record Services : Type 0 where
  pub to_lower : String → String
  pub trim_space : String → String
  pub email_pattern : String → Bool
  pub generate_hash : String → Option String
  pub compare_hash : String → String → Bool
  pub has_db : Bool
  pub has_email : Bool
  pub has_redis : Bool
  pub db_up : Bool
  pub redis_up : Bool

-- An `AuthResponse` with its HTTP status, or a panic on a nil pointer.
pub data Reply : Type 0 where
  reply : ℕ → ℕ → String → Option AuthUser → Reply
  crashed : Reply

abbrev pub code_success : ℕ
code_success = 0

abbrev pub code_error : ℕ
code_error = 400

abbrev pub code_invalid_param : ℕ
code_invalid_param = 401

abbrev pub code_forbidden_param : ℕ
code_forbidden_param = 403

abbrev pub code_repeat_param : ℕ
code_repeat_param = 404

abbrev pub code_serverbusy_param : ℕ
code_serverbusy_param = 501

abbrev pub code_lifetime : ℕ
code_lifetime = 600_000_000_000

abbrev pub digits : String
digits = "0123456789"

-- `generateCode`, and its code where it returns no error.
unfoldable pub generate_code : (ℕ → Option ℕ) → Outcome String
generate_code draw = draw_text digits draw 6 0

abbrev pub code_of : Outcome String → Option String
code_of (ok code) = some code
code_of (err e) = none
code_of panic = none

-- `Where("email = ?", email).First`
unfoldable pub find_user : String → List AuthUser → Option AuthUser
find_user email [] = none
find_user email (u ∷ us) = if str_eq u.email email then some u else find_user email us

module _ (sv : Services) where
  abbrev pub first_user : Store → String → Option AuthUser
  first_user st email = if sv.db_up then find_user email st.users else none

  abbrev pub normalize_email : String → String
  normalize_email email = sv.to_lower (sv.trim_space email)

  unfoldable pub validate_email : String → Bool
  validate_email email = sv.email_pattern email

  unfoldable pub get_verification_code_key : String → String
  get_verification_code_key email = String.◌++◌ "verification_code:" (sv.to_lower email)

  -- `SendVerificationCode`: `code` is what `generateCode` drew, and `mailed` says whether the mail
  -- went out. The code is stored before that.
  unfoldable pub send_verification_code : Store → String → Option String → Bool → ℕ → Store × Bool
  send_verification_code st email none mailed now = (st, false)
  send_verification_code st email (some code) mailed now =
      if not sv.has_redis then (st, false) else if not sv.redis_up then (st, false) else (
        record st {
          codes = insert (get_verification_code_key email) (code, now + code_lifetime) st.codes;
        },
        mailed,
      )

  -- What `Get` of redis returns: an entry that has not expired.
  abbrev pub live_code : ℕ → Option (String × ℕ) → Option String
  live_code now none = none
  live_code now (some (code, expires)) = if ltb now expires then some code else none

  -- `VerifyCode`: a code that fits is deleted.
  unfoldable pub verify_code : Store → String → String → ℕ → Store × Bool
  verify_code st email code now =
      if not sv.has_redis
      then (st, false)
      else if not sv.redis_up
      then (st, false)
      else elim (live_code now (lookup (get_verification_code_key email) st.codes)) [
        | none ↦ (st, false)
        | some stored ↦
            if str_eq stored code
            then (record st { codes = delete (get_verification_code_key email) st.codes }, true)
            else (st, false)
      ]

  abbrev pub fail : Store → ℕ → ℕ → String → Store × Reply
  fail st status code message = (st, reply status code message none)

  -- `Register`; a request is `none` where it does not bind.
  unfoldable pub register :
      Store → Option RegisterRequest → Option String → Bool → ℕ → Store × Reply
  register st none code mailed now = fail st 400 code_invalid_param "Invalid request parameters"
  register st (some req) code mailed now =
      let email = normalize_email req.email in
      if not (validate_email email)
      then fail st 400 code_invalid_param "Invalid email format"
      else if ltb (len req.password) 6
      then fail st 400 code_invalid_param "Password must be at least 6 characters"
      else if not sv.has_db
      then (st, crashed)
      else elim (first_user st email) [
        | some _ ↦ fail st 400 code_repeat_param "Email already registered"
        | none ↦
            if not sv.has_email
            then fail st 500 code_serverbusy_param "Email service not available"
            else let (st', done) = send_verification_code st email code mailed now in
              if done
              then (st', reply 200 code_success "Verification code sent to email" none)
              else fail st' 500 code_serverbusy_param "Failed to send verification code"
      ]

  unfoldable pub verify_email : Store → Option VerifyEmailRequest → ℕ → Store × Reply
  verify_email st none now = fail st 400 code_invalid_param "Invalid request parameters"
  verify_email st (some req) now =
      let email = normalize_email req.email in
      if not (validate_email email)
      then fail st 400 code_invalid_param "Invalid email format"
      else if not sv.has_email
      then fail st 500 code_serverbusy_param "Email service not available"
      else let (st', done) = verify_code st email req.code now in
        if done
        then (st', reply 200 code_success "Email verified successfully" none)
        else fail st' 400 code_invalid_param "Invalid or expired verification code"

  -- `db.Create`: the unique index refuses an email that is there.
  unfoldable pub create_user : Store → AuthUser → Option (Store × AuthUser)
  create_user st u = if not sv.db_up then none else elim (find_user u.email st.users) [
    | some _ ↦ none
    | none ↦
        let u' : AuthUser = record u { id = st.next_id } in
        some (record st { users = st.users ++ u' ∷ []; next_id = st.next_id + 1 }, u')
  ]

  -- `CompleteRegistration` from its use of the database on.
  unfoldable pub create_account : Store → String → CompleteRequest → Store × Reply
  create_account st email req =
      if not sv.has_db then (st, crashed) else elim (first_user st email) [
        | some _ ↦ fail st 400 code_repeat_param "Email already registered"
        | none ↦ elim (sv.generate_hash req.password) [
          | none ↦ fail st 500 code_serverbusy_param "Failed to process password"
          | some hashed ↦
              elim (create_user st (record {
                id = 0;
                email = email;
                password = hashed;
                username = sv.trim_space req.username;
                is_active = true;
              })) [
                | none ↦ fail st 500 code_serverbusy_param "Failed to create user"
                | some (st', u) ↦
                    (st', reply 200 code_success "User registered successfully" (some u))
              ]
        ]
      ]

  unfoldable pub complete_registration : Store → Option CompleteRequest → ℕ → Store × Reply
  complete_registration st none now = fail st 400 code_invalid_param "Invalid request parameters"
  complete_registration st (some req) now =
      let email = normalize_email req.email in
      if not (validate_email email)
      then fail st 400 code_invalid_param "Invalid email format"
      else if not sv.has_email
      then fail st 500 code_serverbusy_param "Email service not available"
      else let (st', done) = verify_code st email req.code now in
        if done
        then create_account st' email req
        else fail st' 400 code_invalid_param "Invalid or expired verification code"

  unfoldable pub login : Store → Option LoginRequest → Reply
  login st none = reply 400 code_invalid_param "Invalid request parameters" none
  login st (some req) =
      let email = normalize_email req.email in
      if not (validate_email email)
      then reply 400 code_invalid_param "Invalid email format" none
      else if not sv.has_db
      then crashed
      else elim (first_user st email) [
        | none ↦ reply 401 code_error "Invalid email or password" none
        | some u ↦
            if not u.is_active
            then reply 403 code_forbidden_param "Account not activated" none
            else if sv.compare_hash u.password req.password
            then reply 200 code_success "Login successful" (some u)
            else reply 401 code_error "Invalid email or password" none
      ]

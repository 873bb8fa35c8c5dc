-- ===== src/Auth/Accounts.antt =====
-- The accounts: one for each email, and what a login accepts.
use mathlib.Core.Path.{subst}
use singal.Common.{
  ◌⊎◌, ◌∙◌, ℕ, ◌<◌, ◌≡◌, ◌≢◌, refl, Bool, true, false, String, Option, none, some, List, [], ◌∷◌,
  ◌++◌, arith, str_eq, eq_iff, if◌then◌else◌, inl, inr,
}
use Prim.Native.String
use singal.Auth.{
  AuthUser, Store, Services, reply, crashed, RegisterRequest, CompleteRequest, register,
  verify_code, send_verification_code, complete_registration, create_account, create_user, login,
  normalize_email, validate_email, find_user, code_success, code_error,
}

-- Accounts in the order of their ids, each email once.
abbrev pub IsUnique : List AuthUser → Type 0
IsUnique [] = Unit
IsUnique (u ∷ us) = (find_user u.email us ≡ none) × IsUnique us

pub find_user-append :
    (email : String) (us : List AuthUser) (u : AuthUser)
    → find_user email us ≡ none
    → find_user email (us ++ u ∷ []) ≡ (if str_eq u.email email then some u else none)
unfolding find_user
find_user-append email [] u h = refl
find_user-append email (v ∷ us) u h = ground (arith, find_user-append email us u)

module _ (sv : Services) where
  -- An account that was made.
  record Made (st : Store) (email password : String) (st' : Store) (u : AuthUser) : Type 0 where
    pub db : sv.has_db ≡ true
    pub up : sv.db_up ≡ true
    pub free : find_user email st.users ≡ none
    pub hashed : sv.generate_hash password ≡ some u.password
    pub named : u.email ≡ email
    pub active : u.is_active ≡ true
    pub added : st'.users ≡ st.users ++ u ∷ []

  create_account_cases :
      (st : Store) (email : String) (req : CompleteRequest)
      → ((u : AuthUser) × Made st email req.password (create_account sv st email req).0 u
          × ((create_account sv st email req).1
              ≡ reply 200 code_success "User registered successfully" (some u)))
        ⊎ (((create_account sv st email req).0 ≡ st)
            × ((u : AuthUser)
                → (create_account sv st email req).1
                  ≢ reply 200 code_success "User registered successfully" (some u)))
  unfolding create_account create_user
  create_account_cases st email req =
      go sv.has_db refl sv.db_up refl (find_user email st.users) refl
        (sv.generate_hash req.password) refl
    where
      go :
          (d : Bool)
          → sv.has_db ≡ d
          → (b : Bool) → sv.db_up ≡ b
          → (f : Option AuthUser) → find_user email st.users ≡ f
          → (g : Option String) → sv.generate_hash req.password ≡ g
          → ((u : AuthUser) × Made st email req.password (create_account sv st email req).0 u
              × ((create_account sv st email req).1
                  ≡ reply 200 code_success "User registered successfully" (some u)))
            ⊎ (((create_account sv st email req).0 ≡ st)
                × ((u : AuthUser)
                    → (create_account sv st email req).1
                      ≢ reply 200 code_success "User registered successfully" (some u)))
      go false d b p f q g r = inr (ground (arith, d), λ u e. ground (arith, d))
      go true d false p f q none r = inr (ground (arith, d, p, r), λ u e. ground (arith, d, p, r))
      go true d false p f q (some h) r =
          inr (ground (arith, d, p, r), λ u e. ground (arith, d, p, r))
      go true d true p (some v) q g r =
          inr (ground (arith, d, p, q), λ u e. ground (arith, d, p, q))
      go true d true p none q none r =
          inr (ground (arith, d, p, q, r), λ u e. ground (arith, d, p, q, r))
      go true d true p none q (some h) r = inl (
        record {
          id = st.next_id;
          email = email;
          password = h;
          username = sv.trim_space req.username;
          is_active = true;
        },
        record {
          db = d;
          up = p;
          free = q;
          hashed = r;
          named = refl;
          active = refl;
          added = ground (arith, d, p, q, r);
        },
        ground (arith, d, p, q, r),
      )

  -- What is left of an insert, whether or not the database takes it.
  abbrev pub inserted : Store → AuthUser → Store
  inserted st u = elim (create_user sv st u) [ none ↦ st | some (st', _) ↦ st' ]

  -- The inserts of several registrations, each of which found its email free before any of them.
  abbrev pub inserts : List AuthUser → Store → Store
  inserts [] st = st
  inserts (u ∷ us) st = inserts us (inserted st u)

  login-Made :
      (st st' : Store) (u : AuthUser) (email password : String)
      → Made st (normalize_email sv email) password st' u
      → validate_email sv (normalize_email sv email) ≡ true
      → (given : String)
      → login sv st' (some (record { email = email; password = given })) ≡ (
          if sv.compare_hash u.password given
          then reply 200 code_success "Login successful" (some u)
          else reply 401 code_error "Invalid email or password" none)
  unfolding login
  login-Made st st' u email password m v given = ground (
    arith,
    v,
    m.db,
    m.up,
    m.added,
    m.active,
    m.named,
    find_user-append (normalize_email sv email) st.users u m.free,
    eq_iff u.email (normalize_email sv email),
  )

  complete_success :
      (st : Store) (req : CompleteRequest) (now : ℕ) (u : AuthUser)
      → (complete_registration sv st (some req) now).1
        ≡ reply 200 code_success "User registered successfully" (some u)
      → (validate_email sv (normalize_email sv req.email) ≡ true)
        × (complete_registration sv st (some req) now
            ≡ create_account sv
                (verify_code sv st (normalize_email sv req.email) req.code now).0
                (normalize_email sv req.email)
                req)
  unfolding complete_registration
  complete_success st req now u h = ground arith

  account-Made :
      (st : Store) (email : String) (req : CompleteRequest) (u : AuthUser)
      → (create_account sv st email req).1
        ≡ reply 200 code_success "User registered successfully" (some u)
      → Made st email req.password (create_account sv st email req).0 u
  account-Made st email req u h = elim (create_account_cases st email req) [
    | inl (v, m, e) ↦ subst (Made st email req.password (create_account sv st email req).0) (cc) m
    | inr (_, ne) ↦ absurd (ne u h)
  ]

  -- Where bcrypt matches a password with its own hash, an account that `CompleteRegistration` has
  -- made logs in with its email and its password, and with another password exactly where the hash
  -- matches it.
  pub login_complete :
      (st : Store) (req : CompleteRequest) (now : ℕ) (u : AuthUser) (password : String)
      → ((p h : String) → sv.generate_hash p ≡ some h → sv.compare_hash h p ≡ true)
      → (complete_registration sv st (some req) now).1
        ≡ reply 200 code_success "User registered successfully" (some u)
      → let st' = (complete_registration sv st (some req) now).0 in
        (login sv st' (some (record { email = req.email; password = req.password }))
          ≡ reply 200 code_success "Login successful" (some u))
        × (login sv st' (some (record { email = req.email; password = password })) ≡ (
            if sv.compare_hash u.password password
            then reply 200 code_success "Login successful" (some u)
            else reply 401 code_error "Invalid email or password" none))
  login_complete st req now u password law h =
      let (valid, e) = complete_success st req now u h in
      let st₁ : Store = (verify_code sv st (normalize_email sv req.email) req.code now).0 in
      let m : Made st₁ (normalize_email sv req.email) req.password
          (create_account sv st₁ (normalize_email sv req.email) req).0 u =
        account-Made st₁ (normalize_email sv req.email) req u (rw e at h) in
      rw e (
        login-Made st₁ _ u req.email req.password m valid req.password
            ∙ (rw (law req.password u.password m.hashed)),
        login-Made st₁ _ u req.email req.password m valid password,
      )

  -- `Register` changes no account.
  pub register-users :
      (st : Store) (req : Option RegisterRequest) (code : Option String) (mailed : Bool) (now : ℕ)
      → (register sv st req code mailed now).0.users ≡ st.users
  unfolding register send_verification_code
  register-users st none code mailed now = refl
  register-users st (some req) none mailed now = ground arith
  register-users st (some req) (some c) mailed now = ground arith

  -- Without a database handle, as `main` leaves it, a registration with a good email and a password
  -- that is long enough panics.
  pub register-uninitialised :
      (st : Store) (req : RegisterRequest) (code : Option String) (mailed : Bool) (now : ℕ)
      → sv.has_db ≡ false
      → sv.email_pattern (normalize_email sv req.email) ≡ true
      → 5 < String.len req.password
      → register sv st (some req) code mailed now ≡ (st, crashed)
  unfolding register validate_email
  register-uninitialised st req code mailed now d e l = ground arith

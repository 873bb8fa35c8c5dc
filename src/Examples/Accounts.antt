-- ===== src/Examples/Accounts.antt =====
-- Runs of the account handlers.
use Prim.Native.String.{count}
use singal.Auth.Draws.{verify-register-generate_code}
use singal.Net.{draw_text, letter}
use singal.Net.Draws.{IsOver}
use singal.Rtc.Media.{ok}
use singal.Common.{
  ℕ, ◌+◌, ◌<◌, Option, ltb, if◌then◌else◌, ◌≡◌, refl, true, String, none, some, [], ◌∷◌, arith,
  str_eq, eq_refl, List,
}
use singal.Auth.{
  register, generate_code, code_of, digits, AuthUser, Store, Services, reply, RegisterRequest,
  VerifyEmailRequest, CompleteRequest, verify_email, complete_registration, login,
  send_verification_code, verify_code, get_verification_code_key, find_user, validate_email,
  create_account, create_user,
}
use singal.Auth.Codes.{complete-after_verify}
use singal.Auth.Accounts.{login_complete}
use singal.Dict.{lookup}

-- A hash that is the password itself; texts are as they come, and every email is valid.
abbrev pub all_up : Services
all_up = record {
  to_lower = λ s. s;
  trim_space = λ s. s;
  email_pattern = λ s. true;
  generate_hash = λ s. some s;
  compare_hash = λ h p. str_eq h p;
  has_db = true;
  has_email = true;
  has_redis = true;
  db_up = true;
  redis_up = true;
}

abbrev bob : AuthUser
bob = record { id = 1; email = "bob@b.c"; password = "hash"; username = "Bob"; is_active = true }

abbrev pub empty_store : Store
empty_store = record { users = bob ∷ []; next_id = 2; codes = [] }

abbrev coded_store : Store
coded_store = record empty_store { codes = ("verification_code:ann@b.c", ("123456", 600)) ∷ [] }

abbrev ann : RegisterRequest
ann = record { email = "ann@b.c"; password = "secret1"; username = "Ann" }

abbrev ann_code : VerifyEmailRequest
ann_code = record { email = "ann@b.c"; code = "123456" }

abbrev ann_completes : CompleteRequest
ann_completes = record {
  email = "ann@b.c";
  code = "123456";
  password = "secret1";
  username = "Ann";
}

complete-after_verify_example :
    let st = (verify_email all_up coded_store (some ann_code) 20).0 in
    complete_registration all_up st (some ann_completes) 30
    ≡ (st, reply 400 401 "Invalid or expired verification code" none)
unfolding verify_email verify_code validate_email get_verification_code_key lookup
complete-after_verify_example =
    complete-after_verify all_up coded_store ann_code ann_completes 20 30 refl refl

abbrev bob_account : AuthUser
bob_account = record {
  id = 0;
  email = "bob@b.c";
  password = "secret2";
  username = "Bob";
  is_active = true;
}

abbrev bob_twice : List AuthUser
bob_twice = bob_account ∷ record bob_account { username = "Bobby" } ∷ []

same_matches : (p h : String) → all_up.generate_hash p ≡ some h → all_up.compare_hash h p ≡ true
same_matches p h e = ground (arith, e, eq_refl p)

abbrev ann_account : AuthUser
ann_account = record {
  id = 2;
  email = "ann@b.c";
  password = "secret1";
  username = "Ann";
  is_active = true;
}

login_complete_example :
    let st = (complete_registration all_up coded_store (some ann_completes) 20).0 in
    (login all_up st (some (record { email = "ann@b.c"; password = "secret1" }))
      ≡ reply 200 0 "Login successful" (some ann_account))
    × (login all_up st (some (record { email = "ann@b.c"; password = "guess" }))
        ≡ reply 401 400 "Invalid email or password" none)
unfolding complete_registration verify_code validate_email get_verification_code_key lookup
    create_account create_user find_user
login_complete_example =
    login_complete all_up coded_store ann_completes 20 ann_account "guess" same_matches refl

-- The draws 1, 2, 3, 4, 5, 6.
abbrev counting : ℕ → Option ℕ
counting n = if ltb n 9 then some (n + 1) else none

counting_ranged : (j d : ℕ) → counting j ≡ some d → d < 10
counting_ranged j d e = ground (arith, e)

abbrev cay : RegisterRequest
cay = record { email = "cay@b.c"; password = "secret1"; username = "Cay" }

cay_registers :
    (register all_up empty_store (some cay) (code_of (generate_code counting)) true 0).1
    ≡ reply 200 0 "Verification code sent to email" none
unfolding register validate_email find_user send_verification_code generate_code draw_text letter
cay_registers = refl

verify-register-generate_code_example :
    (code : String) × (generate_code counting ≡ ok code)
    × (count code ≡ 6)
    × IsOver digits code
    × ((verify_email all_up
          (register all_up empty_store (some cay) (code_of (generate_code counting)) true 0).0
          (some (record { email = "cay@b.c"; code = code }))
          5).1
        ≡ reply 200 0 "Email verified successfully" none)
verify-register-generate_code_example =
    verify-register-generate_code all_up empty_store cay counting true 0 5 counting_ranged
      cay_registers (omega arith)

-- ===== src/Http.antt =====
-- The HTTP side: routes and the echo of src/server/httpHandler.go, and the access log and the shutdown
-- of src/server/httpServer.go. What gin answers by itself is named and left open.
pub mod Offline
use singal.Auth.{
  AuthUser, Services, Store, Reply, reply, crashed, RegisterRequest, VerifyEmailRequest,
  CompleteRequest, LoginRequest, register, verify_email, complete_registration, login, code_success,
  code_invalid_param, code_forbidden_param, code_repeat_param, code_serverbusy_param,
}
use singal.Common.{
  ℕ, ◌+◌, ◌*◌, ℤ, Bool, true, false, String, Option, none, some, List, [], ◌∷◌, ◌++◌, str_eq, ltb,
  if◌then◌else◌,
}
use singal.Dict.{Dict, lookup, insert}
use singal.Redis.{◌<>◌}

-- The methods of `HttpHandler`.
pub data Handler : Type 0 where
  echo_test register_user verify_user complete_user login_user : Handler

-- The routes that `NewHttpHandler` adds, all of them for POST.
unfoldable pub new_http_handler : Dict Handler
unfolding insert
new_http_handler = insert "/login" login_user (
    insert "/completeRegistration" complete_user (
      insert "/verify" verify_user
        (insert "/register" register_user (insert "/echo" echo_test []))))

-- `errMaps`, which nothing reads.
abbrev pub err_maps : List (ℕ × String)
err_maps =
    (code_success, "success")
    ∷ (code_invalid_param, "invalid param")
    ∷ (code_forbidden_param, "forbidden param")
    ∷ (code_repeat_param, "repeat param")
    ∷ (code_serverbusy_param, "server busy")
    ∷ []

pub record HttpRequest : Type 0 where
  pub method : String
  pub path : String
  pub body : String

-- What `ShouldBindJSON` reads of a body for each handler.
pub record Bodies : Type 0 where
  pub register_of : String → Option RegisterRequest
  pub verify_of : String → Option VerifyEmailRequest
  pub complete_of : String → Option CompleteRequest
  pub login_of : String → Option LoginRequest

-- What a request meets: the code that is drawn, whether the mail goes out, and the time.
pub record Meets : Type 0 where
  pub code : Option String
  pub mailed : Bool
  pub now : ℕ

-- The answer of a handler, that of the echo (status, code, message, trace id), and gin's own for a
-- path without a route and, by `gin.Recovery()`, for a panic.
pub data Response : Type 0 where
  answered : ℕ → ℕ → String → Option AuthUser → Response
  echoed : ℕ → ℕ → String → String → Response
  no_route recovered : Response

unfoldable pub echo_response : Response
echo_response = echoed 200 200 "echotest" "mwkjt"

abbrev pub recover : Reply → Response
recover (reply status code message account) = answered status code message account
recover crashed = recovered

-- The router that `NewHttpServer` makes, on one request.
module _ (sv : Services) (bodies : Bodies) where
  unfoldable pub handle : Handler → Store → String → Meets → Store × Response
  handle echo_test st body m = (st, echo_response)
  handle register_user st body m =
      let (st', r) = register sv st (bodies.register_of body) m.code m.mailed m.now in
      (st', recover r)
  handle verify_user st body m =
      let (st', r) = verify_email sv st (bodies.verify_of body) m.now in (st', recover r)
  handle complete_user st body m =
      let (st', r) = complete_registration sv st (bodies.complete_of body) m.now in (st', recover r)
  handle login_user st body m = (st, recover (login sv st (bodies.login_of body)))

  unfoldable pub serve : Store → HttpRequest → Meets → Store × Response
  serve st r m =
      if str_eq r.method "POST"
      then elim (lookup r.path new_http_handler) [
        | none ↦ (st, no_route)
        | some h ↦ handle h st r.body m
      ]
      else (st, no_route)

-- The `gin.LogFormatterParams` that `accessLogger` fills, with what else its line has; times and
-- sizes that are not plain numbers are texts.
pub record AccessParams : Type 0 where
  pub client_ip : String
  pub time_stamp : String
  pub method : String
  pub path : String
  pub proto : String
  pub status_code : ℕ
  pub latency : String
  pub body_size : ℤ
  pub host : String

unfoldable pub access_path : String → String → String
access_path path raw = if str_eq raw "" then path else path <> "?" <> raw

-- The line of `accessLogger`, for a request with the query `raw`.
unfoldable pub access_line : (ℕ → String) → (ℤ → String) → AccessParams → String → String
unfolding access_path
access_line itoa int_text p raw =
    "[access] "
    <> p.client_ip
    <> " - ["
    <> p.time_stamp
    <> "] \""
    <> p.method
    <> " "
    <> access_path p.path raw
    <> " "
    <> p.proto
    <> "\" "
    <> itoa p.status_code
    <> " "
    <> p.latency
    <> " "
    <> int_text p.body_size
    <> " "
    <> p.host

abbrev pub shutdown_timeout : ℕ
shutdown_timeout = 3 * 1000000000

-- `Stop` from the signal at `quit` on: the time at which it returns and what it logs. `took` is how
-- long `Shutdown` takes and `error` what it returns. The context ends at its deadline in any case.
unfoldable pub stop : ℕ → ℕ → Option String → ℕ × List String
stop quit took error = (
  quit + (if ltb took shutdown_timeout then shutdown_timeout else took),
  ("shutting down ..." ∷ elim error [ none ↦ [] | some e ↦ ("shutdown err: " <> e) ∷ [] ])
      ++ "shutdown ok ..." ∷ "server exit" ∷ [],
)

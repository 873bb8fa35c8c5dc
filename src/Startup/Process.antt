-- ===== src/Startup/Process.antt =====
-- The three goroutines that `main` starts (src/main/main.go: `StartWssServer`, `StartGrpcServer` and
-- `StartHttpServer`), with what happens to them, in any order.
use singal.Common.{ℕ, Bool, true, false, String, Option, none, some, List, [], ◌∷◌, if◌then◌else◌}
use singal.Conference.{Env, World}
use singal.Conference.Sessions.{connect, handle_event}
use singal.Dict.{lookup}
use singal.Proto.{WorkerToServer}
use singal.Rtc.Media.{Outcome, ok, err, panic}
use singal.Rtc.{Answer}
use singal.Server.{Session, WebRtcServer, sync_message}
use singal.Settings.{HttpServer, RouterRtpCapabilities, new_http_server}
use singal.Startup.{Globals, main_start, set_rtc_server, create_router_on_worker}

-- Where a goroutine stands: `bound` is between the port and the server, `done` has called `wg.Done`.
pub data Thread : Type 0 where
  ready bound up done : Thread

-- The whole process; `http_server` is what `StartHttpServer` has made.
pub record Process : Type 0 where
  pub globals : Globals
  pub wss : Thread
  pub grpc : Thread
  pub http : Thread
  pub http_server : Option HttpServer

-- A WebSocket connection: its user, and what `CreateRouterOnWorker` meets if the room is new.
pub record Connection : Type 0 where
  pub user_id : String
  pub peer_id : String
  pub room_id : String
  pub remote_address : String
  pub req_id : ℕ
  pub now : ℕ
  pub router_id : String
  pub server_id : String
  pub answer : Answer

pub data Step : Type 0 where
  wss_up wss_down grpc_up grpc_down http_up http_down : Step
  grpc_listen : Bool → Step
  connection : Connection → Step
  worker_message : Session → WorkerToServer → ℕ → Bool → Step

-- A goroutine's own step, where it stands at `here`.
abbrev pub advance : Thread → Thread → Thread → Thread
advance ready ready next = next
advance bound bound next = next
advance up up next = next
advance _ t _ = t

abbrev pub is_up : Thread → Bool
is_up up = true
is_up _ = false

abbrev pub is_bound : Thread → Bool
is_bound bound = true
is_bound _ = false

abbrev pub is_ready : Thread → Bool
is_ready ready = true
is_ready _ = false

-- `StartWssServer` up to `ListenAndServe`.
abbrev pub start_wss : Process → Process
start_wss p = record p { wss = advance ready p.wss up }

-- `StartGrpcServer` up to the test of `net.Listen`, and from there to `Serve`.
abbrev pub listen_grpc : Bool → Process → Process
listen_grpc listens p = record p { grpc = advance ready p.grpc (if listens then bound else done) }

abbrev pub serve_grpc : Process → Process
serve_grpc p =
    if is_bound p.grpc then record p { grpc = up; globals = set_rtc_server p.globals } else p

-- `StartHttpServer` up to `ListenAndServe`.
unfoldable pub start_http : Process → Outcome Process
start_http p = elim p.globals.config [
  | none ↦ panic
  | some c ↦ ok (record p { http = up; http_server = some (new_http_server c) })
]

-- `Register` of a connection with the server and the rooms that are there. A room that is there needs
-- no router.
unfoldable pub accept_in :
    Env → Connection → Option WebRtcServer → World → Process → Outcome Process
accept_in env c server w p =
    let made = create_router_on_worker server c.now c.router_id c.server_id c.answer in
    let server' : Option WebRtcServer = elim (lookup c.room_id w.rooms) [
      | none ↦ made.0
      | some _ ↦ server
    ] in
    elim (handle_event env (connect c.user_id c.peer_id c.room_id c.remote_address c.req_id made.1)
      w) [
        | ok (_, w') ↦ ok (record p {
          globals = record (p.globals) { room_manager = some w'; rtc_server = server' };
        })
        | err e ↦ err e
        | panic ↦ panic
      ]

-- A connection that `HandleWebSocket` accepts and `Run` registers.
unfoldable pub accept : Env → Connection → Process → Outcome Process
accept env c p = elim p.globals.room_manager [
  | none ↦ panic
  | some w ↦ accept_in env c p.globals.rtc_server w p
]

-- A message of a worker stream, which only a server that serves gets; that a stream ends is no step
-- here.
unfoldable pub serve_worker : Session → WorkerToServer → ℕ → Bool → Globals → Globals
serve_worker t m now sent_ok g = elim g.rtc_server [
  | none ↦ g
  | some s ↦ record g { rtc_server = some (sync_message s t m now sent_ok).0 }
]

-- One step; a step that cannot be taken changes nothing. A panic ends the process.
unfoldable pub step : Env → Step → Process → Outcome Process
step env wss_up p = ok (start_wss p)
step env wss_down p = ok (record p { wss = advance up p.wss done })
step env (grpc_listen listens) p = ok (listen_grpc listens p)
step env grpc_up p = ok (serve_grpc p)
step env grpc_down p = ok (record p { grpc = advance up p.grpc done })
step env http_up p = if is_ready p.http then start_http p else ok p
step env http_down p = ok (record p { http = advance up p.http done })
step env (connection c) p = if is_up p.wss then accept env c p else ok p
step env (worker_message t m now sent_ok) p =
    if is_up p.grpc
    then ok (record p { globals = serve_worker t m now sent_ok p.globals })
    else ok p

unfoldable pub run : Env → List Step → Process → Outcome Process
run env [] p = ok p
run env (s ∷ ss) p = elim (step env s p) [ ok q ↦ run env ss q | err e ↦ err e | panic ↦ panic ]

-- `main`: nothing runs where the configuration is not read.
unfoldable pub main :
    Env
    → (String → Option RouterRtpCapabilities)
    → Option String
    → List Step
    → Option (Outcome Process)
main env decode file steps = elim (main_start decode file) [
  | none ↦ none
  | some g ↦ some (
      run env steps
        (record { globals = g; wss = ready; grpc = ready; http = ready; http_server = none }))
]

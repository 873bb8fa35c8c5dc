-- ===== src/Examples/Launch.antt =====
-- Starts of the server.
use singal.Common.{◌≡◌, ◌≢◌, ◌↔◌, refl, true, false, String, none, some, Option, [], ◌∷◌, str_ne}
use singal.Conference.Sessions.{start}
use singal.Examples.Accounts.{all_up, empty_store}
use singal.Examples.Rooms.{offline_env}
use singal.Http.Offline.{Refuses}
use singal.Http.{Bodies, HttpRequest, Meets, serve}
use singal.Rtc.Media.{ok, panic}
use singal.Rtc.{refused, router_answer, read_answer}
use singal.Server.{worker_offline, new_web_rtc_server}
use singal.Settings.{RouterRtpCapabilities, new_config, init_setting, new_http_server}
use singal.Startup.Process.{
  Process, Connection, wss_up, http_up, grpc_up, grpc_listen, connection, ready, up, done, main,
  run, step, start_http,
}
use singal.Startup.Races.{connection-panics, grpc_listen-panics}
use singal.Startup.Reached.{IsStarted}
use singal.Startup.Running.{main-IsStarted}
use singal.Startup.Unready.{main-serve}
use singal.Startup.{Globals, unset, main_start, new_room_manager, set_rtc_server, services_of}

abbrev no_media : RouterRtpCapabilities
no_media = record { media_codecs = []; header_extensions = [] }

abbrev decode : String → Option RouterRtpCapabilities
decode text = some no_media

abbrev set_up : Globals
set_up = record unset { config = some new_config; room_manager = some start }

-- The WebSocket server is up before the gRPC server listens.
abbrev early : Process
early = record { globals = set_up; wss = up; grpc = ready; http = ready; http_server = none }

early_reached : main offline_env decode (some "{}") (wss_up ∷ []) ≡ some (ok early)
unfolding main main_start init_setting new_room_manager run step
early_reached = refl

abbrev visitor : Connection
visitor = record {
  user_id = "user_1";
  peer_id = "ann";
  room_id = "lobby";
  remote_address = "192.0.2.7";
  req_id = 0;
  now = 0;
  router_id = "r";
  server_id = "s";
  answer = refused worker_offline;
}

visitor_answer : router_answer visitor.answer ≢ panic
unfolding read_answer
visitor_answer = cc

connection-panics_example :
    (step offline_env (connection visitor) early ≡ panic) ↔ (early.globals.rtc_server ≡ none)
connection-panics_example =
    connection-panics offline_env decode (some "{}") (wss_up ∷ []) early visitor early_reached refl
      visitor_answer

-- The gRPC port is taken.
abbrev without_grpc : Process
without_grpc = record early { grpc = done }

without_grpc_reached : run offline_env (grpc_listen false ∷ wss_up ∷ []) early ≡ ok without_grpc
unfolding run step
without_grpc_reached = refl

grpc_listen-panics_example : step offline_env (connection visitor) without_grpc ≡ panic
grpc_listen-panics_example =
    grpc_listen-panics offline_env decode (some "{}") (wss_up ∷ []) (wss_up ∷ []) early without_grpc
      visitor early_reached refl without_grpc_reached refl

-- All three servers are up.
abbrev running : Process
running = record {
  globals = record set_up { rtc_server = some new_web_rtc_server };
  wss = up;
  grpc = up;
  http = up;
  http_server = some (new_http_server new_config);
}

running_reached :
    main offline_env decode (some "{}") (wss_up ∷ http_up ∷ grpc_listen true ∷ grpc_up ∷ [])
    ≡ some (ok running)
unfolding main main_start init_setting new_room_manager run step start_http set_rtc_server
running_reached = refl

main-IsStarted_example : IsStarted running.globals
main-IsStarted_example =
    main-IsStarted offline_env decode (some "{}")
      (wss_up ∷ http_up ∷ grpc_listen true ∷ grpc_up ∷ []) running running_reached

abbrev bodies : Bodies
bodies = record {
  register_of = λ s. some (record { email = s; password = "secret1"; username = "Ann" });
  verify_of = λ s. none;
  complete_of = λ s. none;
  login_of = λ s. none;
}

abbrev to_register : HttpRequest
to_register = record { method = "POST"; path = "/register"; body = "ann@b.c" }

abbrev meets : Meets
meets = record { code = some "123456"; mailed = true; now = 0 }

main-serve_example :
    ((serve (services_of all_up running.globals) bodies empty_store to_register meets).0
      ≡ empty_store)
    × Refuses (serve (services_of all_up running.globals) bodies empty_store to_register meets).1
main-serve_example =
    main-serve offline_env decode (some "{}") (wss_up ∷ http_up ∷ grpc_listen true ∷ grpc_up ∷ [])
      running all_up bodies empty_store to_register meets running_reached
      (str_ne "/register" "/echo" refl)

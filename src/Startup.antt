-- ===== src/Startup.antt =====
-- The start of the server: src/main/main.go with the initialisations that it runs or leaves out
-- (src/server/redis.go, authDB.go, emailService.go, roomManager.go, grpcServer.go). The package's
-- global variables are the fields of a record; nil is `none`.
pub mod Process
pub mod Reached
pub mod Running
pub mod Races
pub mod Unready
use singal.Auth.{Services}
use singal.Common.{ℕ, ℤ, Bool, true, false, String, Option, none, some, if◌then◌else◌}
use singal.Conference.{World}
use singal.Conference.Sessions.{start}
use singal.Router.{Router}
use singal.Rtc.Media.{Outcome, ok, err, panic}
use singal.Rtc.{Answer, create_router_request, create_router_finish}
use singal.Server.{WebRtcServer, new_web_rtc_server}
use singal.Settings.{
  Config, EmailService, RouterRtpCapabilities, init_setting, init_email_service, redis_address,
  data_source_name,
}

-- The `redis.Options` of the client.
pub record RedisOptions : Type 0 where
  pub addr : String
  pub password : String
  pub db : ℤ

-- `gAuthDB` is known by its source name. `rtc_server` is `gRtcServer` together with
-- `gWorkerManager`, which is set just before it; `room_manager` has what the rooms share.
pub record Globals : Type 0 where
  pub config : Option Config
  pub redis_client : Option RedisOptions
  pub has_redis_task_mgr : Bool
  pub auth_db : Option String
  pub email_service : Option EmailService
  pub room_manager : Option World
  pub rtc_server : Option WebRtcServer

-- The variables before `main` runs.
abbrev pub unset : Globals
unset = record {
  config = none;
  redis_client = none;
  has_redis_task_mgr = false;
  auth_db = none;
  email_service = none;
  room_manager = none;
  rtc_server = none;
}

-- `NewRoomManager`
unfoldable pub new_room_manager : Globals → Globals
new_room_manager g = record g { room_manager = some start }

-- `InitEmailService` as it acts on the variables.
unfoldable pub start_email_service : Globals → Outcome Globals
start_email_service g = elim g.config [
  | none ↦ panic
  | some c ↦ ok (record g { email_service = some (init_email_service c) })
]

module _ (itoa : ℤ → String) where
  -- `InitRedisClient`, and whether it returns no error: the client is set also where the ping fails.
  unfoldable pub init_redis_client : Bool → Globals → Outcome (Globals × Bool)
  init_redis_client ping g = elim g.config [
    | none ↦ panic
    | some c ↦
        let client : Globals = record g {
          redis_client = some (record {
            addr = redis_address itoa c;
            password = c.redis.password;
            db = c.redis.db;
          });
        } in
        if ping then ok (record client { has_redis_task_mgr = true }, true) else ok (client, false)
  ]

  -- `InitAuthDB`: whether gorm gives a database, whether its pool is had, and whether the table is
  -- migrated. The database stays set where a later step fails.
  unfoldable pub init_auth_db : Bool → Bool → Bool → Globals → Outcome (Globals × Bool)
  init_auth_db opened pooled migrated g = elim g.config [
    | none ↦ panic
    | some c ↦
        let db : Option String = if opened then some (data_source_name itoa c) else none in
        let g' : Globals = record g { auth_db = db } in
        if opened then if pooled then ok (g', migrated) else ok (g', false) else ok (g', false)
  ]

-- `main` up to the three goroutines; `none` where it returns early.
unfoldable pub main_start : (String → Option RouterRtpCapabilities) → Option String → Option Globals
main_start decode file = elim (init_setting decode file) [
  | none ↦ none
  | some c ↦ some (new_room_manager (record unset { config = some c }))
]

-- `gRtcServer.CreateRouterOnWorker()` of `NewRoom`, with the state that the server is left in: a
-- manager that is nil is locked, which is a nil pointer. Of the server only the manager changes here:
-- the sequence id and the pending entry of the request are in `Server.start_request`.
unfoldable pub create_router_on_worker :
    Option WebRtcServer → ℕ → String → String → Answer → Option WebRtcServer × Outcome Router
create_router_on_worker none now router_id server_id answer = (none, panic)
create_router_on_worker (some s) now router_id server_id answer =
    elim (create_router_request s.manager now router_id server_id) [
      | none ↦ (some s, err "no available worker")
      | some (r, m) ↦
          let done = create_router_finish s.manager r answer in
          (some (record s { manager = done.0 }), done.1)
    ]

-- `StartGrpcServer` once it listens.
unfoldable pub set_rtc_server : Globals → Globals
set_rtc_server g = record g { rtc_server = some new_web_rtc_server }

abbrev pub is_some : {A : Type 0} → Option A → Bool
is_some none = false
is_some (some _) = true

-- What `GetAuthDB`, `GetEmailService` and `GetRedisClient` give the handlers.
unfoldable pub services_of : Services → Globals → Services
services_of sv g = record sv {
  has_db = is_some g.auth_db;
  has_email = is_some g.email_service;
  has_redis = is_some g.redis_client;
}

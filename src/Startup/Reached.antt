-- ===== src/Startup/Reached.antt =====
-- What every process that `main` starts keeps, in whatever order its goroutines run.
use singal.Common.{
  if◌then◌else◌, ◌≡◌, refl, Bool, true, false, String, Option, none, some, [], arith, ap, sym,
}
use singal.Conference.{Env, World, Room}
use mathlib.Core.Path.{subst}
use singal.Common.{if◌then◌else◌, ℕ}
use singal.Proto.{WorkerToServer, ServerPayload}
use singal.Rtc.{create_router_request, create_router_finish}
use singal.Conference.Sessions.{start, connect, handle_event}
use singal.Dict.{lookup}
use singal.Router.{Router}
use singal.Rtc.Media.{Outcome, ok, err, panic}
use singal.Server.{WebRtcServer, Session, sync_message}
use singal.Settings.{Config, RouterRtpCapabilities, init_setting}
use singal.Startup.{
  Globals, unset, main_start, new_room_manager, set_rtc_server, create_router_on_worker,
}
use singal.Conference.Arriving.{connect_panics}
use singal.Startup.Process.{Process, Connection, accept_in, serve_worker}

-- Rooms are there only where `NewWebRtcServer` has been called.
abbrev pub RoomsOf : Option WebRtcServer → Option World → Type 0
RoomsOf none m = (w : World) × (m ≡ some w) × (w.rooms ≡ [])
RoomsOf (some s) m = (w : World) × (m ≡ some w)

-- The configuration is there, and nothing that `main` leaves out.
pub record IsStarted (g : Globals) : Type 0 where
  pub configured : (c : Config) × (g.config ≡ some c)
  pub no_redis : g.redis_client ≡ none
  pub no_db : g.auth_db ≡ none
  pub no_email : g.email_service ≡ none
  pub rooms : RoomsOf g.rtc_server g.room_manager

pub main_start-IsStarted :
    (decode : String → Option RouterRtpCapabilities) (file : Option String) (g : Globals)
    → main_start decode file ≡ some g
    → IsStarted g × (g.rtc_server ≡ none)
unfolding main_start new_room_manager
main_start-IsStarted decode file g e = go (init_setting decode file) e
  where
    go :
        (o : Option Config)
        → elim o as (λ _. Option Globals) [
          | none ↦ none
          | some c ↦ some (new_room_manager (record unset { config = some c }))
        ]
          ≡ some g
        → IsStarted g × (g.rtc_server ≡ none)
    go none e = absurd (cc)
    go (some c) e =
        subst (λ v. IsStarted v × (v.rtc_server ≡ none))
          {x = new_room_manager (record unset { config = some c })} {y = g} (ground (arith, e))
          (
            record {
              configured = (c, refl);
              no_redis = refl;
              no_db = refl;
              no_email = refl;
              rooms = (start, refl, refl);
            },
            refl,
          )

some_room : (o : Option WebRtcServer) (m : Option World) → RoomsOf o m → (w : World) × (m ≡ some w)
some_room none m (w, e, _) = (w, e)
some_room (some s) m (w, e) = (w, e)

-- A server that is there is another one, and so are the rooms.
with_server :
    (g : Globals) (s : WebRtcServer) (w : World)
    → IsStarted g
    → IsStarted (record g { rtc_server = some s; room_manager = some w })
with_server g s w h = record {
  configured = h.configured;
  no_redis = h.no_redis;
  no_db = h.no_db;
  no_email = h.no_email;
  rooms = (w, refl);
}

pub set_rtc_server-IsStarted : (g : Globals) → IsStarted g → IsStarted (set_rtc_server g)
unfolding set_rtc_server
set_rtc_server-IsStarted g s = record {
  configured = s.configured;
  no_redis = s.no_redis;
  no_db = s.no_db;
  no_email = s.no_email;
  rooms = some_room g.rtc_server g.room_manager s.rooms;
}

pub serve_worker-IsStarted :
    (t : Session) (m : WorkerToServer) (now : ℕ) (sent_ok : Bool) (g : Globals)
    → IsStarted g
    → IsStarted (serve_worker t m now sent_ok g)
unfolding serve_worker
serve_worker-IsStarted t m now sent_ok g s = go g.rtc_server
  where
    go :
        (o : Option WebRtcServer)
        → IsStarted (elim o as (λ _. Globals) [
          | none ↦ g
          | some v ↦ record g { rtc_server = some (sync_message v t m now sent_ok).0 }
        ])
    go none = s
    go (some v) = record {
      configured = s.configured;
      no_redis = s.no_redis;
      no_db = s.no_db;
      no_email = s.no_email;
      rooms = some_room g.rtc_server g.room_manager s.rooms;
    }

-- A room cannot be made before there is a server.
pub accept_in_early :
    (env : Env) (c : Connection) (w : World) (p : Process)
    → w.rooms ≡ []
    → accept_in env c none w p ≡ panic
unfolding accept_in create_router_on_worker
accept_in_early env c w p e =
    rw
      (
        connect_panics env c.user_id c.peer_id c.room_id c.remote_address c.req_id w
            (rw e (unfold lookup in refl)),
        accept_in,
      )
      refl

some_server :
    (s : WebRtcServer) (c : Connection)
    → (s' : WebRtcServer) × ((create_router_on_worker
          (some s)
          c.now
          c.router_id
          c.server_id
          c.answer).0
        ≡ some s')
unfolding create_router_on_worker
some_server s c = go (create_router_request s.manager c.now c.router_id c.server_id)
  where
    go :
        (o : Option (Router × ServerPayload))
        → (s' : WebRtcServer) × ((elim o as (λ _. Option WebRtcServer × Outcome Router) [
          | none ↦ (some s, err "no available worker")
          | some (r, m) ↦
              let done = create_router_finish s.manager r c.answer in
              (some (record s { manager = done.0 }), done.1)
        ]).0
            ≡ some s')
    go none = (s, refl)
    go (some (r, m)) = (record s { manager = (create_router_finish s.manager r c.answer).0 }, refl)

-- Where the process lives on, it does so in a state of which `P` holds.
abbrev pub Survives : (Process → Type 0) → Outcome Process → Type 0
Survives P (ok q) = P q
Survives P (err e) = Unit
Survives P panic = Unit

pub Survives-if :
    (P : Process → Type 0) (b : Bool) (x y : Outcome Process)
    → Survives P x
    → Survives P y
    → Survives P (if b then x else y)
Survives-if P true x y f g = f
Survives-if P false x y f g = g

pub Survives-map :
    {P Q : Process → Type 0} (o : Outcome Process)
    → ((q : Process) → P q → Q q)
    → Survives P o
    → Survives Q o
Survives-map (ok q) f h = f q h
Survives-map (err e) f h = tt
Survives-map panic f h = tt

-- What a registration leaves where there is a server: the goroutines, and another server.
pub accept_in-Survives :
    (env : Env) (c : Connection) (s : WebRtcServer) (w : World) (p : Process)
    → IsStarted p.globals
    → Survives
        (λ q.
          IsStarted q.globals
          × (q.grpc ≡ p.grpc)
          × ((s' : WebRtcServer) × (q.globals.rtc_server ≡ some s')))
        (accept_in env c (some s) w p)
unfolding accept_in
accept_in-Survives env c s w p h =
    go (lookup c.room_id w.rooms)
      (handle_event env (connect c.user_id c.peer_id c.room_id c.remote_address c.req_id made.1) w)
  where
    made : Option WebRtcServer × Outcome Router
    made = create_router_on_worker (some s) c.now c.router_id c.server_id c.answer

    s' : WebRtcServer
    s' = (some_server s c).0

    go :
        (r : Option Room) (o : Outcome (Unit {0} × World))
        → Survives
            (λ q.
              IsStarted q.globals
              × (q.grpc ≡ p.grpc)
              × ((s' : WebRtcServer) × (q.globals.rtc_server ≡ some s')))
            (elim o as (λ _. Outcome Process) [
              | ok (_, w') ↦ ok (record p {
                globals = record (p.globals) {
                  room_manager = some w';
                  rtc_server = elim r [ none ↦ made.0 | some _ ↦ some s ];
                };
              })
              | err x ↦ err x
              | panic ↦ panic
            ])
    go none (ok (_, w')) = (
      subst IsStarted
          (ap (λ o. record (p.globals) { room_manager = some w'; rtc_server = o })
            (sym (some_server s c).1))
          (with_server p.globals s' w' h),
      refl,
      some_server s c,
    )
    go (some r) (ok (_, w')) = (with_server p.globals s w' h, refl, (s, refl))
    go r (err x) = tt
    go r panic = tt

-- ===== src/Startup/Races.antt =====
-- Connections against the start of the gRPC server.
use singal.Common.{
  ◌≡◌, ◌≢◌, ◌↔◌, refl, Bool, true, false, String, Option, none, some, List, ◌∷◌, arith, ◌∙◌, sym,
  ap, if◌then◌else◌,
}
use mathlib.Core.Path.{subst}
use singal.Conference.{Env, World, Room}
use singal.Dict.{lookup}
use singal.Router.{Router}
use singal.Rtc.Media.{Outcome, ok, err, panic}
use singal.Rtc.{router_answer, create_router_request, create_router_finish}
use singal.Server.{WebRtcServer}
use singal.Workers.{WorkerManager, add_router}
use singal.Proto.{ServerPayload, RouterResponse}
use singal.Conference.Sessions.{connect, handle_event}
use singal.Settings.{Config, new_http_server, RouterRtpCapabilities}
use singal.Startup.{create_router_on_worker}
use singal.Conference.Arriving.{connect_returns}
use singal.Startup.Process.{
  is_ready, start_http, advance, wss_up, wss_down, grpc_up, grpc_down, http_up, http_down,
  worker_message, Process, Connection, Step, connection, grpc_listen, ready, done, up, is_up,
  accept_in, accept, step, run, main,
}
use singal.Startup.Reached.{IsStarted, accept_in_early, RoomsOf, Survives, Survives-if}
use singal.Startup.Running.{
  ServerOf, IsRunning, step-IsRunning, run-Survives, main-IsRunning, main-IsStarted,
}

-- `CreateRouterOnWorker` on a server does not panic where the worker's answer is of the right kind.
router-ne-panic :
    (s : WebRtcServer) (c : Connection)
    → router_answer c.answer ≢ panic
    → (create_router_on_worker (some s) c.now c.router_id c.server_id c.answer).1 ≢ panic
unfolding create_router_on_worker create_router_finish
router-ne-panic s c h e =
    go (create_router_request s.manager c.now c.router_id c.server_id) (router_answer c.answer) h e
  where
    go :
        (o : Option (Router × ServerPayload)) (a : Outcome RouterResponse)
        → a ≢ panic
        → (elim o as (λ _. Option WebRtcServer × Outcome Router) [
          | none ↦ (some s, err "no available worker")
          | some (r, m) ↦
              let done = elim a as (λ _. WorkerManager × Outcome Router) [
                | ok _ ↦ ((add_router s.manager r.worker_id r).0, ok r)
                | err x ↦ (s.manager, err x)
                | panic ↦ (s.manager, panic)
              ] in
              (some (record s { manager = done.0 }), done.1)
        ]).1
          ≢ panic
    go none a h e = absurd (cc)
    go (some (r, m)) (ok x) h e = absurd (cc)
    go (some (r, m)) (err x) h e = absurd (cc)
    go (some (r, m)) panic h e = h refl

accept_in_returns :
    (env : Env) (c : Connection) (s : WebRtcServer) (w : World) (p : Process)
    → router_answer c.answer ≢ panic
    → accept_in env c (some s) w p ≢ panic
unfolding accept_in
accept_in_returns env c s w p h e =
    let (w', f) =
      connect_returns env c.user_id c.peer_id c.room_id c.remote_address c.req_id w _
        (lookup c.room_id w.rooms) refl (λ _. router-ne-panic s c h) in
    absurd (ground (arith, rw (f, accept_in) at e))

step-connection :
    (env : Env) (c : Connection) (p : Process) (w : World)
    → p.wss ≡ up
    → p.globals.room_manager ≡ some w
    → step env (connection c) p ≡ accept_in env c p.globals.rtc_server w p
unfolding step accept
step-connection env c p w hw hm = go (is_up p.wss) p.globals.room_manager (ap is_up hw) hm
  where
    go :
        (b : Bool) (m : Option World)
        → b ≡ true
        → m ≡ some w
        → (if b
            then elim m as (λ _. Outcome Process) [
              | none ↦ panic
              | some v ↦ accept_in env c p.globals.rtc_server v p
            ]
            else ok p)
          ≡ accept_in env c p.globals.rtc_server w p
    go false m t f = absurd (cc)
    go true none t f = absurd (cc)
    go true (some v) t f = ap (λ v. accept_in env c p.globals.rtc_server v p) (ground (arith, f))

early-panics :
    (env : Env) (c : Connection) (p : Process)
    → IsStarted p.globals
    → p.wss ≡ up
    → p.globals.rtc_server ≡ none
    → step env (connection c) p ≡ panic
early-panics env c p s hw hn =
    let (w, f, g) : RoomsOf none p.globals.room_manager =
      subst (λ o. RoomsOf o p.globals.room_manager) hn s.rooms in
    step-connection env c p w hw f
    ∙ ap (λ o. accept_in env c o w p) hn
    ∙ accept_in_early env c w p g

-- However the goroutines of `main` interleave: while the WebSocket server is up and the worker's answer
-- is of the right kind, a connection makes the process panic exactly where the gRPC server has not
-- been made.
pub connection-panics :
    (env : Env) (decode : String → Option RouterRtpCapabilities) (file : Option String)
    (xs : List Step) (p : Process) (c : Connection)
    → main env decode file xs ≡ some (ok p)
    → p.wss ≡ up
    → router_answer c.answer ≢ panic
    → (step env (connection c) p ≡ panic) ↔ (p.globals.rtc_server ≡ none)
connection-panics env decode file xs p c e hw ha =
    let s = main-IsStarted env decode file xs p e in
    (λ k. go p.globals.rtc_server refl s.rooms k, early-panics env c p s hw)
  where
    go :
        (o : Option WebRtcServer)
        → p.globals.rtc_server ≡ o
        → RoomsOf o p.globals.room_manager
        → step env (connection c) p ≡ panic
        → p.globals.rtc_server ≡ none
    go none h r k = h
    go (some v) h (w, f) k = absurd (
        accept_in_returns env c v w p ha
          (sym (step-connection env c p w hw f ∙ ap (λ o. accept_in env c o w p) h) ∙ k))

-- A server is not made once `StartGrpcServer` has returned.
abbrev NoServer : Process → Type 0
NoServer p = (p.grpc ≡ done) × (p.globals.rtc_server ≡ none)

start_http-NoServer : (p : Process) → NoServer p → Survives NoServer (start_http p)
unfolding start_http
start_http-NoServer p h = go p.globals.config
  where
    go :
        (o : Option Config)
        → Survives NoServer (elim o as (λ _. Outcome Process) [
          | none ↦ panic
          | some c ↦ ok (record p { http = up; http_server = some (new_http_server c) })
        ])
    go none = tt
    go (some c) = h

accept_in-NoServer :
    (env : Env) (c : Connection) (w : World) (p : Process)
    → NoServer p
    → Survives NoServer (accept_in env c none w p)
unfolding accept_in create_router_on_worker
accept_in-NoServer env c w p h =
    go (lookup c.room_id w.rooms)
      (handle_event env (connect c.user_id c.peer_id c.room_id c.remote_address c.req_id panic) w)
  where
    go :
        (r : Option Room) (o : Outcome (Unit {0} × World))
        → Survives NoServer (elim o as (λ _. Outcome Process) [
          | ok (_, w') ↦ ok (record p {
            globals = record (p.globals) {
              room_manager = some w';
              rtc_server = elim r [ none ↦ none | some _ ↦ none ];
            };
          })
          | err x ↦ err x
          | panic ↦ panic
        ])
    go none (ok (_, w')) = (h.0, refl)
    go (some r) (ok (_, w')) = (h.0, refl)
    go r (err x) = tt
    go r panic = tt

accept-NoServer :
    (env : Env) (c : Connection) (p : Process) → NoServer p → Survives NoServer (accept env c p)
unfolding accept
accept-NoServer env c p h = go p.globals.rtc_server p.globals.room_manager h.1
  where
    go :
        (o : Option WebRtcServer) (m : Option World)
        → o ≡ none
        → Survives NoServer (elim m [ none ↦ panic | some w ↦ accept_in env c o w p ])
    go none none e = tt
    go none (some w) e = accept_in-NoServer env c w p h
    go (some s) m e = absurd (cc)

step-NoServer : (env : Env) (x : Step) (p : Process) → NoServer p → Survives NoServer (step env x p)
unfolding step
step-NoServer env wss_up p h = h
step-NoServer env wss_down p h = h
step-NoServer env (grpc_listen b) p h = (rw h.0 refl, h.1)
step-NoServer env grpc_up p h = ground (arith, h.0, h.1)
step-NoServer env grpc_down p h = (rw h.0 refl, h.1)
step-NoServer env http_up p h =
    Survives-if NoServer (is_ready p.http) _ _ (start_http-NoServer p h) h
step-NoServer env http_down p h = h
step-NoServer env (connection c) p h =
    Survives-if NoServer (is_up p.wss) _ _ (accept-NoServer env c p h) h
step-NoServer env (worker_message t m now b) p h = ground (arith, h.0, h.1)

-- Where the gRPC port cannot be had, the other servers run on, and every connection from then on
-- makes the process panic, whatever else happens in between.
pub grpc_listen-panics :
    (env : Env) (decode : String → Option RouterRtpCapabilities) (file : Option String)
    (xs ys : List Step) (p q : Process) (c : Connection)
    → main env decode file xs ≡ some (ok p)
    → p.grpc ≡ ready
    → run env (grpc_listen false ∷ ys) p ≡ ok q
    → q.wss ≡ up
    → step env (connection c) q ≡ panic
unfolding run step
grpc_listen-panics env decode file xs ys p q c e hg r hw =
    let h = main-IsRunning env decode file xs p e in
    let p' : Process = record p { grpc = advance ready p.grpc done } in
    let s : NoServer p' = (rw hg refl, subst (λ t. ServerOf t p.globals.rtc_server) hg h.server) in
    let kept : NoServer q =
      subst (Survives NoServer) r (run-Survives NoServer env (step-NoServer env) ys p' s) in
    let alive : IsRunning q =
      subst (Survives IsRunning) r
        (run-Survives IsRunning env (step-IsRunning env) (grpc_listen false ∷ ys) p h) in
    early-panics env c q alive.started hw kept.1

-- ===== src/Startup/Running.antt =====
-- The process that `main` starts, in whatever order its goroutines run.
use singal.Common.{
  if◌then◌else◌, ◌≡◌, refl, Bool, true, false, String, Option, none, some, List, [], ◌∷◌, arith, ℕ,
  sym,
}
use mathlib.Core.Path.{subst}
use singal.Conference.{Env, World}
use singal.Rtc.Media.{Outcome, ok, err, panic}
use singal.Server.{sync_message, WebRtcServer, Session, new_web_rtc_server}
use singal.Proto.{WorkerToServer}
use singal.Settings.{Config, RouterRtpCapabilities, new_http_server}
use singal.Startup.{Globals, main_start, set_rtc_server}
use singal.Startup.Process.{
  Thread, ready, bound, up, done, advance, Process, Connection, Step, wss_up, wss_down, grpc_up,
  grpc_down, http_up, http_down, grpc_listen, connection, worker_message, is_up, is_bound, is_ready,
  start_http, accept_in, accept, serve_worker, step, run, main,
}
use singal.Startup.Reached.{
  IsStarted, RoomsOf, Survives, Survives-if, Survives-map, accept_in_early, accept_in-Survives,
  set_rtc_server-IsStarted, serve_worker-IsStarted, main_start-IsStarted,
}

-- There is no server before `StartGrpcServer` listens and makes one.
abbrev pub ServerOf : Thread → Option WebRtcServer → Type 0
ServerOf ready o = o ≡ none
ServerOf bound o = o ≡ none
ServerOf up o = (s : WebRtcServer) × (o ≡ some s)
ServerOf done o = Unit

pub record IsRunning (p : Process) : Type 0 where
  pub started : IsStarted p.globals
  pub server : ServerOf p.grpc p.globals.rtc_server

ServerOf-some :
    (t : Thread) (o : Option WebRtcServer) (s : WebRtcServer) (t' : Thread)
    (o' : Option WebRtcServer) (s' : WebRtcServer)
    → ServerOf t o
    → o ≡ some s
    → t' ≡ t
    → o' ≡ some s'
    → ServerOf t' o'
ServerOf-some ready o s t' o' s' h e f g = absurd (cc)
ServerOf-some bound o s t' o' s' h e f g = absurd (cc)
ServerOf-some up o s t' o' s' h e f g = subst (λ t. ServerOf t o') (sym f) (s', g)
ServerOf-some done o s t' o' s' h e f g = subst (λ t. ServerOf t o') (sym f) tt

listened :
    (b : Bool) (t : Thread) (o : Option WebRtcServer)
    → ServerOf t o
    → ServerOf (advance ready t (if b then bound else done)) o
listened true ready o h = h
listened false ready o h = tt
listened b bound o h = h
listened b up o h = h
listened b done o h = h

stopped : (t : Thread) (o : Option WebRtcServer) → ServerOf t o → ServerOf (advance up t done) o
stopped ready o h = h
stopped bound o h = h
stopped up o h = tt
stopped done o h = h

accept-IsRunning :
    (env : Env) (c : Connection) (p : Process) → IsRunning p → Survives IsRunning (accept env c p)
unfolding accept
accept-IsRunning env c p h = go p.globals.rtc_server p.globals.room_manager refl h.started.rooms
  where
    go :
        (o : Option WebRtcServer) (m : Option World)
        → p.globals.rtc_server ≡ o
        → RoomsOf o m
        → Survives IsRunning (elim m [ none ↦ panic | some w ↦ accept_in env c o w p ])
    go o none e r = tt
    go none (some w) e (v, f, g) =
        subst (Survives IsRunning) (sym (accept_in_early env c w p (ground (arith, f, g)))) tt
    go (some s) (some w) e r =
        Survives-map (accept_in env c (some s) w p)
          (λ q (x, f, (s', g)). record {
            started = x;
            server =
                ServerOf-some p.grpc p.globals.rtc_server s q.grpc q.globals.rtc_server s' h.server
                  e f g;
          })
          (accept_in-Survives env c s w p h.started)

serve_grpc-IsRunning :
    (b : Bool) (p : Process)
    → IsRunning p
    → IsRunning (if b then record p { grpc = up; globals = set_rtc_server p.globals } else p)
serve_grpc-IsRunning false p h = h
serve_grpc-IsRunning true p h = record {
  started = set_rtc_server-IsStarted p.globals h.started;
  server = (new_web_rtc_server, unfold set_rtc_server in refl);
}

start_http-IsRunning : (p : Process) → IsRunning p → Survives IsRunning (start_http p)
unfolding start_http
start_http-IsRunning p h = go p.globals.config
  where
    go :
        (o : Option Config)
        → Survives IsRunning (elim o as (λ _. Outcome Process) [
          | none ↦ panic
          | some c ↦ ok (record p { http = up; http_server = some (new_http_server c) })
        ])
    go none = tt
    go (some c) = record { started = h.started; server = h.server }

served :
    (t : Session) (m : WorkerToServer) (now : ℕ) (sent_ok : Bool) (p : Process)
    → IsRunning p
    → ServerOf p.grpc (serve_worker t m now sent_ok p.globals).rtc_server
unfolding serve_worker
served t m now sent_ok p h = go p.globals.rtc_server refl
  where
    go :
        (o : Option WebRtcServer)
        → p.globals.rtc_server ≡ o
        → ServerOf p.grpc
            (elim o as (λ _. Globals) [
              | none ↦ p.globals
              | some v ↦ record (p.globals) { rtc_server = some (sync_message v t m now sent_ok).0 }
            ]).rtc_server
    go none e = h.server
    go (some s) e = ServerOf-some p.grpc p.globals.rtc_server s p.grpc _ _ h.server e refl refl

pub step-IsRunning :
    (env : Env) (x : Step) (p : Process) → IsRunning p → Survives IsRunning (step env x p)
unfolding step
step-IsRunning env wss_up p h = record { started = h.started; server = h.server }
step-IsRunning env wss_down p h = record { started = h.started; server = h.server }
step-IsRunning env (grpc_listen b) p h = record {
  started = h.started;
  server = listened b p.grpc p.globals.rtc_server h.server;
}
step-IsRunning env grpc_up p h = serve_grpc-IsRunning (is_bound p.grpc) p h
step-IsRunning env grpc_down p h = record {
  started = h.started;
  server = stopped p.grpc p.globals.rtc_server h.server;
}
step-IsRunning env http_up p h =
    Survives-if IsRunning (is_ready p.http) _ _ (start_http-IsRunning p h) h
step-IsRunning env http_down p h = record { started = h.started; server = h.server }
step-IsRunning env (connection c) p h =
    Survives-if IsRunning (is_up p.wss) _ _ (accept-IsRunning env c p h) h
step-IsRunning env (worker_message t m now b) p h =
    Survives-if IsRunning (is_up p.grpc) _ _
      (record {
        started = serve_worker-IsStarted t m now b p.globals h.started;
        server = served t m now b p h;
      })
      h

-- What every step keeps, a run keeps.
pub run-Survives :
    (P : Process → Type 0) (env : Env)
    → ((x : Step) (p : Process) → P p → Survives P (step env x p))
    → (xs : List Step) (p : Process) → P p
    → Survives P (run env xs p)
unfolding run
run-Survives P env keeps [] p h = h
run-Survives P env keeps (x ∷ xs) p h =
    go (step env x p) (run-Survives P env keeps xs) (keeps x p h)
  where
    go :
        (o : Outcome Process)
        → ((q : Process) → P q → Survives P (run env xs q))
        → Survives P o
        → Survives P (elim o as (λ _. Outcome Process) [
          | ok q ↦ run env xs q
          | err e ↦ err e
          | panic ↦ panic
        ])
    go (ok q) rest h = rest q h
    go (err e) rest h = tt
    go panic rest h = tt

-- The process that `main` starts, before its goroutines run.
abbrev pub started_process : Globals → Process
started_process g = record {
  globals = g;
  wss = ready;
  grpc = ready;
  http = ready;
  http_server = none;
}

pub started_process-IsRunning :
    (decode : String → Option RouterRtpCapabilities) (file : Option String) (g : Globals)
    → main_start decode file ≡ some g
    → IsRunning (started_process g)
started_process-IsRunning decode file g e =
    let (s, f) = main_start-IsStarted decode file g e in record { started = s; server = f }

pub main-IsRunning :
    (env : Env) (decode : String → Option RouterRtpCapabilities) (file : Option String)
    (xs : List Step) (p : Process)
    → main env decode file xs ≡ some (ok p)
    → IsRunning p
unfolding main
main-IsRunning env decode file xs p e = go (main_start decode file) refl e
  where
    go :
        (o : Option Globals)
        → main_start decode file ≡ o
        → elim o as (λ _. Option (Outcome Process)) [
          | none ↦ none
          | some g ↦ some (run env xs (started_process g))
        ]
          ≡ some (ok p)
        → IsRunning p
    go none f e = absurd (cc)
    go (some g) f e =
        let same : run env xs (started_process g) ≡ ok p = cc in
        subst (Survives IsRunning) same (
          run-Survives IsRunning env (step-IsRunning env) xs (started_process g)
            (started_process-IsRunning decode file g f))

-- However the goroutines of `main` interleave, with connections and messages of workers in any order:
-- where the process lives, the configuration and the room manager are there, no redis client, database
-- or email service is, and there is no room before there is a gRPC server.
pub main-IsStarted :
    (env : Env) (decode : String → Option RouterRtpCapabilities) (file : Option String)
    (xs : List Step) (p : Process)
    → main env decode file xs ≡ some (ok p)
    → IsStarted p.globals
main-IsStarted env decode file xs p e = (main-IsRunning env decode file xs p e).started

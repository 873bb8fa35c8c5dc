-- ===== src/Examples/Servers.antt =====
-- A server with two workers on two streams and a request in flight.
use singal.Common.{ℕ, ◌≡◌, refl, true, false, none, some, List, [], ◌∷◌, ◌++◌, arith, str_ne}
use singal.Dict.{lookup, insert}
use singal.Proto.{WorkerToServer, ServerPayload, WorkerRegister, WorkerPayload}
use singal.Workers.{get_worker}
use singal.Server.{
  WebRtcServer, Session, Ticket, waiting, failed, send_failed, worker_offline, sync_end,
  sync_register, sync_response, start_request, time_out, receive, get_worker_stream, pending_of,
  has_seq, new_web_rtc_server,
}
use singal.Server.Invariant.{
  IsSound, Event, message, start, end, expire, run, step, run-new-IsSound,
}
use singal.Server.Requests.{
  IsWaiting, start_request-IsWaiting, sync_response-receive, start_request-send_failed,
}
use singal.Server.Sessions.{register-drops_pending, stale_end-offline}
use singal.Server.Delivery.{run-Moves, run-final}
use singal.Server.Lives.{Moves, life, awaited, answered}
use singal.Server.{new_session, sync_message}
use singal.Workers.{register_worker}
use singal.Examples.Registries.{two_workers}

-- Request 5 waits on the first stream.
abbrev pub served : WebRtcServer
served = record {
  manager = two_workers;
  workers = ("w1", 0) ∷ ("w2", 1) ∷ [];
  heap = record { stream = 11; pending = 5 ∷ [] } ∷ record { stream = 12; pending = [] } ∷ [];
  next_id = 5;
  channels = [];
  sent = [];
}

abbrev pub session_1 : Session
session_1 = record { stream = 11; worker_id = "w1"; ws = some 0 }

abbrev session_2 : Session
session_2 = record { stream = 12; worker_id = "w2"; ws = some 1 }

abbrev pub ticket_5 : Ticket
ticket_5 = record { ws = 0; seq = 5 }

abbrev pub router_made : ℕ → WorkerToServer
router_made n = record {
  seq_id = n;
  payload =
      WorkerPayload.create_router_res
        (record { router_id = "r1"; success = true; error_detail = "" });
}

abbrev make_router : ServerPayload
make_router =
    ServerPayload.create_router_req
      (record { worker_id = "w2"; room_id = "r2"; server_id = "s"; method = "create"; info = none })

abbrev registration : WorkerRegister
registration = record {
  worker_id = "w1";
  public_ip = "192.0.2.9";
  public_port = 4000;
  use_udp = true;
  router_count = 0;
  cpu_usage = 0;
  memory_usage = 0;
}

served-IsSound : IsSound served
served-IsSound = record {
  waits = ((omega arith, tt), (tt, tt));
  answered = tt;
  pointers = (omega arith, (omega arith, tt));
}

pub served-IsWaiting : IsWaiting served ticket_5
unfolding receive
served-IsWaiting = record { registered = refl; unanswered = refl; in_heap = omega arith }

abbrev history : List Event
history =
    message (record { stream = 11; worker_id = ""; ws = none })
      (record { seq_id = 1; payload = WorkerPayload.worker_register registration }) 0 true
    ∷ start "w1" make_router true
    ∷ message session_1 (router_made 1) 3 true
    ∷ end session_1
    ∷ []

run-new-IsSound_example : IsSound (run new_web_rtc_server history)
run-new-IsSound_example = run-new-IsSound history (omega arith)

start_request-IsWaiting_example :
    let k : Ticket = record { ws = 1; seq = 6 } in
    let s = (start_request served "w2" make_router true).0 in
    ((start_request served "w2" make_router true).1 ≡ waiting k)
    × IsWaiting s k
    × (s.sent ≡ (12, record { seq_id = 6; payload = make_router }) ∷ [])
    × (has_seq 6 (pending_of 0 s.heap) ≡ false)
unfolding get_worker_stream lookup
start_request-IsWaiting_example =
    start_request-IsWaiting served "w2" make_router 1 0 served-IsSound (omega arith) refl
      (omega arith)

sync_response-receive_example :
    (receive (sync_response served session_1 (router_made 5)) ticket_5 ≡ some (router_made 5))
    × (sync_response (sync_response served session_1 (router_made 5)) session_1 (router_made 5)
        ≡ sync_response served session_1 (router_made 5))
sync_response-receive_example =
    sync_response-receive served session_1 ticket_5 (router_made 5) (router_made 5) served-IsWaiting
      refl refl refl

start_request-send_failed_example :
    ((start_request served "w1" make_router false).1 ≡ failed send_failed)
    × (pending_of 0 (start_request served "w1" make_router false).0.heap ≡ 5 ∷ [])
unfolding get_worker_stream lookup
start_request-send_failed_example =
    start_request-send_failed served "w1" make_router 0 0 served-IsSound (omega arith) refl

register-drops_pending_example :
    let r = sync_register served session_1 9 registration 7 true in
    sync_response r.0 r.1 (router_made 5) ≡ r.0
register-drops_pending_example =
    register-drops_pending served session_1 9 registration 7 (router_made 5)

stale_end-offline_example :
    let s = sync_end (sync_register served session_2 9 registration 7 true).0 session_1 in
    ((start_request s "w1" make_router true).1 ≡ failed worker_offline)
    × (get_worker s.manager "w1" ≡ none)
stale_end-offline_example =
    stale_end-offline served session_1 session_2 9 7 registration make_router true
      (str_ne "w1" "" refl) refl

abbrev one_request : List Event
one_request =
    message (new_session 11)
      (record { seq_id = 7; payload = WorkerPayload.worker_register registration }) 20 true
    ∷ start "w1" make_router true
    ∷ []

run-Moves_example : Moves 1 awaited (answered (router_made 1))
unfolding run step life sync_message sync_register sync_end new_session start_request
    get_worker_stream sync_response new_web_rtc_server register_worker lookup insert
run-Moves_example =
    run-Moves one_request (message session_1 (router_made 1) 30 true) 1 (omega arith)

run-final_example :
    life
      (run
        (run new_web_rtc_server (one_request ++ message session_1 (router_made 1) 30 true ∷ []))
        (expire (record { ws = 0; seq = 1 }) ∷ []))
      1
    ≡ answered (router_made 1)
unfolding run step life sync_message sync_register sync_end new_session start_request
    get_worker_stream sync_response new_web_rtc_server register_worker lookup insert time_out
run-final_example =
    run-final (one_request ++ message session_1 (router_made 1) 30 true ∷ [])
      (expire (record { ws = 0; seq = 1 }) ∷ []) 1 (answered (router_made 1)) (omega arith) refl
      refl

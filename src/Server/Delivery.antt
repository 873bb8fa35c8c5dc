-- ===== src/Server/Delivery.antt =====
-- Every history of the server refines the life of each request.
use singal.Common.{ℕ, ◌+◌, ◌<◌, ◌≤◌, ◌≡◌, refl, true, List, [], ◌∷◌, arith, length}
use mathlib.Core.Path.{subst}
use singal.Server.{WebRtcServer, time_out, uint64_mod, new_web_rtc_server}
use singal.Server.Invariant.{
  Event, end, message, start, expire, step, run, step-IsSound, next_id-step,
}
use singal.Server.Lives.{
  unissued, awaited, Life, answered, gone, Moves, stays, life, is_final, IsTidy,
}
use singal.Server.Refines.{Refines, end-Refines, dequeue-Refines, message-Refines, start-Refines}

step-Refines :
    (s : WebRtcServer) (e : Event) → s.next_id + 1 < uint64_mod → IsTidy s → Refines s (step s e)
unfolding step time_out
step-Refines s (end t) h v = end-Refines s t v
step-Refines s (message t m now ok) h v = message-Refines s t m.seq_id m.payload now ok v
step-Refines s (start id payload ok) h v = start-Refines s id payload ok h v
step-Refines s (expire k) h v = dequeue-Refines s k.ws k.seq v

step-IsTidy :
    (s : WebRtcServer) (e : Event) → s.next_id + 1 < uint64_mod → IsTidy s → IsTidy (step s e)
step-IsTidy s e h v =
    let r = step-Refines s e h v in
    record { sound = step-IsSound s e h v.sound; single = r.single; empty = r.empty }

run-IsTidy :
    (s : WebRtcServer) (es : List Event)
    → s.next_id + length es < uint64_mod
    → IsTidy s
    → IsTidy (run s es) × ((run s es).next_id ≤ s.next_id + length es)
unfolding run
run-IsTidy s [] h v = (v, omega arith)
run-IsTidy s (e ∷ es) h v =
    let n : (step s e).next_id ≤ s.next_id + 1 = next_id-step s e (omega arith) in
    let (u, m) = run-IsTidy (step s e) es (omega arith) (step-IsTidy s e (omega arith) v) in
    (u, omega arith)

new-IsTidy : IsTidy new_web_rtc_server
unfolding new_web_rtc_server
new-IsTidy = record {
  sound = record { waits = tt; answered = tt; pointers = tt };
  single = λ n. refl;
  empty = λ n h. refl;
}

-- In every history of fewer than 2^64 steps of streams and requests on a new server, each step is
-- at most one step in the life of each sequence id: it is given out once, and then its request
-- either gets one response, with that id, or is given up for good.
pub run-Moves :
    (es : List Event) (e : Event) (n : ℕ)
    → length es + 1 < uint64_mod
    → Moves n (life (run new_web_rtc_server es) n) (life (step (run new_web_rtc_server es) e) n)
unfolding run new_web_rtc_server
run-Moves es e n h =
    let (v, m) = run-IsTidy new_web_rtc_server es start_room new-IsTidy in
    (step-Refines (run new_web_rtc_server es) e (omega (arith, m)) v).moves n
  where
    start_room : new_web_rtc_server.next_id + length es < uint64_mod
    start_room = omega arith

-- Nothing follows a response, or giving up.
final-Moves : (n : ℕ) (a b : Life) → is_final a ≡ true → Moves n a b → b ≡ a
final-Moves n unissued b h e = absurd (cc)
final-Moves n awaited b h e = absurd (cc)
final-Moves n (answered m) b h (stays _) = refl
final-Moves n gone b h (stays _) = refl

run-final_life :
    (s : WebRtcServer) (es : List Event) (n : ℕ) (a : Life)
    → s.next_id + length es < uint64_mod
    → IsTidy s
    → is_final a ≡ true
    → life s n ≡ a
    → life (run s es) n ≡ a
unfolding run
run-final_life s [] n a h v f e = e
run-final_life s (d ∷ ds) n a h v f e =
    let k : (step s d).next_id ≤ s.next_id + 1 = next_id-step s d (omega arith) in
    run-final_life (step s d) ds n a (omega arith) (step-IsTidy s d (omega arith) v) f (
      final-Moves n a (life (step s d) n) f
        (subst (λ b. Moves n b (life (step s d) n)) e ((step-Refines s d (omega arith) v).moves n)))

-- In every history of fewer than 2^64 steps on a new server, a sequence id that has its response, or
-- whose request was given up, after some of the steps, has that same fate after all of them.
pub run-final :
    (es fs : List Event) (n : ℕ) (a : Life)
    → length es + length fs < uint64_mod
    → is_final a ≡ true
    → life (run new_web_rtc_server es) n ≡ a
    → life (run (run new_web_rtc_server es) fs) n ≡ a
unfolding new_web_rtc_server
run-final es fs n a h f e =
    let (v, k) = run-IsTidy new_web_rtc_server es (omega arith) new-IsTidy in
    run-final_life (run new_web_rtc_server es) fs n a (omega (arith, k)) v f e

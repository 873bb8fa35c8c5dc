-- ===== src/Examples/Registries.antt =====
-- A registry of two workers.
use singal.Common.{ℕ, ◌≡◌, refl, true, String, some, List, [], ◌∷◌, Elem, inl, inr}
use singal.Dict.{lookup}
use singal.Workers.{
  online, Worker, WorkerManager, get_worker, get_online_workers, choose_best_worker, remove_router,
  update_worker_stats, new_worker_manager,
}
use singal.Workers.Choice.{IsBest, choose_best_worker-IsBest}
use singal.Workers.Registry.{IsValid, Call, register, beat, add, close, tick, run, run-new-IsValid}
use singal.Workers.Counting.{remove_router_wraps}
use singal.Examples.Routers.{busy_router}

abbrev pub worker_of : String → ℕ → Worker
worker_of id cpu = record {
  worker_id = id;
  public_ip = "192.0.2.1";
  public_port = 4000;
  use_udp = true;
  status = online;
  router_count = 1;
  cpu_usage = cpu;
  memory_usage = 10;
  last_heartbeat = 100_000_000_000;
  routers = ("r1", busy_router) ∷ [];
}

abbrev pub two_workers : WorkerManager
two_workers = record { workers = ("w1", worker_of "w1" 70) ∷ ("w2", worker_of "w2" 20) ∷ [] }

other_order : (a b w : Worker) → Elem w (a ∷ b ∷ []) → Elem w (b ∷ a ∷ [])
other_order a b w (inl e) = inr (inl e)
other_order a b w (inr (inl e)) = inl e
other_order a b w (inr (inr e)) = elim e [ ]

choose_best_worker-IsBest_example :
    IsBest
      (get_online_workers two_workers 120_000_000_000)
      (choose_best_worker two_workers 120_000_000_000)
choose_best_worker-IsBest_example = choose_best_worker-IsBest two_workers 120_000_000_000

abbrev calls : List Call
calls =
    register "w1" "192.0.2.1" 4000 true 0
    ∷ add "w1" busy_router
    ∷ beat "w1" 5
    ∷ close "w1" "r1"
    ∷ tick 9
    ∷ []

run-new-IsValid_example : IsValid (run new_worker_manager calls)
run-new-IsValid_example = run-new-IsValid calls

remove_router_wraps_example :
    (w : Worker) × (get_worker
        (remove_router (update_worker_stats two_workers "w1" 0 5 5 9).0 "w1" "r1").0
        "w1"
      ≡ some w)
    × (w.router_count ≡ 4294967295)
unfolding get_worker lookup
remove_router_wraps_example =
    remove_router_wraps two_workers "w1" "r1" (worker_of "w1" 70) busy_router 5 5 9 refl refl

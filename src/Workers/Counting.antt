-- ===== src/Workers/Counting.antt =====
-- The router count of a worker against the routers that the registry holds for it.
use singal.Common.{ℕ, ◌+◌, ◌-◌, ◌%◌, ◌≡◌, refl, true, String, none, some, arith, length}
use singal.Dict.{
  lookup-delete_self, lookup, insert, delete, IsMap, lookup-insert_self, length-insert,
  length-delete,
}
use singal.Router.{Router}
use singal.Workers.{
  Worker, WorkerManager, uint32_mod, update_worker_stats, add_router, remove_router, get_worker,
}

-- The count that the choice of a worker goes by is the number of routers.
abbrev pub IsCounted : Worker → Type 0
IsCounted w = w.router_count ≡ length w.routers % uint32_mod

-- A new router on a known worker is counted, and other workers stay as they are.
pub add_router-IsCounted :
    (wm : WorkerManager) (id : String) (r : Router) (w : Worker)
    → get_worker wm id ≡ some w
    → IsCounted w
    → lookup r.router_id w.routers ≡ none
    → (w' : Worker) × (get_worker (add_router wm id r).0 id ≡ some w')
      × IsCounted w'
      × (lookup r.router_id w'.routers ≡ some r)
      × ((add_router wm id r).1 ≡ true)
unfolding add_router get_worker
add_router-IsCounted wm id r w e c fresh = (
  record w {
    routers = insert r.router_id r w.routers;
    router_count = (w.router_count + 1) % uint32_mod;
  },
  rw (e, add_router) (lookup-insert_self id _ wm.workers),
  ground (arith, length-insert r.router_id r w.routers),
  lookup-insert_self r.router_id r w.routers,
  rw (e, add_router),
)

-- `RemoveRouter` of a router that a worker holds, whose routers have distinct ids and are counted,
-- returns true; the router is gone and the routers are still counted.
pub remove_router-IsCounted :
    (wm : WorkerManager) (id router_id : String) (w : Worker) (r : Router)
    → get_worker wm id ≡ some w
    → IsMap w.routers
    → IsCounted w
    → lookup router_id w.routers ≡ some r
    → (w' : Worker) × (get_worker (remove_router wm id router_id).0 id ≡ some w')
      × IsCounted w'
      × (lookup router_id w'.routers ≡ none)
      × ((remove_router wm id router_id).1 ≡ true)
unfolding remove_router get_worker
remove_router-IsCounted wm id router_id w r e keys c held = (
  record w {
    routers = delete router_id w.routers;
    router_count = (w.router_count + (uint32_mod - 1)) % uint32_mod;
  },
  rw (e, remove_router) (rw held (lookup-insert_self id _ wm.workers)),
  ground (arith, length-delete router_id w.routers keys),
  lookup-delete_self router_id w.routers,
  rw (e, remove_router) (rw held),
)

-- A worker that reports no router while the registry holds one for it has, once that router is
-- closed, the count 2^32 - 1.
pub remove_router_wraps :
    (wm : WorkerManager) (id router_id : String) (w : Worker) (r : Router) (cpu mem now : ℕ)
    → get_worker wm id ≡ some w
    → lookup router_id w.routers ≡ some r
    → (w' : Worker) × (get_worker
          (remove_router (update_worker_stats wm id 0 cpu mem now).0 id router_id).0
          id
        ≡ some w')
      × (w'.router_count ≡ 4294967295)
unfolding get_worker remove_router update_worker_stats
remove_router_wraps wm id router_id w r cpu mem now e held = (
  record w {
    router_count = 4294967295;
    cpu_usage = cpu;
    memory_usage = mem;
    last_heartbeat = now;
    routers = delete router_id w.routers;
  },
  rw (e, update_worker_stats)
      (rw (lookup-insert_self id _ wm.workers, remove_router)
        (rw held (lookup-insert_self id _ _))),
  refl,
)

-- ===== src/Workers.antt =====
-- The registry of media workers: `Worker` of src/server/worker.go and `WorkerManager` of
-- src/server/workerManager.go. Times are nanoseconds; `now` is an argument of each call.
pub mod Choice
pub mod Cleanup
pub mod Registry
pub mod Counting
use singal.Common.{
  ℕ, ◌+◌, ◌-◌, ◌*◌, ◌/◌, ◌%◌, ℤ, sub_ℕ, ltb_ℤ, Bool, true, false, ◌&&◌, String, Option, none, some,
  List, [], ◌∷◌, ltb, if◌then◌else◌, length,
}
use singal.Dict.{Dict, lookup, insert, delete}
use singal.Router.{Router}

pub data WorkerStatus : Type 0 where
  offline online busy : WorkerStatus

pub record Worker : Type 0 where
  pub worker_id : String
  pub public_ip : String
  pub public_port : ℕ
  pub use_udp : Bool
  pub status : WorkerStatus
  pub router_count : ℕ
  pub cpu_usage : ℕ
  pub memory_usage : ℕ
  pub last_heartbeat : ℕ
  pub routers : Dict Router

pub record WorkerManager : Type 0 where
  pub workers : Dict Worker

abbrev pub uint32_mod : ℕ
uint32_mod = 4294967296

abbrev pub heartbeat_timeout : ℕ
heartbeat_timeout = 60_000_000_000

unfoldable pub new_worker_manager : WorkerManager
new_worker_manager = record { workers = [] }

-- A worker that is known keeps its address and its routers.
unfoldable pub register_worker :
    WorkerManager → String → String → ℕ → Bool → ℕ → WorkerManager × Worker
register_worker wm id public_ip public_port use_udp now = elim (lookup id wm.workers) [
  | some w ↦
      let w' : Worker = record w { last_heartbeat = now; status = online } in
      (record wm { workers = insert id w' wm.workers }, w')
  | none ↦
      let w' : Worker = record {
        worker_id = id;
        public_ip = public_ip;
        public_port = public_port;
        use_udp = use_udp;
        status = online;
        router_count = 0;
        cpu_usage = 0;
        memory_usage = 0;
        last_heartbeat = now;
        routers = [];
      } in
      (record wm { workers = insert id w' wm.workers }, w')
]

unfoldable pub update_worker_stats : WorkerManager → String → ℕ → ℕ → ℕ → ℕ → WorkerManager × Bool
update_worker_stats wm id router_count cpu_usage memory_usage now = elim (lookup id wm.workers) [
  | none ↦ (wm, false)
  | some w ↦ (
    record wm {
      workers =
          insert id
            (record w {
              router_count = router_count;
              cpu_usage = cpu_usage;
              memory_usage = memory_usage;
              last_heartbeat = now;
            })
            wm.workers;
    },
    true,
  )
]

unfoldable pub heartbeat : WorkerManager → String → ℕ → WorkerManager × Bool
heartbeat wm id now = elim (lookup id wm.workers) [
  | none ↦ (wm, false)
  | some w ↦
      (record wm { workers = insert id (record w { last_heartbeat = now }) wm.workers }, true)
]

-- The status is written to the worker before its entry is deleted.
unfoldable pub remove_worker : WorkerManager → String → WorkerManager
remove_worker wm id = elim (lookup id wm.workers) [
  | none ↦ wm
  | some w ↦ record wm {
    workers = delete id (insert id (record w { status = offline }) wm.workers);
  }
]

unfoldable pub get_worker : WorkerManager → String → Option Worker
get_worker wm id = lookup id wm.workers

abbrev pub values : {V : Type 0} → Dict V → List V
values [] = []
values ((k, v) ∷ m) = v ∷ values m

unfoldable pub get_all_workers : WorkerManager → List Worker
get_all_workers wm = values wm.workers

abbrev pub is_online_status : WorkerStatus → Bool
is_online_status online = true
is_online_status _ = false

-- Online, and heard of within the timeout.
abbrev pub is_online : ℕ → Worker → Bool
is_online now w = is_online_status w.status && ltb (now - w.last_heartbeat) heartbeat_timeout

unfoldable pub online_of : ℕ → List Worker → List Worker
online_of now [] = []
online_of now (w ∷ ws) = let rest = online_of now ws in if is_online now w then w ∷ rest else rest

unfoldable pub get_online_workers : WorkerManager → ℕ → List Worker
get_online_workers wm now = online_of now (values wm.workers)

-- `int64(1000) - int64(routerCount*10) - int64(cpuUsage) - int64(memoryUsage/2)`, where the product
-- is taken in uint32.
abbrev pub load : Worker → ℕ
load w = w.router_count * 10 % uint32_mod + w.cpu_usage + w.memory_usage / 2

unfoldable pub score : Worker → ℤ
score w = sub_ℕ 1000 (load w)

-- The loop of `ChooseBestWorker` over the online workers, with the best so far.
unfoldable pub best_from : Option Worker → List Worker → Option Worker
best_from best [] = best
best_from none (w ∷ ws) = best_from (some w) ws
best_from (some b) (w ∷ ws) = best_from (some (if ltb_ℤ (score b) (score w) then w else b)) ws

unfoldable pub choose_best_worker : WorkerManager → ℕ → Option Worker
choose_best_worker wm now = best_from none (get_online_workers wm now)

-- One tick of `cleanupWorkers`. The status that it writes goes to a worker that leaves the map.
unfoldable pub drop_stale : ℕ → Dict Worker → Dict Worker
drop_stale now [] = []
drop_stale now ((id, w) ∷ m) =
    let rest = drop_stale now m in
    if ltb heartbeat_timeout (now - w.last_heartbeat) then rest else (id, w) ∷ rest

unfoldable pub cleanup_workers : WorkerManager → ℕ → WorkerManager
cleanup_workers wm now = record wm { workers = drop_stale now wm.workers }

unfoldable pub get_worker_count : WorkerManager → ℕ
get_worker_count wm = length wm.workers

unfoldable pub add_router : WorkerManager → String → Router → WorkerManager × Bool
add_router wm id r = elim (get_worker wm id) [
  | none ↦ (wm, false)
  | some w ↦ (
    record wm {
      workers =
          insert id
            (record w {
              routers = insert r.router_id r w.routers;
              router_count = (w.router_count + 1) % uint32_mod;
            })
            wm.workers;
    },
    true,
  )
]

-- `AddUint32(&routerCount, ^uint32(0))` takes one off, modulo 2^32.
unfoldable pub remove_router : WorkerManager → String → String → WorkerManager × Bool
remove_router wm id router_id = elim (get_worker wm id) [
  | none ↦ (wm, false)
  | some w ↦ elim (lookup router_id w.routers) [
    | none ↦ (wm, false)
    | some _ ↦ (
      record wm {
        workers =
            insert id
              (record w {
                routers = delete router_id w.routers;
                router_count = (w.router_count + (uint32_mod - 1)) % uint32_mod;
              })
              wm.workers;
      },
      true,
    )
  ]
]

-- ===== src/Workers/Registry.antt =====
-- What every sequence of calls keeps true of the registry.
use singal.Common.{
  ℕ, ◌<◌, ◌≡◌, refl, inl, inr, Bool, String, some, List, [], ◌∷◌, arith, Option-cases,
}
use singal.Dict.{
  Dict, lookup, insert, IsMap, insert-IsMap, delete-IsMap, AllEntries, AllEntries-insert,
  AllEntries-delete, AllEntries-lookup,
}
use singal.Router.{Router}
use singal.Common.{Bool-cases}
use singal.Workers.{
  offline, Worker, WorkerManager, uint32_mod, register_worker, update_worker_stats, heartbeat,
  remove_worker, cleanup_workers, drop_stale, add_router, remove_router, get_worker,
  new_worker_manager,
}
use singal.Workers.Cleanup.{drop_stale-IsMap, is_stale}

-- Under its own id, with a count in uint32 and each router once.
pub record IsValidWorker (id : String) (w : Worker) : Type 0 where
  pub named : w.worker_id ≡ id
  pub count_fits : w.router_count < uint32_mod
  pub routers_map : IsMap w.routers

pub record IsValid (wm : WorkerManager) : Type 0 where
  pub keys : IsMap wm.workers
  pub each : AllEntries IsValidWorker wm.workers

pub data Call : Type 0 where
  register : String → String → ℕ → Bool → ℕ → Call
  stats : String → (router_count : ℕ) → ℕ → ℕ → ℕ → router_count < uint32_mod → Call
  beat : String → ℕ → Call
  remove : String → Call
  tick : ℕ → Call
  add : String → Router → Call
  close : String → String → Call

unfoldable pub step : WorkerManager → Call → WorkerManager
step wm (register id ip port udp now) = (register_worker wm id ip port udp now).0
step wm (stats id rc cpu mem now _) = (update_worker_stats wm id rc cpu mem now).0
step wm (beat id now) = (heartbeat wm id now).0
step wm (remove id) = remove_worker wm id
step wm (tick now) = cleanup_workers wm now
step wm (add id r) = (add_router wm id r).0
step wm (close id router_id) = (remove_router wm id router_id).0

unfoldable pub run : WorkerManager → List Call → WorkerManager
unfolding step
run wm [] = wm
run wm (c ∷ cs) = run (step wm c) cs

insert-IsValid :
    (wm : WorkerManager) (id : String) (w : Worker)
    → IsValid wm
    → IsValidWorker id w
    → IsValid (record wm { workers = insert id w wm.workers })
insert-IsValid wm id w v h = record {
  keys = insert-IsMap id w wm.workers v.keys;
  each = AllEntries-insert IsValidWorker id w wm.workers h v.each;
}

known :
    (wm : WorkerManager) (id : String) (w : Worker)
    → IsValid wm
    → lookup id wm.workers ≡ some w
    → IsValidWorker id w
known wm id w v e = AllEntries-lookup IsValidWorker id w wm.workers e v.each

register-IsValid :
    (wm : WorkerManager) (id ip : String) (port : ℕ) (udp : Bool) (now : ℕ)
    → IsValid wm
    → IsValid (register_worker wm id ip port udp now).0
unfolding register_worker
register-IsValid wm id ip port udp now v = elim (Option-cases (lookup id wm.workers)) [
  | inl e ↦
      rw (e, register_worker)
        (insert-IsValid wm id _ v
          (record { named = refl; count_fits = omega arith; routers_map = tt }))
  | inr (w, e) ↦
      let k = known wm id w v e in
      rw (e, register_worker)
        (insert-IsValid wm id _ v
          (record { named = k.named; count_fits = k.count_fits; routers_map = k.routers_map }))
]

stats-IsValid :
    (wm : WorkerManager) (id : String) (rc cpu mem now : ℕ)
    → rc < uint32_mod
    → IsValid wm
    → IsValid (update_worker_stats wm id rc cpu mem now).0
unfolding update_worker_stats
stats-IsValid wm id rc cpu mem now h v = elim (Option-cases (lookup id wm.workers)) [
  | inl e ↦ rw (e, update_worker_stats) v
  | inr (w, e) ↦
      let k = known wm id w v e in
      rw (e, update_worker_stats)
        (insert-IsValid wm id _ v
          (record { named = k.named; count_fits = h; routers_map = k.routers_map }))
]

heartbeat-IsValid :
    (wm : WorkerManager) (id : String) (now : ℕ) → IsValid wm → IsValid (heartbeat wm id now).0
unfolding heartbeat
heartbeat-IsValid wm id now v = elim (Option-cases (lookup id wm.workers)) [
  | inl e ↦ rw (e, heartbeat) v
  | inr (w, e) ↦
      let k = known wm id w v e in
      rw (e, heartbeat)
        (insert-IsValid wm id _ v
          (record { named = k.named; count_fits = k.count_fits; routers_map = k.routers_map }))
]

remove-IsValid : (wm : WorkerManager) (id : String) → IsValid wm → IsValid (remove_worker wm id)
unfolding remove_worker
remove-IsValid wm id v = elim (Option-cases (lookup id wm.workers)) [
  | inl e ↦ rw (e, remove_worker) v
  | inr (w, e) ↦
      let k = known wm id w v e in
      let u =
        insert-IsValid wm id (record w { status = offline }) v
          (record { named = k.named; count_fits = k.count_fits; routers_map = k.routers_map }) in
      rw (e, remove_worker)
        (record {
          keys = delete-IsMap id _ u.keys;
          each = AllEntries-delete IsValidWorker id _ u.each;
        })
]

each-drop_stale :
    (now : ℕ) (m : Dict Worker)
    → AllEntries IsValidWorker m
    → AllEntries IsValidWorker (drop_stale now m)
unfolding drop_stale
each-drop_stale now [] h = tt
each-drop_stale now ((j, w) ∷ m) h = elim (Bool-cases (is_stale now w)) [
  | inl e ↦ rw (e, drop_stale) (each-drop_stale now m h.1)
  | inr e ↦ rw (e, drop_stale) (h.0, each-drop_stale now m h.1)
]

cleanup-IsValid : (wm : WorkerManager) (now : ℕ) → IsValid wm → IsValid (cleanup_workers wm now)
unfolding cleanup_workers
cleanup-IsValid wm now v = record {
  keys = drop_stale-IsMap now wm.workers v.keys;
  each = each-drop_stale now wm.workers v.each;
}

add-IsValid :
    (wm : WorkerManager) (id : String) (r : Router) → IsValid wm → IsValid (add_router wm id r).0
unfolding add_router get_worker
add-IsValid wm id r v = elim (Option-cases (lookup id wm.workers)) [
  | inl e ↦ rw (e, add_router) v
  | inr (w, e) ↦
      let k = known wm id w v e in
      rw (e, add_router)
        (insert-IsValid wm id _ v (record {
          named = k.named;
          count_fits = omega arith;
          routers_map = insert-IsMap r.router_id r w.routers k.routers_map;
        }))
]

close-IsValid :
    (wm : WorkerManager) (id router_id : String)
    → IsValid wm
    → IsValid (remove_router wm id router_id).0
unfolding remove_router get_worker
close-IsValid wm id router_id v = elim (Option-cases (lookup id wm.workers)) [
  | inl e ↦ rw (e, remove_router) v
  | inr (w, e) ↦
      let k = known wm id w v e in
      rw (e, remove_router)
        (elim (Option-cases (lookup router_id w.routers)) [
          | inl f ↦ rw f v
          | inr (r, f) ↦ rw f (
              insert-IsValid wm id _ v (record {
                named = k.named;
                count_fits = omega arith;
                routers_map = delete-IsMap router_id w.routers k.routers_map;
              }))
        ])
]

pub step-IsValid : (wm : WorkerManager) (c : Call) → IsValid wm → IsValid (step wm c)
unfolding step
step-IsValid wm (register id ip port udp now) v = register-IsValid wm id ip port udp now v
step-IsValid wm (stats id rc cpu mem now h) v = stats-IsValid wm id rc cpu mem now h v
step-IsValid wm (beat id now) v = heartbeat-IsValid wm id now v
step-IsValid wm (remove id) v = remove-IsValid wm id v
step-IsValid wm (tick now) v = cleanup-IsValid wm now v
step-IsValid wm (add id r) v = add-IsValid wm id r v
step-IsValid wm (close id router_id) v = close-IsValid wm id router_id v

run-IsValid : (wm : WorkerManager) (cs : List Call) → IsValid wm → IsValid (run wm cs)
unfolding run
run-IsValid wm [] v = v
run-IsValid wm (c ∷ cs) v = run-IsValid (step wm c) cs (step-IsValid wm c v)

-- After any sequence of calls on a new manager every worker is stored once and under its own id,
-- its router count fits uint32, and its routers have distinct ids.
pub run-new-IsValid : (cs : List Call) → IsValid (run new_worker_manager cs)
unfolding new_worker_manager
run-new-IsValid cs = run-IsValid _ cs (record { keys = tt; each = tt })

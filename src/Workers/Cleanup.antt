-- ===== src/Workers/Cleanup.antt =====
-- The cleanup tick against the heartbeat timeout.
use singal.Common.{
  ℕ, ◌-◌, ◌≡◌, refl, inl, inr, Bool, true, false, String, Option, none, some, [], ◌∷◌, arith,
  eq_iff, ltb, if◌then◌else◌, Bool-cases,
}
use singal.Dict.{Dict, lookup, IsMap}
use singal.Workers.{
  Worker, WorkerManager, heartbeat_timeout, is_online, online_of, values, drop_stale,
  cleanup_workers, get_worker, get_online_workers, choose_best_worker,
}

abbrev pub is_stale : ℕ → Worker → Bool
is_stale now w = ltb heartbeat_timeout (now - w.last_heartbeat)

abbrev pub unless_stale : ℕ → Option Worker → Option Worker
unless_stale now none = none
unless_stale now (some w) = if is_stale now w then none else some w

lookup-drop_stale_absent :
    (now : ℕ) (k : String) (m : Dict Worker)
    → lookup k m ≡ none
    → lookup k (drop_stale now m) ≡ none
unfolding lookup drop_stale
lookup-drop_stale_absent now k [] h = refl
lookup-drop_stale_absent now k ((j, w) ∷ m) h = ground (arith, lookup-drop_stale_absent now k m)

pub drop_stale-IsMap : (now : ℕ) (m : Dict Worker) → IsMap m → IsMap (drop_stale now m)
unfolding drop_stale
drop_stale-IsMap now [] h = tt
drop_stale-IsMap now ((j, w) ∷ m) h = elim (Bool-cases (is_stale now w)) [
  | inl e ↦ rw (e, drop_stale) (drop_stale-IsMap now m h.1)
  | inr e ↦ rw (e, drop_stale) (lookup-drop_stale_absent now j m h.0, drop_stale-IsMap now m h.1)
]

lookup-drop_stale :
    (now : ℕ) (k : String) (m : Dict Worker)
    → IsMap m
    → lookup k (drop_stale now m) ≡ unless_stale now (lookup k m)
unfolding lookup drop_stale
lookup-drop_stale now k [] h = refl
lookup-drop_stale now k ((j, w) ∷ m) h =
    ground (arith, lookup-drop_stale now k m h.1, lookup-drop_stale_absent now k m, eq_iff j k, h.0)

-- Where each worker is stored once, after a tick exactly the workers that were heard of within the
-- timeout are left, unchanged.
pub get_worker-cleanup :
    (wm : WorkerManager) (now : ℕ) (id : String)
    → IsMap wm.workers
    → get_worker (cleanup_workers wm now) id ≡ unless_stale now (get_worker wm id)
unfolding get_worker cleanup_workers
get_worker-cleanup wm now id h = lookup-drop_stale now id wm.workers h

stale_offline : (now : ℕ) (w : Worker) → is_stale now w ≡ true → is_online now w ≡ false
stale_offline now w h = ground arith

online-drop_stale :
    (now : ℕ) (m : Dict Worker)
    → online_of now (values (drop_stale now m)) ≡ online_of now (values m)
unfolding online_of drop_stale
online-drop_stale now [] = refl
online-drop_stale now ((j, w) ∷ m) =
    let ih : online_of now (values (drop_stale now m)) ≡ online_of now (values m) =
      online-drop_stale now m in
    elim (Bool-cases (is_stale now w)) [
      | inl e ↦ rw (e, drop_stale) (rw (stale_offline now w e) ih)
      | inr e ↦ rw (e, drop_stale) (rw ih)
    ]

-- A tick takes no worker away from `ChooseBestWorker`: the choice before and after is the same.
pub choose_best_worker-cleanup :
    (wm : WorkerManager) (now : ℕ)
    → choose_best_worker (cleanup_workers wm now) now ≡ choose_best_worker wm now
unfolding choose_best_worker get_online_workers cleanup_workers
choose_best_worker-cleanup wm now = rw (online-drop_stale now wm.workers)

-- ===== src/Rtc/Routing.antt =====
-- Routers on workers.
use singal.Common.{
  ℕ, ◌+◌, ◌≡◌, ◌≢◌, refl, String, Option, none, some, [], arith, inl, inr, ◌⊎◌, ◌%◌,
}
use singal.Dict.{insert, lookup, lookup-insert_self}
use singal.Proto.{RouterResponse, ServerPayload}
use singal.Router.{Router}
use singal.Rtc.Media.{Outcome, ok, err, panic}
use singal.Rtc.{
  router_on, router_message, Answer, router_answer, create_router_request, create_router_finish,
}
use singal.Workers.{
  Worker, WorkerManager, choose_best_worker, get_worker, get_online_workers, add_router,
}
use singal.Workers.Choice.{IsBest, choose_best_worker-IsBest}

-- A new router stands on an online worker of the highest score, and has no participants; without an
-- online worker there is none.
create_router_request-worker :
    (wm : WorkerManager) (now : ℕ) (router_id server_id : String)
    → ((get_online_workers wm now ≡ []) × (create_router_request wm now router_id server_id ≡ none))
      ⊎ ((r : Router) × (m : ServerPayload) × (w : Worker) × (create_router_request wm now router_id
              server_id
            ≡ some (r, m))
          × IsBest (get_online_workers wm now) (some w)
          × (r.worker_id ≡ w.worker_id)
          × (r.router_id ≡ router_id)
          × (r.producers ≡ [])
          × (r.consumers ≡ []))
unfolding create_router_request
create_router_request-worker wm now router_id server_id =
    go (choose_best_worker wm now) refl (choose_best_worker-IsBest wm now)
  where
    go :
        (o : Option Worker)
        → choose_best_worker wm now ≡ o
        → IsBest (get_online_workers wm now) o
        → ((get_online_workers wm now ≡ [])
            × (create_router_request wm now router_id server_id ≡ none))
          ⊎ ((r : Router) × (m : ServerPayload) × (w : Worker) × (create_router_request wm now
                  router_id server_id
                ≡ some (r, m))
              × IsBest (get_online_workers wm now) (some w)
              × (r.worker_id ≡ w.worker_id)
              × (r.router_id ≡ router_id)
              × (r.producers ≡ [])
              × (r.consumers ≡ []))
    go none e b = inl (b, rw (e, create_router_request))
    go (some w) e b = inr (
      router_on w router_id,
      router_message w router_id server_id,
      w,
      rw (e, create_router_request) refl,
      b,
      refl,
      refl,
      refl,
      refl,
    )

held :
    (wm : WorkerManager) (r : Router) (w : Worker)
    → get_worker wm r.worker_id ≡ some w
    → (v : Worker) × (get_worker (add_router wm r.worker_id r).0 r.worker_id ≡ some v)
      × (lookup r.router_id v.routers ≡ some r)
unfolding add_router get_worker
held wm r w h = (
  record w {
    routers = insert r.router_id r w.routers;
    router_count = (w.router_count + 1) % 4294967296;
  },
  rw (h, add_router) (lookup-insert_self r.worker_id _ wm.workers),
  lookup-insert_self r.router_id r w.routers,
)

-- Where `CreateRouterOnWorker` succeeds and the worker is still registered, the worker holds the
-- router.
pub create_router_finish-held :
    (wm : WorkerManager) (r : Router) (answer : Answer) (w : Worker)
    → (create_router_finish wm r answer).1 ≡ ok r
    → get_worker wm r.worker_id ≡ some w
    → (v : Worker) × (get_worker (create_router_finish wm r answer).0 r.worker_id ≡ some v)
      × (lookup r.router_id v.routers ≡ some r)
unfolding create_router_finish
create_router_finish-held wm r answer w e h =
    go (router_answer answer) refl (unfold create_router_finish in e)
  where
    go :
        (o : Outcome RouterResponse)
        → router_answer answer ≡ o
        → (create_router_finish wm r answer).1 ≡ ok r
        → (v : Worker) × (get_worker (create_router_finish wm r answer).0 r.worker_id ≡ some v)
          × (lookup r.router_id v.routers ≡ some r)
    go (ok a) f k = rw (f, create_router_finish) (held wm r w h)
    go (err x) f k = absurd (ground (arith, f, k))
    go panic f k = absurd (ground (arith, f, k))

-- Where it returns an error or panics, the registry is as it was.
pub create_router_finish-unchanged :
    (wm : WorkerManager) (r : Router) (answer : Answer)
    → (create_router_finish wm r answer).1 ≢ ok r
    → (create_router_finish wm r answer).0 ≡ wm
unfolding create_router_finish
create_router_finish-unchanged wm r answer ne = go (router_answer answer) refl ne
  where
    go :
        (o : Outcome RouterResponse)
        → router_answer answer ≡ o
        → (create_router_finish wm r answer).1 ≢ ok r
        → (create_router_finish wm r answer).0 ≡ wm
    go (ok a) f k = absurd (k (rw (f, create_router_finish)))
    go (err x) f k = rw (f, create_router_finish)
    go panic f k = rw (f, create_router_finish)

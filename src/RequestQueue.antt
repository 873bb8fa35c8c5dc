-- ===== src/RequestQueue.antt =====
-- The queue of HTTP requests that failed: src/server/httpReqQueue.go, with `sendPost` of
-- src/server/httpClient.go. `D` is the type of what is posted; nil is `none`.
pub mod Rounds
use singal.Common.{
  ℕ, ℤ, pos, negsuc, Bool, true, false, String, Option, none, some, List, [], ◌∷◌, ◌++◌, str_eq,
  ◌==◌, if◌then◌else◌,
}
use singal.Rtc.Media.{Outcome, ok, err, panic}

pub record Request (D : Type 0) : Type 0 where
  pub url : String
  pub body : Option D
  pub try_times : ℕ

-- What happens to a POST: the body does not marshal, the URL is refused, the request or the reading of
-- its response fails, or there is a response with a status.
pub data Post : Type 0 where
  marshal_error url_error send_error read_error : Post
  answered : ℕ → Post

-- A refused URL gives a nil request, whose header is written before the error is looked at.
unfoldable pub send_post : Post → Outcome ℤ
send_post marshal_error = ok (pos 0)
send_post url_error = panic
send_post send_error = ok (negsuc 0)
send_post read_error = ok (negsuc 0)
send_post (answered status) = if status == 200 then ok (pos 0) else ok (negsuc 0)

abbrev pub is_zero : ℤ → Bool
is_zero (pos n) = n == 0
is_zero (negsuc n) = false

module _ {D : Type 0} where
  unfoldable pub push_request : List (Request D) → String → Option D → List (Request D)
  push_request queue url body = queue ++ record { url = url; body = body; try_times = 0 } ∷ []

  -- An empty queue gives a request with no URL.
  unfoldable pub pop_request : List (Request D) → List (Request D) × Request D
  pop_request [] = ([], record { url = ""; body = none; try_times = 0 })
  pop_request (r ∷ rs) = (rs, record { url = r.url; body = r.body; try_times = 0 })

  unfoldable pub execute_request :
      List (Request D) → String → Option D → Post → Outcome (List (Request D))
  execute_request queue url body post = elim (send_post post) [
    | ok ret ↦ if is_zero ret then ok queue else ok (push_request queue url body)
    | err e ↦ err e
    | panic ↦ panic
  ]

  -- One round of `DealTimeoutReq`.
  unfoldable pub deal_timeout_req : List (Request D) → Post → Outcome (List (Request D))
  deal_timeout_req queue post =
      let (rest, request) = pop_request queue in
      if str_eq request.url "" then ok rest else elim (send_post post) [
        | ok ret ↦ if is_zero ret then ok rest else ok (push_request rest request.url request.body)
        | err e ↦ err e
        | panic ↦ panic
      ]

  -- `NewReqQueue` before its loop starts.
  unfoldable pub new_req_queue : List (Request D)
  new_req_queue = []

-- The limits of the connections of the HTTP client.
pub record HttpReqMgr : Type 0 where
  pub max_idle_conns : ℕ
  pub max_idle_conns_per_host : ℕ
  pub max_conns_per_host : ℕ

-- `NewHttpReqMgr`: each host may have any number of connections, since 0 is no limit.
unfoldable pub new_http_req_mgr : HttpReqMgr
new_http_req_mgr = record {
  max_idle_conns = 100;
  max_idle_conns_per_host = 2;
  max_conns_per_host = 0;
}

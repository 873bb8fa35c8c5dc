-- ===== src/Conference.antt =====
-- What the participants of rooms share: `User` and `WsMessage` of src/server/user.go, `Room` of
-- src/server/room.go, `RoomManager` of src/server/roomManager.go and `WsServer` of
-- src/server/wssServer.go. A method acts on the whole of it; one call runs to its end before the next.
pub mod Blocked
pub mod Window
pub mod Crashes
pub mod Begun
pub mod Null
pub mod Fatal
pub mod Short
pub mod Feedback
pub mod Cells
pub mod Notices
pub mod Leaving
pub mod Steps
pub mod Frame
pub mod Keeps
pub mod Answers
pub mod Responses
pub mod Sockets
pub mod Entries
pub mod Seats
pub mod Ends
pub mod Arrivals
pub mod Sessions
pub mod Arriving
pub mod Late
pub mod Entering
pub mod Gives
pub mod Quiet
pub mod Grows
pub mod Offers
pub mod Pulls
pub mod Producing
pub mod Published
pub mod Joining
pub mod Closing
pub mod Rooms
pub mod Consumers
pub mod Produce
pub mod Handlers
pub mod Connections
use singal.Common.{
  ℤ, pos, get_elem?, set, ℕ, zero, suc, ◌+◌, Bool, true, false, String, Option, none, some, List,
  [], ◌∷◌, ◌++◌, ◌==◌, str_eq, if◌then◌else◌, length,
}
use singal.Dict.{Dict, lookup, insert, delete}
use singal.Media.{
  Device, Peer, PeerData, JoinResData, NewDataConsumerReqData, NewConsumerReqData,
  CreateTransportResData, ProduceReqData, ProduceDataResData, ProduceResData, ConsumeResData,
}
use singal.Proto.{ServerPayload}
use singal.Router.{Router}
use singal.Rtc.{Answer}
use singal.Rtc.Media.{Outcome, ok, err, panic}

-- The `Data` of a message.
pub data Payload : Type 0 where
  no_data config : Payload
  transport : CreateTransportResData → Payload
  produce_data : ProduceDataResData → Payload
  peers : JoinResData → Payload
  produced : ProduceResData → Payload
  peer : Peer → Payload
  peer_data : PeerData → Payload
  data_consumer : NewDataConsumerReqData → Payload
  consumer : NewConsumerReqData → Payload
  consumed : ConsumeResData → Payload

pub record WsMessage : Type 0 where
  pub request : Bool
  pub response : Bool
  pub notification : Bool
  pub succeeded : Bool
  pub id : ℤ
  pub method : String
  pub body : Payload

abbrev pub request_of : ℤ → String → Payload → WsMessage
request_of id method body = record {
  request = true;
  response = false;
  notification = false;
  succeeded = false;
  id = id;
  method = method;
  body = body;
}

abbrev pub response_of : ℤ → Bool → Payload → WsMessage
response_of id succeeded body = record {
  request = false;
  response = true;
  notification = false;
  succeeded = succeeded;
  id = id;
  method = "";
  body = body;
}

abbrev pub notification_of : String → Payload → WsMessage
notification_of method body = record {
  request = false;
  response = false;
  notification = true;
  succeeded = false;
  id = pos 0;
  method = method;
  body = body;
}

-- `closed` says whether the channel `sendMsg` is closed, and `writing` whether `WriteMessage`, which
-- reads that channel, still runs.
pub record User : Type 0 where
  pub user_id : String
  pub peer_id : String
  pub display_name : String
  pub room_id : String
  pub device : Option Device
  pub remote_address : String
  pub req_id : ℕ
  pub new_data_consumer_req : Bool
  pub closed : Bool
  pub writing : Bool

-- `users` holds pointers.
pub record Room : Type 0 where
  pub room_id : String
  pub router : Router
  pub users : Dict ℕ

-- `users` is the heap of users and `store` that of the data of produce requests. `online` is the set
-- `Users` of `WsServer`. `sent` has the messages that went through channels, newest first, each with
-- its user. `draws` counts the calls of the random generators.
pub record World : Type 0 where
  pub rooms : Dict Room
  pub users : List User
  pub store : List ProduceReqData
  pub online : List ℕ
  pub sent : List (ℕ × WsMessage)
  pub draws : ℕ

-- What the code takes from elsewhere: random strings and numbers by the number of the draw, the text
-- of a number, substring search, and the answer of the media worker to a request.
pub record Env : Type 0 where
  pub rand_string : ℕ → ℕ → String
  pub rand_uint32 : ℕ → ℕ → ℕ
  pub itoa : ℕ → String
  pub contains : String → String → Bool
  pub remote : ServerPayload → Answer

-- A handler that panics is `panic`; one that waits at a channel that nobody reads is `err blocked`.
abbrev pub M : Type 0 → Type 0
M A = World → Outcome (A × World)

infixl 5 ◌>>=◌ ◌>>◌
abbrev pub ◌>>=◌ : {A B : Type 0} → M A → (A → M B) → M B
◌>>=◌ m f w = elim (m w) [ ok (a, w') ↦ f a w' | err e ↦ err e | panic ↦ panic ]

abbrev pub ◌>>◌ : {A B : Type 0} → M A → M B → M B
m >> n = m >>= λ _. n

abbrev pub pure : {A : Type 0} → A → M A
pure a w = ok (a, w)

abbrev pub crash : {A : Type 0} → M A
crash w = panic

-- A read or a write through a pointer to a user.
abbrev pub load : ℕ → M User
load p w = elim (get_elem? w.users p) [ none ↦ panic | some u ↦ ok (u, w) ]

abbrev pub update_user : ℕ → (User → User) → M (Unit {0})
update_user p f w = elim (get_elem? w.users p) [
  | none ↦ panic
  | some u ↦ ok (tt, record w { users = set w.users p (f u) })
]

abbrev pub blocked : String
blocked = "blocked"

-- `u.sendMsg <- m`: a send on a closed channel panics, and the channel has no buffer, so that a send
-- that is not read does not come back.
abbrev pub send : ℕ → WsMessage → M (Unit {0})
send p m w = elim (get_elem? w.users p) [
  | none ↦ panic
  | some u ↦
      if u.closed
      then panic
      else if u.writing
      then ok (tt, record w { sent = (p, m) ∷ w.sent })
      else err blocked
]

abbrev pub next_req_id : User → User
next_req_id u = record u { req_id = u.req_id + 1 }

-- A request of `User`: it takes the next request id.
abbrev pub send_request : ℕ → String → Payload → M (Unit {0})
send_request p method body = do
  u ← load p
  update_user p next_req_id
  send p (request_of (pos u.req_id) method body)

unfoldable pub notify_new_peer : ℕ → PeerData → M (Unit {0})
notify_new_peer p d = send p (notification_of "newPeer" (peer_data d))

unfoldable pub notify_peer_closed : ℕ → Peer → M (Unit {0})
notify_peer_closed p d = send p (notification_of "peerClosed" (peer d))

unfoldable pub request_new_data_consumer : ℕ → NewDataConsumerReqData → M (Unit {0})
request_new_data_consumer p d = send_request p "newDataConsumer" (data_consumer d)

unfoldable pub request_new_consumer : ℕ → NewConsumerReqData → M (Unit {0})
request_new_consumer p d = send_request p "newConsumer" (consumer d)

unfoldable pub notify_consumer_closed : ℕ → ConsumeResData → M (Unit {0})
notify_consumer_closed p d = send p (notification_of "consumerClosed" (consumed d))

-- The room that `NewRoom` makes on its router.
abbrev pub new_room : String → Router → Room
new_room id router = record { room_id = id; router = router; users = [] }

-- `GetOrCreateRoom`; `made` is what `CreateRouterOnWorker` returns if it is called.
unfoldable pub get_or_create_room : Outcome Router → String → M (Option Room)
get_or_create_room made room_id w = elim (lookup room_id w.rooms) [
  | some r ↦ ok (some r, w)
  | none ↦ elim made [
    | ok router ↦
        let room : Room = new_room room_id router in
        ok (some room, record w { rooms = insert room_id room w.rooms })
    | err _ ↦ ok (none, w)
    | panic ↦ panic
  ]
]

unfoldable pub delete_room : String → M (Unit {0})
delete_room room_id w = ok (tt, record w { rooms = delete room_id w.rooms })

-- A read or a write of the fields of a room that the manager holds.
abbrev pub load_room : String → M Room
load_room id w = elim (lookup id w.rooms) [ none ↦ panic | some r ↦ ok (r, w) ]

abbrev pub save_room : String → Room → M (Unit {0})
save_room id r w = ok (tt, record w { rooms = insert id r w.rooms })

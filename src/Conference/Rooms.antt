-- ===== src/Conference/Rooms.antt =====
-- The methods of `Room` (src/server/room.go). Each takes the id of its room.
use singal.Common.{ℕ, true, false, String, none, some, List, [], ◌∷◌, str_eq, length}
use singal.Conference.{
  Room, User, M, ◌>>=◌, ◌>>◌, pure, load, load_room, save_room, notify_new_peer, notify_peer_closed,
}
use singal.Dict.{Dict, lookup, insert, delete}
use singal.Media.{Peer, PeerData}

-- `AddUser`: a user whose id the room has already is not added.
unfoldable pub add_user : String → ℕ → M (Unit {0})
add_user room_id p = do
  r ← load_room room_id
  u ← load p
  elim (lookup u.user_id r.users) [
    | some _ ↦ pure tt
    | none ↦ save_room room_id (record r { users = insert u.user_id p r.users })
  ]

unfoldable pub get_user_nums : Room → ℕ
get_user_nums r = length r.users

abbrev pub closed_peer : User → Peer
closed_peer u = record {
  peer_id = u.peer_id;
  display_name = "";
  device = none;
  remote_address = "";
}

abbrev pub peer_of : User → Peer
peer_of u = record {
  peer_id = u.peer_id;
  display_name = u.display_name;
  device = u.device;
  remote_address = u.remote_address;
}

unfoldable pub notify_closed : Peer → Dict ℕ → M (Unit {0})
notify_closed d [] = pure tt
notify_closed d ((k, p) ∷ m) = do notify_peer_closed p d; notify_closed d m

-- `DeleteUser`
unfoldable pub delete_user : String → ℕ → M (Unit {0})
delete_user room_id p = do
  r ← load_room room_id
  u ← load p
  save_room room_id (record r { users = delete u.user_id r.users })
  notify_closed (closed_peer u) (delete u.user_id r.users)

unfoldable pub other_peers : String → Dict ℕ → M (List Peer)
other_peers user [] = pure []
other_peers user ((k, p) ∷ m) = elim (str_eq k user) [
  | true ↦ other_peers user m
  | false ↦ do u ← load p; rest ← other_peers user m; pure (peer_of u ∷ rest)
]

-- `GetOtherUsers`
unfoldable pub get_other_users : String → ℕ → M (List Peer)
get_other_users room_id p = do r ← load_room room_id; u ← load p; other_peers u.user_id r.users

unfoldable pub notify_others : String → PeerData → Dict ℕ → M (Unit {0})
notify_others user d [] = pure tt
notify_others user d ((k, p) ∷ m) = elim (str_eq k user) [
  | true ↦ notify_others user d m
  | false ↦ do notify_new_peer p d; notify_others user d m
]

-- `NotifyOtherUsers`
unfoldable pub notify_other_users : String → ℕ → M (Unit {0})
notify_other_users room_id p = do
  r ← load_room room_id
  u ← load p
  notify_others u.user_id (record { peer = peer_of u }) r.users

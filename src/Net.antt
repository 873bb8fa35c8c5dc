-- ===== src/Net.antt =====
-- Addresses and random strings: src/server/util.go. `itoa` is the `%d` of `fmt.Sprintf`, `parse_ip`
-- is `net.ParseIP(ip).To4()`, whose bytes are `none` where it gives nil, and `draw` gives the number that is drawn at each turn.
pub mod Addresses
pub mod Draws
use singal.Common.{
  ℕ, ◌+◌, ◌*◌, ◌/◌, ◌%◌, ◌^◌, Bool, true, false, String, Option, none, some, List, [], ◌∷◌,
  if◌then◌else◌, get_elem?, length, suc, zero,
}
use Prim.Native.Char.{Char}
use Prim.Native.String
use singal.Rtc.Media.{Outcome, ok, err, panic}
use singal.Redis.{◌<>◌}

-- What `GetClientIp` reads of an address: whether it is an `*net.IPNet`, whether it is a loopback,
-- whether it has four bytes, and its text.
pub record Address : Type 0 where
  pub is_ip_net : Bool
  pub is_loopback : Bool
  pub has_to4 : Bool
  pub text : String

-- The loop of `GetClientIp`; `none` is its error.
unfoldable pub get_client_ip : List Address → Option String
get_client_ip [] = none
get_client_ip (a ∷ addrs) =
    let rest = get_client_ip addrs in
    if a.is_ip_net
    then (if a.is_loopback then rest else if a.has_to4 then some a.text else rest)
    else rest

-- `byte(ip >> n)` of a number that is not negative.
abbrev pub byte : ℕ → ℕ → ℕ
byte n ip = ip / 2 ^ n % 256

unfoldable pub inet_ntoa : (ℕ → String) → ℕ → String
inet_ntoa itoa ip =
    itoa (byte 24 ip)
    <> "."
    <> itoa (byte 16 ip)
    <> "."
    <> itoa (byte 8 ip)
    <> "."
    <> itoa (byte 0 ip)

-- `big.Int.SetBytes`: the bytes, the highest first.
abbrev pub set_bytes : ℕ → List ℕ → ℕ
set_bytes n [] = n
set_bytes n (b ∷ bs) = set_bytes (n * 256 + b) bs

unfoldable pub inet_aton : (String → Option (List ℕ)) → String → ℕ
inet_aton parse_ip ip = elim (parse_ip ip) [ none ↦ 0 | some bs ↦ set_bytes 0 bs ]

-- The character of a text at an index.
unfoldable pub letter : String → ℕ → Option Char
letter String.[] n = none
letter (String.◌∷◌ c s) zero = some c
letter (String.◌∷◌ c s) (suc n) = letter s n

-- The loop that fills a slice of `n` characters of `alphabet` from the draw number `i` on, for a draw
-- that may fail; an index past the alphabet panics.
unfoldable pub draw_text : String → (ℕ → Option ℕ) → ℕ → ℕ → Outcome String
draw_text alphabet draw zero i = ok ""
draw_text alphabet draw (suc n) i = elim (draw i) [
  | none ↦ err "rand"
  | some d ↦ elim (letter alphabet d) [
    | none ↦ panic
    | some c ↦ elim (draw_text alphabet draw n (i + 1)) [
      | ok s ↦ ok (String.◌∷◌ c s)
      | err e ↦ err e
      | panic ↦ panic
    ]
  ]
]

abbrev pub letters : String
letters = "0123456789abcdefghijklmnopqrstuvwxyzABCDEFGHIJKLMNOPQRSTUVWXYZ"

-- `RandString`
unfoldable pub rand_string : (ℕ → ℕ) → ℕ → Outcome String
rand_string draw n = draw_text letters (λ i. some (draw i)) n 0

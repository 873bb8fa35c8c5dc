-- ===== src/Net/Addresses.antt =====
-- Numbers and texts of addresses.
use singal.Common.{ℕ, ◌%◌, ◌≡◌, String, Option, none, some, List, [], ◌∷◌, arith, ◌∙◌, ap}
use singal.Net.{byte, inet_ntoa, inet_aton, set_bytes}
use singal.Redis.{◌<>◌}

bytes :
    (ip : ℕ) → set_bytes 0 (byte 24 ip ∷ byte 16 ip ∷ byte 8 ip ∷ byte 0 ip ∷ []) ≡ ip % 4294967296
bytes ip = omega arith

-- Where the parser reads the text that `InetNtoA` gives as its four numbers, `InetAtoN` of that text
-- is the address modulo 2^32.
inet_aton-inet_ntoa :
    (itoa : ℕ → String) (parse_ip : String → Option (List ℕ)) (ip : ℕ)
    → parse_ip (
        itoa (byte 24 ip)
        <> "."
        <> itoa (byte 16 ip)
        <> "."
        <> itoa (byte 8 ip)
        <> "."
        <> itoa (byte 0 ip))
      ≡ some (byte 24 ip ∷ byte 16 ip ∷ byte 8 ip ∷ byte 0 ip ∷ [])
    → inet_aton parse_ip (inet_ntoa itoa ip) ≡ ip % 4294967296
unfolding inet_aton inet_ntoa
inet_aton-inet_ntoa itoa parse_ip ip parses =
    ap (λ (o : Option (List ℕ)). elim o [ none ↦ 0 | some bs ↦ set_bytes 0 bs ]) parses ∙ bytes ip

-- ===== src/Address.antt =====
-- Broker addresses: src/recovery/brokeraddress.cpp, and urlToIPPort, IPPortToUrl and utos of
-- src/recovery/brokerobject.cpp. A url without a colon makes urlToIPPort run off the string:
-- `none`. That an address fits its char array is not checked by the code, nor here.
pub mod RoundTrip
mod Tests
use qpidrecovery.Base.{
  ℕ, zero, suc, ◌+◌, ◌-◌, ◌*◌, ◌/◌, ◌%◌, ◌≡◌, Bool, ◌&&◌, Option, none, some, List, [], ◌∷◌, ◌++◌,
  ltb, ◌==◌, if◌then◌else◌, u32, u32_mod,
}
use qpidrecovery.Text.{Str, str_eq}

pub record BrokerAddress : Type 0 where
  pub ip : Str
  pub port : ℕ

-- A char is signed; this is its value modulo 2 ^ 32.
abbrev pub char_value : ℕ → ℕ
char_value c = if ltb c 128 then c else u32_mod + c - 256

unfoldable pub split_host : Str → Option (Str × Str)
split_host [] = none
split_host (c ∷ cs) =
    if c == b':'
    then some ([], cs)
    else (elim (split_host cs) [ none ↦ none | some (ip, rest) ↦ some (c ∷ ip, rest) ])

-- `port = port * 10 + (url[i] - '0')` on unsigned.
unfoldable pub parse_port : ℕ → Str → ℕ
parse_port port [] = port
parse_port port (c ∷ cs) = parse_port (u32 (port * 10 + char_value c + (u32_mod - 48))) cs

unfoldable pub url_to_ip_port : Str → Option (Str × ℕ)
url_to_ip_port url = elim (split_host url) [
  | none ↦ none
  | some (ip, rest) ↦ some (ip, parse_port 0 rest)
]

-- printf's %u, the digits of a number below 10 to the fuel.
unfoldable pub digits : ℕ → ℕ → Str
digits zero n = []
digits (suc fuel) n =
    let rest = digits fuel (n / 10) in
    if ltb n 10 then (48 + n) ∷ [] else rest ++ ((48 + n % 10) ∷ [])

-- An unsigned has at most ten digits.
unfoldable pub unsigned_to_string : ℕ → Str
unsigned_to_string n = digits 10 n

unfoldable pub ip_port_to_url : Str → ℕ → Str
ip_port_to_url ip port = ip ++ (b':' ∷ unsigned_to_string port)

unfoldable pub get_address : BrokerAddress → Str
get_address a = a.ip ++ (b':' ∷ unsigned_to_string a.port)

unfoldable pub address_eq : BrokerAddress → BrokerAddress → Bool
address_eq a b = a.port == b.port && str_eq a.ip b.ip

-- ===== src/Address/RoundTrip.antt =====
-- An address survives the way into a url and back.
use native.Mathlib.Nat.{pow-suc}
use qpidrecovery.Base.{
  ℕ, zero, suc, ◌+◌, ◌-◌, ◌*◌, ◌/◌, ◌%◌, ◌^◌, ◌<◌, ◌≡◌, ◌≢◌, ◌↔◌, refl, ap, sym, ◌∙◌, true, Option,
  some, [], ◌∷◌, ◌++◌, ltb, u32, u32_mod, arith, All, Bool-cases, inl, inr,
}
use qpidrecovery.Text.{Str, str_eq_iff}
use qpidrecovery.Address.{
  BrokerAddress, char_value, split_host, parse_port, url_to_ip_port, digits, unsigned_to_string,
  ip_port_to_url, get_address, address_eq,
}

-- A host part: no byte is a colon.
abbrev pub IsHost : Str → Type 0
IsHost = All (λ (c : ℕ). c ≢ b':')

split_host-append : (ip rest : Str) → IsHost ip → split_host (ip ++ (b':' ∷ rest)) ≡ some (ip, rest)
unfolding split_host
split_host-append [] rest h = refl
split_host-append (c ∷ ip) rest h = ground (arith, split_host-append ip rest h.1, h.0)

parse_port-snoc :
    (port : ℕ) (cs : Str) (c : ℕ)
    → parse_port port (cs ++ (c ∷ []))
      ≡ u32 (parse_port port cs * 10 + char_value c + (u32_mod - 48))
unfolding parse_port
parse_port-snoc port [] c = refl
parse_port-snoc port (d ∷ cs) c =
    parse_port-snoc (u32 (port * 10 + char_value d + (u32_mod - 48))) cs c

-- One digit behind the value of the others.
digit_step :
    (m n : ℕ)
    → n < u32_mod
    → m ≡ n / 10
    → u32 (m * 10 + char_value (48 + n % 10) + (u32_mod - 48)) ≡ n
digit_step m n k e = ground arith

parse_port-nil : (n : ℕ) → n < 1 → parse_port 0 [] ≡ n
unfolding parse_port
parse_port-nil n h = omega arith

parse_port-one : (n : ℕ) → n < 10 → parse_port 0 ((48 + n) ∷ []) ≡ n
unfolding parse_port
parse_port-one n h = ground arith

pub parse_port-digits :
    (fuel n : ℕ) → n < 10 ^ fuel → n < u32_mod → parse_port 0 (digits fuel n) ≡ n
unfolding digits
parse_port-digits zero n h k = parse_port-nil n h
parse_port-digits (suc fuel) n h k = elim (Bool-cases (ltb n 10)) [
  | inl e ↦ rw e (parse_port-one n (ground arith))
  | inr e ↦ rw e (
      parse_port-snoc 0 (digits fuel (n / 10)) (48 + n % 10)
      ∙ digit_step (parse_port 0 (digits fuel (n / 10))) n k
          (parse_port-digits fuel (n / 10) (omega (arith, pow-suc 10 fuel)) (omega arith)))
]

-- A url made from a host and an unsigned port gives both back.
pub url_to_ip_port-url :
    (ip : Str) (port : ℕ)
    → IsHost ip
    → port < u32_mod
    → url_to_ip_port (ip_port_to_url ip port) ≡ some (ip, port)
unfolding url_to_ip_port ip_port_to_url unsigned_to_string
url_to_ip_port-url ip port h k =
    rw (split_host-append ip (digits 10 port) h, url_to_ip_port)
      (rw (parse_port-digits 10 port (omega arith) k))

some_pair :
    {a b : Str} {m n : ℕ}
    → ◌≡◌ {A = Option (Str × ℕ)} (some (a, m)) (some (b, n))
    → (a ≡ b) × (m ≡ n)
some_pair e = ground arith

pub address_eq_iff :
    (a b : BrokerAddress) → (address_eq a b ≡ true) ↔ ((a.ip ≡ b.ip) × (a.port ≡ b.port))
unfolding address_eq
address_eq_iff a b =
    (λ h. ground (arith, (str_eq_iff a.ip b.ip).0), λ h. ground (arith, (str_eq_iff a.ip b.ip).1))

url_to_ip_port-address :
    (a : BrokerAddress)
    → IsHost a.ip
    → a.port < u32_mod
    → url_to_ip_port (get_address a) ≡ some (a.ip, a.port)
unfolding get_address ip_port_to_url
url_to_ip_port-address a h k = url_to_ip_port-url a.ip a.port h k

parts_of_address :
    (a b : BrokerAddress)
    → IsHost a.ip
    → IsHost b.ip
    → a.port < u32_mod
    → b.port < u32_mod
    → get_address a ≡ get_address b
    → (a.ip ≡ b.ip) × (a.port ≡ b.port)
parts_of_address a b h k l m e =
    some_pair
      (sym (url_to_ip_port-address a h l) ∙ ap url_to_ip_port e ∙ url_to_ip_port-address b k m)

-- Two addresses are equal by operator== exactly when their urls are the same string, for hosts
-- without a colon and unsigned ports.
get_address-injective :
    (a b : BrokerAddress)
    → IsHost a.ip
    → IsHost b.ip
    → a.port < u32_mod
    → b.port < u32_mod
    → (get_address a ≡ get_address b) ↔ (address_eq a b ≡ true)
get_address-injective a b h k l m = (
  λ e. (address_eq_iff a b).1 (parts_of_address a b h k l m e),
  λ e. (let (i, p) = (address_eq_iff a b).0 e in unfold get_address in ground arith),
)

-- ===== src/Services/Start/Subnet.antt =====
-- The brokers of the subnet: the requests for them, and their recovery.
use mathlib.Core.List.{append-nil, append_assoc}
use qpidrecovery.Base.{
  ℕ, zero, suc, ◌+◌, ◌<◌, ◌≡◌, refl, sym, ap, ◌∙◌, Bool, true, some, List, [], ◌∷◌, ◌++◌, All, map,
  length, length-append, u32_mod, arith,
}
use qpidrecovery.Text.{Str}
use qpidrecovery.Common.{ParticipateRequest}
use qpidrecovery.Address.{BrokerAddress, ip_port_to_url}
use qpidrecovery.Address.RoundTrip.{IsHost, url_to_ip_port-url}
use qpidrecovery.Names.{VectorAndIndex, get_an_element}
use qpidrecovery.Names.Taken.{get_an_element-next, get_an_element-end}
use qpidrecovery.Services.Start.{subnet_request, subnet_loop}

pub record IsUrl (a : BrokerAddress) : Type 0 where
  pub host : IsHost a.ip
  pub port : a.port < u32_mod

abbrev pub url_of : BrokerAddress → Str
url_of a = ip_port_to_url a.ip a.port

-- The request for a broker.
abbrev pub request_for : BrokerAddress → ParticipateRequest
request_for a = record {
  name = a.ip;
  brokerip = a.ip;
  brokerport = a.port;
  votingversion = 2;
  committedversion = 1;
  count = 0;
  acceptor = [];
}

subnet_request_lem :
    (a : BrokerAddress) → IsUrl a → subnet_request (url_of a) ≡ some (request_for a)
unfolding subnet_request
subnet_request_lem a h = rw (url_to_ip_port-url a.ip a.port h.host h.port) refl

step :
    (fuel : ℕ) (written : ℕ → Bool) (i : ℕ) (v : VectorAndIndex) (b : BrokerAddress)
    (rs : List ParticipateRequest)
    → (get_an_element v).0 ≡ some (url_of b)
    → IsUrl b
    → written i ≡ true
    → subnet_loop fuel written (i + 1) (get_an_element v).1 ≡ some rs
    → subnet_loop (suc fuel) written i v ≡ some (request_for b ∷ rs)
unfolding subnet_loop
step fuel written i v b rs first h w rest =
    rw (first, subnet_loop, subnet_request_lem b h, w, rest) refl

pub subnet_loop_lem :
    (fuel : ℕ) (written : ℕ → Bool) (i : ℕ) (pre : List Str) (brokers : List BrokerAddress)
    → ((j : ℕ) → written j ≡ true)
    → All IsUrl brokers
    → length brokers < fuel
    → subnet_loop fuel written i
        (record { elements = pre ++ map url_of brokers; index = length pre })
      ≡ some (map request_for brokers)
unfolding subnet_loop
subnet_loop_lem zero written i pre brokers t h l = absurd (omega arith)
subnet_loop_lem (suc fuel) written i pre [] t h l =
    rw (append-nil pre) (rw (get_an_element-end pre, subnet_loop) refl)
subnet_loop_lem (suc fuel) written i pre (b ∷ brokers) t h l =
    let e : length pre + 1 ≡ length (pre ++ (url_of b ∷ [])) =
      omega (arith, length-append {0} pre (url_of b ∷ [])) in
    let a : pre ++ (url_of b ∷ map url_of brokers)
        ≡ (pre ++ (url_of b ∷ [])) ++ map url_of brokers =
      sym (append_assoc pre (url_of b ∷ []) (map url_of brokers)) in
    let whole : VectorAndIndex = record {
      elements = pre ++ (url_of b ∷ map url_of brokers);
      index = length pre;
    } in
    let taken = get_an_element-next pre (url_of b) (map url_of brokers) in
    let first : (get_an_element whole).0 ≡ some (url_of b) = ap (λ z. z.0) taken in
    let next : (get_an_element whole).1 ≡ record {
      elements = (pre ++ (url_of b ∷ [])) ++ map url_of brokers;
      index = length (pre ++ (url_of b ∷ []));
    } =
      ap (λ z. z.1) taken ∙ (λ k. record { elements = a k; index = e k }) in
    let rest : subnet_loop fuel written (i + 1) (get_an_element whole).1
        ≡ some (map request_for brokers) =
      ap (subnet_loop fuel written (i + 1)) next
      ∙ subnet_loop_lem fuel written (i + 1) (pre ++ (url_of b ∷ [])) brokers t h.1 (omega arith) in
    step fuel written i whole b (map request_for brokers) first h.0 (t i) rest

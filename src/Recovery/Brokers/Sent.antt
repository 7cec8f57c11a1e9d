-- ===== src/Recovery/Brokers/Sent.antt =====
-- sendLinkDownEvent in copyObjectsThread of src/recovery/recoverymanager.cpp: both urls are printed
-- from an address, so that BrokerAddress can be read from them again.
use qpidrecovery.Base.{ℕ, ◌≡◌, refl, Bool, some, [], ◌∷◌, ◌++◌, ◌==◌, Bool-cases, inl, inr}
use qpidrecovery.Text.{Str}
use qpidrecovery.Address.{
  BrokerAddress, split_host, parse_port, url_to_ip_port, ip_port_to_url, unsigned_to_string,
  get_address,
}
use qpidrecovery.Broker.Info.{LinkInfo, get_link_dest_url}
use qpidrecovery.Recovery.Brokers.{Manager, link_down_event, send_link_down_event}

split_host-some : (ip rest : Str) → (u : Str × Str) × (split_host (ip ++ (b':' ∷ rest)) ≡ some u)
unfolding split_host
split_host-some [] rest = (([], rest), refl)
split_host-some (c ∷ ip) rest = elim (Bool-cases (c == b':')) [
  | inl e ↦ (([], ip ++ (b':' ∷ rest)), rw (e, split_host) refl)
  | inr e ↦ let (u, h) = split_host-some ip rest in ((c ∷ u.0, u.1), rw (e, split_host, h) refl)
]

url_to_ip_port-some :
    (ip rest : Str) → (u : Str × ℕ) × (url_to_ip_port (ip ++ (b':' ∷ rest)) ≡ some u)
unfolding url_to_ip_port
url_to_ip_port-some ip rest =
    let (u, h) = split_host-some ip rest in ((u.0, parse_port 0 u.1), rw (h, url_to_ip_port) refl)

-- The event of a link from the backup is always sent.
pub link_down-sent :
    {ObjectId : Type 0} (backup : BrokerAddress) (l : LinkInfo ObjectId) (q : Bool)
    (m : Manager ObjectId)
    → (n : Manager ObjectId) × (send_link_down_event (get_address backup) (get_link_dest_url l) q m
        ≡ some n)
unfolding send_link_down_event get_address get_link_dest_url ip_port_to_url
link_down-sent backup l q m =
    let (u, h) = url_to_ip_port-some backup.ip (unsigned_to_string backup.port) in
    let (v, k) = url_to_ip_port-some l.host (unsigned_to_string l.port) in
    (
      record m { pipe = m.pipe ++ (link_down_event u.0 u.1 v.0 v.1 q ∷ []) },
      rw (h, k, send_link_down_event) refl,
    )

-- ===== src/Services/Start.antt =====
-- What `main` of src/proposer.cpp does before its loop: the lists of brokers, and a request to itself
-- for each broker of the subnet. `contents` is what the files hold; a file that does not open, and too
-- many arguments, end the program: `none`.
pub mod Subnet
pub mod Alone
mod Tests
use qpidrecovery.Base.{
  ℕ, zero, suc, ◌+◌, Bool, Option, none, some, List, [], ◌∷◌, ltb, length, get_or, if◌then◌else◌,
  ◌>>=◌,
}
use qpidrecovery.Text.{Str, codes}
use qpidrecovery.Common.{ParticipateRequest}
use qpidrecovery.Address.{url_to_ip_port}
use qpidrecovery.Names.{VectorAndIndex, new_vector, get_an_element, read_name_list}

pub record BrokerLists : Type 0 where
  pub monitoredbrokers : VectorAndIndex
  pub backupbrokers : VectorAndIndex

abbrev pub default_list : Str
default_list = codes "brokerlist.txt"

unfoldable pub read_list : (Str → Option Str) → Str → VectorAndIndex → Option VectorAndIndex
read_list contents filename vec = do file ← contents filename; some (read_name_list file vec)

-- readBackupBrokerArgument of the list, in distributed mode.
unfoldable pub read_distributed : (Str → Option Str) → Bool → Str → BrokerLists → Option BrokerLists
read_distributed contents isdistributed filename b =
    if isdistributed
    then (do
      backup ← read_list contents filename b.backupbrokers
      some (record b { backupbrokers = backup }))
    else some b

-- The arguments behind the name of the program, in the modes that it is built for.
unfoldable pub read_brokers : (Str → Option Str) → Bool → Bool → List Str → Option BrokerLists
unfolding read_distributed
read_brokers contents iscentralized isdistributed args =
    let first = get_or args 0 default_list in
    let second = get_or args 1 default_list in
    let empty : BrokerLists = record {
      monitoredbrokers = new_vector;
      backupbrokers = new_vector;
    } in
    if ltb (if iscentralized then 3 else 2) (length args + 1)
    then none
    else if iscentralized
    then (do
      monitored ← read_list contents first new_vector
      backup ← read_list contents second new_vector
      read_distributed contents isdistributed first
          (record { monitoredbrokers = monitored; backupbrokers = backup }))
    else read_distributed contents isdistributed first empty

-- The request for a broker of the subnet; a url without a colon is a fault. The array of acceptors
-- has no values, and none is counted.
unfoldable pub subnet_request : Str → Option ParticipateRequest
subnet_request brokerurl = do
  (ip, port) ← url_to_ip_port brokerurl
  some (record {
    name = ip;
    brokerip = ip;
    brokerport = port;
    votingversion = 2;
    committedversion = 1;
    count = 0;
    acceptor = [];
  })

abbrev pub posted :
    Bool → ParticipateRequest → Option (List ParticipateRequest) → Option (List ParticipateRequest)
posted ok r none = none
posted ok r (some rs) = some (if ok then r ∷ rs else rs)

-- The loop over getSubnetBrokerURL, from request `i` on, and whether request `i` is written.
unfoldable pub subnet_loop : ℕ → (ℕ → Bool) → ℕ → VectorAndIndex → Option (List ParticipateRequest)
unfolding subnet_request
subnet_loop zero written i v = none
subnet_loop (suc fuel) written i v =
    let rest = subnet_loop fuel written (i + 1) (get_an_element v).1 in
    elim (get_an_element v).0 [
      | none ↦ some []
      | some brokerurl ↦ elim (subnet_request brokerurl) [
        | none ↦ none
        | some r ↦ posted (written i) r rest
      ]
    ]

-- Each round takes one of the brokers, and the last finds none.
unfoldable pub subnet_requests : (ℕ → Bool) → VectorAndIndex → Option (List ParticipateRequest)
unfolding subnet_loop
subnet_requests written v = subnet_loop (suc (length v.elements)) written 0 v

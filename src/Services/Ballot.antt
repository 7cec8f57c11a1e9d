-- ===== src/Services/Ballot.antt =====
-- A failover of src/proposer.cpp with the acceptors of src/acceptor.cpp: startRecovery, and the two
-- rounds of messages of src/paxos/paxos.cpp that handlePaxosMessage delivers to the services.
pub mod Delivery
pub mod Rounds
pub mod Started
pub mod Recovered
pub mod Created
mod Tests
use qpidrecovery.Base.{ℕ, Bool, Option, none, some, List, [], ◌∷◌, ◌++◌}
use qpidrecovery.Paxos.Message.{PaxosMessage}
use qpidrecovery.Paxos.Acceptor.{Acceptor}
use qpidrecovery.Paxos.Ballot.{sent, reach}
use qpidrecovery.Recovery.Brokers.{Manager}
use qpidrecovery.Services.{Monitored, Act, World, Services, deliver_message}
use qpidrecovery.Services.Host.{recover_at}
use qpidrecovery.Services.Loop.{selector_effects}

module _ {ObjectId : Type 0} where
  abbrev pub then_acts :
      List (Act ObjectId) → Option (Services ObjectId) → Option (Services ObjectId)
  then_acts es none = none
  then_acts es (some (xs, manager, fs)) = some (xs, manager, es ++ fs)

  abbrev pub beside :
      List (Option Acceptor)
      → Option (Services ObjectId)
      → Option (List (Option Acceptor) × Services ObjectId)
  beside members none = none
  beside members (some s) = some (members, s)

module _ {ObjectId : Type 0} (id_eq : ObjectId → ObjectId → Bool) where
  -- Messages that the loop gets one after the other, all from one descriptor.
  unfoldable pub deliver_all :
      World ObjectId
      → ℕ
      → List PaxosMessage
      → List Monitored
      → Manager ObjectId
      → Option (Services ObjectId)
  deliver_all w fd [] xs manager = some (xs, manager, [])
  deliver_all w fd (m ∷ ms) xs manager = elim (deliver_message id_eq w fd m xs manager) [
    | none ↦ none
    | some (ys, n, es) ↦ then_acts es (deliver_all w fd ms ys n)
  ]

  -- What the services have sent reaches the acceptors, and their answers reach the services.
  unfoldable pub round :
      World ObjectId
      → ℕ
      → List (Option Acceptor)
      → Services ObjectId
      → Option (List (Option Acceptor) × Services ObjectId)
  round w fd members (xs, manager, acts) =
      elim (reach w.now fd (sent (selector_effects acts)) members) [
        | none ↦ none
        | some (next, ms) ↦ beside next (deliver_all w fd ms xs manager)
      ]

  -- The recovery of service `i`, and the two rounds.
  unfoldable pub failover :
      World ObjectId
      → ℕ
      → ℕ
      → List (Option Acceptor)
      → List Monitored
      → Manager ObjectId
      → Option (Services ObjectId)
  failover w fd i members xs manager = elim (recover_at id_eq w i [] xs manager) [
    | none ↦ none
    | some (ys, n, es) ↦ elim (round w fd members (ys, n, es)) [
      | none ↦ none
      | some (next, s) ↦ elim (round w fd next s) [
        | none ↦ none
        | some (last, (us, q, gs)) ↦ some (us, q, es ++ (s.2 ++ gs))
      ]
    ]
  ]

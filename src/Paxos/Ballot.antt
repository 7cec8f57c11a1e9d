-- ===== src/Paxos/Ballot.antt =====
-- A proposer of src/paxos/paxos.cpp and the acceptors that answer it, from newProposal to the
-- commitment.
pub mod Answers
pub mod Acks
pub mod Commits
use qpidrecovery.Base.{ℕ, zero, suc, ◌≡◌, ◌≢◌, Option, none, some, List, [], ◌∷◌, ◌++◌, Ordering}
use qpidrecovery.Text.{str_eq_refl}
use qpidrecovery.Paxos.Proposal.{Proposal, compare_proposal}
use qpidrecovery.Paxos.Proposal.Content.{compare_proposal_self}
use qpidrecovery.Paxos.Message.{
  MessageType, phase1proposal, phase1ack, phase2request, phase2ack, PaxosState, handled, ignored,
  committing_self, committing_other, PaxosMessage, Effect, Fd, send, register_fd, unregister_fd,
  close_fd, Outcome, outcome,
}
use qpidrecovery.Paxos.Acceptor.{Acceptor}
use qpidrecovery.Paxos.Acceptor
use qpidrecovery.Paxos.Proposer.{
  broadcast, to_acceptors, Proposer, new_proposal, get_committing_proposal, is_ready_to_commit,
}
use qpidrecovery.Paxos.Proposer

-- The messages among some effects.
unfoldable pub sent : List Effect → List PaxosMessage
sent [] = []
sent (send fd m ∷ es) = m ∷ sent es
sent (register_fd fd ∷ es) = sent es
sent (unregister_fd fd ∷ es) = sent es
sent (close_fd fd ∷ es) = sent es

-- The acceptors behind the open slots, in order, or `none` where the messages to one, or its answers,
-- are lost. No message goes to an acceptor behind a closed slot.
abbrev pub Answered : Type 0
Answered = List (Option Acceptor) × List PaxosMessage

abbrev pub answered : Outcome Acceptor → Option Answered → Option Answered
answered o none = none
answered o (some (members, ms)) = some (some o.machine ∷ members, sent o.effects ++ ms)

abbrev pub silent : Option Answered → Option Answered
silent none = none
silent (some (members, ms)) = some (none ∷ members, ms)

-- Each message reaches its acceptor: what it makes of them, and their answers.
unfoldable pub reach : ℕ → ℕ → List PaxosMessage → List (Option Acceptor) → Option Answered
reach now fd [] members = some (members, [])
reach now fd (m ∷ ms) [] = some ([], [])
reach now fd (m ∷ ms) (none ∷ members) = silent (reach now fd ms members)
reach now fd (m ∷ ms) (some a ∷ members) = elim (Acceptor.handle_message now fd m a) [
  | none ↦ none
  | some o ↦ answered o (reach now fd ms members)
]

abbrev pub preceded : List Effect → Option (Outcome Proposer) → Option (Outcome Proposer)
preceded es none = none
preceded es (some o) = some (record o { effects = es ++ o.effects })

-- Messages reach the proposer, up to the first at which it reports a commitment.
unfoldable pub listen : ℕ → ℕ → List PaxosMessage → Proposer → Option (Outcome Proposer)
listen now fd [] s = some (outcome s handled [])
listen now fd (m ∷ ms) s = elim (Proposer.handle_message now fd m s) [
  | none ↦ none
  | some o ↦ elim o.result [
    | committing_self ↦ some o
    | committing_other ↦ some o
    | handled ↦ preceded o.effects (listen now fd ms o.machine)
    | ignored ↦ preceded o.effects (listen now fd ms o.machine)
  ]
]

-- What the proposer has sent reaches the acceptors, and their answers reach the proposer.
unfoldable pub exchange :
    ℕ
    → ℕ
    → List (Option Acceptor)
    → Outcome Proposer
    → Option (List (Option Acceptor) × Outcome Proposer)
exchange now fd members o = elim (reach now fd (sent o.effects) members) [
  | none ↦ none
  | some (next, ms) ↦ elim (listen now fd ms o.machine) [ none ↦ none | some u ↦ some (next, u) ]
]

-- newProposal, and the two rounds of messages.
unfoldable pub ballot :
    ℕ → ℕ → Proposal → Proposer → List (Option Acceptor) → Option (Outcome Proposer)
ballot now fd p s members = elim (exchange now fd members (new_proposal now p s)) [
  | none ↦ none
  | some (next, o) ↦ elim (exchange now fd next o) [ none ↦ none | some (last, u) ↦ some u ]
]

-- An acceptor that can still promise the proposal.
pub record IsFree (s : Proposer) (p : Proposal) (a : Acceptor) : Type 0 where
  pub name : a.name ≡ s.name
  pub version : a.version ≡ s.version
  pub state : a.state ≡ PaxosState.phase1
  pub promise : compare_proposal a.promise p ≢ Ordering.gt

abbrev pub AllFree : Proposer → Proposal → List (Option Acceptor) → Type 0
AllFree s p [] = Unit
AllFree s p (none ∷ members) = AllFree s p members
AllFree s p (some a ∷ members) = IsFree s p a × AllFree s p members

-- How many are there to answer.
abbrev pub answering : {A : Type 0} → List (Option A) → ℕ
answering [] = 0
answering (none ∷ members) = answering members
answering (some a ∷ members) = suc (answering members)

-- How many of the first `n` slots are open.
abbrev pub opened : ℕ → List Fd → ℕ
opened zero slots = 0
opened (suc n) [] = 0
opened (suc n) (none ∷ slots) = opened n slots
opened (suc n) (some fd ∷ slots) = suc (opened n slots)

-- ===== src/Requestor/Commit.antt =====
-- handleCommit and handlePaxosMessage of src/requestor.cpp.
pub mod Changed
pub mod Next
use qpidrecovery.Base.{ℕ, ◌+◌, Bool, true, false, Option, none, some, List, [], ◌∷◌, ◌++◌, u32}
use qpidrecovery.Paxos.Proposal.{
  Proposal, no_proposal, recovery, acceptor_change, AcceptorChangeProposal, new_acceptor_change,
  get_version,
}
use qpidrecovery.Paxos.Message.{
  PaxosMessage, PaxosResult, handled, ignored, committing_self, committing_other, Outcome,
}
use qpidrecovery.Paxos.Proposer.{
  Proposer, new_proposer, disconnect_acceptors, get_committing_proposal, send_commitment,
  handle_message,
}
use qpidrecovery.Requestor.{Requestor, Act, World, acts_of, change_acceptor, skip_answers}

pub record Committed : Type 0 where
  pub requestor : Requestor
  pub acts : List Act
  pub ok : Bool

abbrev pub committed : Requestor → List Act → Bool → Committed
committed s acts ok = record { requestor = s; acts = acts; ok = ok }

-- The acceptors are changed, the old ones get the commitment, and a new state machine replaces the
-- one that proposed it. (The program proposes no change to more than MAX_ACCEPTORS acceptors.)
unfoldable pub commit_change : World → AcceptorChangeProposal → Requestor → Committed
commit_change w ap s =
    let (new, asked) =
      change_acceptor w s.acceptors s.proposers s.servicename s.brokerport s.currentversion
        ap.nacceptor ap.acceptor in
    let (told, sent) = send_commitment w.now s.psm in
    let (newpsm, connected) =
      new_proposer w.now s.servicename (u32 (s.currentversion + 1))
        (new_acceptor_change s.currentversion ap.nacceptor ap.acceptor)
        (skip_answers ap.nacceptor w.answers) in
    committed (record s { acceptors = new; psm = newpsm; ischangingacceptor = false })
      (asked ++ acts_of (sent ++ (connected ++ (disconnect_acceptors told).1))) true

-- The cases for the type of the proposal, and for who commits it.
unfoldable pub commit_of : World → PaxosResult → Proposal → Requestor → Committed
commit_of w r no_proposal s = committed s [] true
commit_of w r (recovery rp) s = committed s [] false
commit_of w committing_self (acceptor_change ap) s = commit_change w ap s
commit_of w committing_other (acceptor_change ap) s = committed s [] false
commit_of w handled (acceptor_change ap) s = committed s [] false
commit_of w ignored (acceptor_change ap) s = committed s [] false

-- handleCommit; `none` is the null proposal.
unfoldable pub handle_commit : World → PaxosResult → Requestor → Option Committed
handle_commit w handled s = some (committed s [] false)
handle_commit w ignored s = some (committed s [] false)
handle_commit w committing_self s = elim (get_committing_proposal s.psm) [
  | none ↦ none
  | some p ↦ some (commit_of w committing_self p (record s { currentversion = get_version p }))
]
handle_commit w committing_other s = elim (get_committing_proposal s.psm) [
  | none ↦ none
  | some p ↦ some (commit_of w committing_other p (record s { currentversion = get_version p }))
]

abbrev pub behind : List Act → Option Committed → Option Committed
behind es none = none
behind es (some c) = some (record c { acts = es ++ c.acts })

-- What follows a call of the state machine: its effects, and handleCommit.
unfoldable pub after_outcome : World → Outcome Proposer → Requestor → Option Committed
after_outcome w o s =
    behind (acts_of o.effects) (handle_commit w o.result (record s { psm = o.machine }))

-- handlePaxosMessage, for a message that was received.
unfoldable pub handle_paxos_message : World → ℕ → PaxosMessage → Requestor → Option Committed
handle_paxos_message w ready m s = elim (handle_message w.now ready m s.psm) [
  | none ↦ none
  | some o ↦ after_outcome w o s
]

-- ===== src/Requestor/Commit/Next.antt =====
-- The first proposal after a change of the acceptors that the requestor program has committed.
use qpidrecovery.Base.{
  ℕ, ◌+◌, ◌*◌, ◌<◌, ◌≤◌, ◌≡◌, refl, true, Option, some, List, length, u32, arith,
}
use qpidrecovery.Paxos.Proposal.{
  Proposal, acceptor_change, AcceptorChangeProposal, max_acceptors, IsScored, get_version,
  new_acceptor_change,
}
use qpidrecovery.Paxos.Message.{committing_self, Outcome}
use qpidrecovery.Paxos.Proposer.{
  Proposer, is_ready_to_commit, get_committing_proposal, new_proposer,
}
use qpidrecovery.Paxos.Ballot.{ballot, answering, opened}
use qpidrecovery.Paxos.Ballot.Commits.{ballot_commits}
use qpidrecovery.Acceptors.{AcceptorName}
use qpidrecovery.Acceptors.Hosted.{
  hosted, AllNamed, hosted-AllFree, answering-hosted, length-hosted, opened-new_proposer,
}
use qpidrecovery.Requestor.{Requestor, World, skip_answers}
use qpidrecovery.Requestor.Commit.{Committed, handle_commit, commit_of, commit_change}
use qpidrecovery.Requestor.Commit.Changed.{request_of}

-- If the state machine of the requestor program has a majority for its change to at most
-- MAX_ACCEPTORS acceptors, and more than half of the new ones are among those that it connects to, get
-- the request that is sent to them and make a state machine for it with createAcceptor, next to those
-- of other names, then, whichever other connections fail, handleCommit succeeds, and the next proposal of the new state machine, with any
-- score below 2^31, goes through both rounds and is committed.
pub next_ballot_commits :
    (w : World) (s : Requestor) (change : AcceptorChangeProposal) (now fd : ℕ) (p : Proposal)
    (hosts : List (Option (List AcceptorName)))
    → is_ready_to_commit s.psm ≡ true
    → s.psm.proposal ≡ acceptor_change change
    → change.nacceptor ≤ max_acceptors
    → IsScored p
    → AllNamed hosts
    → length hosts ≤ opened change.nacceptor (skip_answers change.nacceptor w.answers)
    → change.nacceptor < answering hosts * 2
    → (c : Committed) × (o : Outcome Proposer) × (handle_commit w committing_self s ≡ some c)
      × (ballot now fd p c.requestor.psm (hosted now (request_of s change) hosts) ≡ some o)
      × (o.result ≡ committing_self)
      × (get_committing_proposal o.machine ≡ some p)
unfolding handle_commit get_committing_proposal commit_of get_version commit_change new_proposer
    new_acceptor_change
next_ballot_commits w s change now fd p hosts h e b k f l m =
    let c = commit_change w change (record s { currentversion = change.newversion }) in
    let r = request_of s change in
    let n = answering-hosted now r hosts b f in
    let q = length-hosted now r hosts in
    let a =
      opened-new_proposer w.now s.servicename (u32 (change.newversion + 1))
        (new_acceptor_change change.newversion change.nacceptor change.acceptor)
        (skip_answers change.nacceptor w.answers) b in
    let (o, x, y, z) =
      ballot_commits now fd p c.requestor.psm (hosted now r hosts) b refl refl (omega (arith, q, a))
        (hosted-AllFree now r hosts c.requestor.psm p b f refl refl k) (omega (arith, n)) in
    (c, o, rw (h, e, handle_commit, get_committing_proposal) refl, x, y, z)

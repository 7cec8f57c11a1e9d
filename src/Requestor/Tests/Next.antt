-- ===== src/Requestor/Tests/Next.antt =====
-- A witness for the proposal that follows a change of the acceptors.
use qpidrecovery.Base.{◌≡◌, refl, some, List, [], ◌∷◌, Option, arith}
use qpidrecovery.Paxos.Message.{committing_self, Outcome}
use qpidrecovery.Paxos.Proposer.{Proposer, get_committing_proposal}
use qpidrecovery.Paxos.Ballot.{ballot}
use qpidrecovery.Paxos.Tests.{failover}
use qpidrecovery.Acceptors.{AcceptorName}
use qpidrecovery.Acceptors.Hosted.{hosted}
use qpidrecovery.Requestor.{skip_answers}
use qpidrecovery.Requestor.Commit.{Committed, handle_commit}
use qpidrecovery.Requestor.Commit.Changed.{request_of}
use qpidrecovery.Requestor.Commit.Next.{next_ballot_commits}
use qpidrecovery.Requestor.Tests.{world, requestor, grown, majority}

abbrev hosts : List (Option (List AcceptorName))
hosts = some [] ∷ []

next_ballot_commits_example :
    (c : Committed) × (o : Outcome Proposer) × (handle_commit world committing_self requestor
      ≡ some c)
    × (ballot 11000000 9 failover c.requestor.psm
          (hosted 11000000 (request_of requestor grown) hosts)
        ≡ some o)
    × (o.result ≡ committing_self)
    × (get_committing_proposal o.machine ≡ some failover)
unfolding skip_answers
next_ballot_commits_example =
    next_ballot_commits world requestor grown 11000000 9 failover hosts majority refl (omega arith)
      (omega arith) (tt, tt) (omega arith) (omega arith)

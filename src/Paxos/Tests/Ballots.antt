-- ===== src/Paxos/Tests/Ballots.antt =====
-- A witness for a whole ballot: two of three acceptors answer.
use qpidrecovery.Base.{◌≡◌, ◌≢◌, refl, Ordering, none, some, [], ◌∷◌, arith}
use qpidrecovery.Paxos.Proposal.{no_proposal, compare_proposal, compare_values, get_value}
use qpidrecovery.Paxos.Message.{PaxosState, committing_self, Outcome}
use qpidrecovery.Paxos.Proposer.{Proposer, get_committing_proposal}
use qpidrecovery.Paxos.Ballot.{ballot, IsFree}
use qpidrecovery.Paxos.Ballot.Commits.{ballot_commits}
use qpidrecovery.Paxos.Tests.{service, failover, fresh}

abbrev proposer : Proposer
proposer = record {
  name = service;
  version = 1;
  lastcommit = no_proposal;
  state = PaxosState.initial;
  timestamp = 1;
  proposal = no_proposal;
  phase1acks = 0;
  phase1nacks = 0;
  phase2acks = 0;
  phase2nacks = 0;
  nacceptor = 3;
  accsfd = some 3 ∷ none ∷ some 5 ∷ none ∷ none ∷ [];
}

lower : compare_proposal no_proposal failover ≢ Ordering.gt
unfolding compare_proposal compare_values get_value
lower = λ e. ground (arith, e)

free : IsFree proposer failover fresh
free = record { name = refl; version = refl; state = refl; promise = lower }

ballot_commits_example :
    (o : Outcome Proposer) × (ballot 7 9 failover proposer (some fresh ∷ some fresh ∷ []) ≡ some o)
    × (o.result ≡ committing_self)
    × (get_committing_proposal o.machine ≡ some failover)
ballot_commits_example =
    ballot_commits 7 9 failover proposer (some fresh ∷ some fresh ∷ []) (omega arith) refl refl
      (omega arith) (free, (free, tt)) (omega arith)

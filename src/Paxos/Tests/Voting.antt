-- ===== src/Paxos/Tests/Voting.antt =====
-- The acceptor's theorems at concrete inputs.
use qpidrecovery.Base.{◌≡◌, ◌≢◌, refl, Ordering, some, List, [], ◌∷◌, arith}
use qpidrecovery.Text.{strcmp, str_eq}
use qpidrecovery.Paxos.Proposal.{
  no_proposal, acceptor_change, compare_proposal, compare_recovery, compare_values, get_value,
}
use qpidrecovery.Paxos.Message.{phase1proposal, phase2request, PaxosState}
use qpidrecovery.Paxos.Acceptor.{Acceptor, Quiet, votes, vote}
use qpidrecovery.Paxos.Acceptor
use qpidrecovery.Paxos.Acceptor.Phases.{run-promise}
use qpidrecovery.Paxos.Acceptor.Votes.{vote_again, request}
use qpidrecovery.Paxos.Proposer.{Proposer, is_ready_to_commit}
use qpidrecovery.Paxos.Proposal.Content.{SameContent}
use qpidrecovery.Paxos.Agreement.{Member, votes_for, tally, ready_agreement}
use qpidrecovery.Paxos.Tests.{service, failover, low_failover, change, fresh, outbid, outbid-Quiet}

abbrev locked : Acceptor
locked = record fresh { state = PaxosState.phase2; timestamp = 5; promise = low_failover }

abbrev promised : Acceptor
promised = record fresh { timestamp = 5; promise = failover }

abbrev committed : Acceptor
committed = record fresh { state = PaxosState.phase3; timestamp = 9; lastcommit = failover }

vote_again_example :
    votes locked (
      Acceptor.tick 4000006 4000000
      ∷ Acceptor.message 4000007 3 (request phase1proposal locked failover)
      ∷ Acceptor.message 4000008 3 (request phase2request locked failover)
      ∷ [])
    ≡ failover ∷ []
vote_again_example =
    vote_again locked 4000006 4000000 4000007 4000008 3 failover refl (omega arith) (omega arith)

run-promise_example : compare_proposal no_proposal failover ≢ Ordering.gt
unfolding Acceptor.run Acceptor.step Acceptor.handle_message Acceptor.dispatch
    Acceptor.handle_phase1_message Acceptor.handle_phase2_message compare_proposal compare_values
    get_value compare_recovery str_eq strcmp
run-promise_example =
    run-promise fresh (record locked { promise = failover }) outbid tt (omega arith) outbid-Quiet
      refl

abbrev members : List Member
members = (fresh, outbid) ∷ []

abbrev candidate : Proposer
candidate = record {
  name = service;
  version = 1;
  lastcommit = acceptor_change change;
  state = PaxosState.phase2;
  timestamp = 5;
  proposal = failover;
  phase1acks = 1;
  phase1nacks = 0;
  phase2acks = 1;
  phase2nacks = 0;
  nacceptor = 1;
  accsfd = some 3 ∷ [];
}

ready_agreement_example : SameContent failover failover
unfolding votes_for tally votes vote Acceptor.step is_ready_to_commit Acceptor.handle_message
    Acceptor.dispatch Acceptor.handle_phase1_message Acceptor.handle_phase2_message compare_proposal
    compare_values get_value compare_recovery str_eq strcmp
ready_agreement_example =
    ready_agreement candidate (record candidate { version = 2 }) members refl refl (omega arith)
      (outbid-Quiet, tt) (omega arith) (omega arith) refl refl

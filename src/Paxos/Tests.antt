-- ===== src/Paxos/Tests.antt =====
-- Runs of the Paxos library, and its theorems at concrete inputs.
mod Voting
mod Committing
mod Ballots
use qpidrecovery.Base.{◌≤◌, ◌≡◌, ◌≢◌, ◌↔◌, refl, Ordering, List, [], ◌∷◌, length, arith}
use qpidrecovery.Text.{Str, strcmp, str_eq, opposite}
use qpidrecovery.Paxos.Proposal.{
  Proposal, no_proposal, recovery, acceptor_change, AcceptorChangeProposal, compare_proposal,
  compare_recovery, compare_values, get_value,
}
use qpidrecovery.Paxos.Proposal.Order.{compare_proposal_lem}
use qpidrecovery.Paxos.Proposal.Content.{SameContent, compare_proposal-eq-content}
use qpidrecovery.Paxos.Message.{MessageType, phase1proposal, phase2request, PaxosState}
use qpidrecovery.Paxos.Acceptor.{Acceptor, Quiet, votes, vote}
use qpidrecovery.Paxos.Acceptor
use qpidrecovery.Paxos.Acceptor.Votes.{votes_bound, request}
use qpidrecovery.Paxos.Proposer

abbrev pub service : Str
service = 0x61 ∷ 0x62 ∷ []

abbrev pub failed_ip : Str
failed_ip = 0x31 ∷ 0x2e ∷ 0x31 ∷ []

abbrev pub backup_ip : Str
backup_ip = 0x31 ∷ 0x2e ∷ 0x32 ∷ []

abbrev pub failover : Proposal
failover = recovery (record {
  newversion = 1;
  failip = failed_ip;
  failport = 5672;
  backupip = backup_ip;
  backupport = 5672;
  score = 100;
})

abbrev pub low_failover : Proposal
low_failover = recovery (record {
  newversion = 1;
  failip = failed_ip;
  failport = 5672;
  backupip = failed_ip;
  backupport = 5673;
  score = 7;
})

abbrev pub change : AcceptorChangeProposal
change = record { newversion = 0; nacceptor = 1; acceptor = failed_ip ∷ [] ∷ [] ∷ [] ∷ [] ∷ [] }

abbrev pub fresh : Acceptor
fresh = record {
  name = service;
  version = 1;
  lastcommit = acceptor_change change;
  state = PaxosState.phase1;
  timestamp = 0;
  promise = no_proposal;
}

abbrev pub ask : MessageType → Proposal → Acceptor.Event
ask t p = Acceptor.message 5 3 (request t fresh p)

-- A proposal that is promised, outbid, and committed.
abbrev pub outbid : List Acceptor.Event
outbid =
    ask phase1proposal low_failover
    ∷ ask phase1proposal failover
    ∷ ask phase2request low_failover
    ∷ ask phase2request failover
    ∷ []

outbid-votes : votes fresh outbid ≡ failover ∷ []
unfolding votes vote Acceptor.step Acceptor.handle_message Acceptor.dispatch
    Acceptor.handle_phase1_message Acceptor.handle_phase2_message compare_proposal compare_values
    get_value compare_recovery str_eq strcmp
outbid-votes = refl

pub outbid-Quiet : Quiet fresh outbid
unfolding Acceptor.step Acceptor.handle_message Acceptor.dispatch Acceptor.handle_phase1_message
    Acceptor.handle_phase2_message compare_proposal compare_values get_value compare_recovery str_eq
    strcmp
outbid-Quiet = omega arith

votes_bound_example : length (votes fresh outbid) ≤ 1
votes_bound_example = votes_bound fresh outbid outbid-Quiet

compare_proposal_lem_example :
    (compare_proposal low_failover no_proposal
      ≡ opposite (compare_proposal no_proposal low_failover))
    × (compare_proposal no_proposal low_failover ≢ Ordering.gt
        → compare_proposal low_failover failover ≢ Ordering.gt
        → compare_proposal no_proposal failover ≢ Ordering.gt)
compare_proposal_lem_example =
    compare_proposal_lem no_proposal low_failover failover tt (omega arith) (omega arith)

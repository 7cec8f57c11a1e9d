-- ===== src/Services/Ballot/Tests.antt =====
-- A witness for a failover: two of the three acceptors answer, and one is not connected.
use qpidrecovery.Base.{
  ◌≡◌, ◌≢◌, refl, false, Ordering, Option, none, some, List, [], ◌∷◌, ◌++◌, ◌==◌, arith,
}
use qpidrecovery.Text.{codes, str_eq, strcmp}
use qpidrecovery.Paxos.Proposal.{
  Proposal, no_proposal, new_recovery, compare_proposal, compare_values, get_value,
}
use qpidrecovery.Paxos.Message.{PaxosState, Effect}
use qpidrecovery.Paxos.Acceptor.{Acceptor}
use qpidrecovery.Paxos.Ballot.{IsFree}
use qpidrecovery.Paxos.Tests.{service, fresh}
use qpidrecovery.Services.{Monitored}
use qpidrecovery.Services.Tests.{
  waiting, client, monitored, world, backup_url, backup_object, recorded,
}
use qpidrecovery.Common.{ParticipateRequest}
use qpidrecovery.Paxos.Message.{Fd}
use qpidrecovery.Acceptors.{AcceptorName}
use qpidrecovery.Acceptors.Named.{find_acceptor}
use qpidrecovery.Acceptors.Hosted.{hosted}
use qpidrecovery.Services.Create.{erase_service, create_proposer}
use qpidrecovery.Services.Ballot.Created.{created, created_failover}
use qpidrecovery.Services.Ballot.Recovered.{RecoversOnce, failover_lem}

abbrev asking : Monitored
asking = record monitored {
  hbc = some client;
  psm = record waiting {
    state = PaxosState.initial;
    phase1acks = 0;
    nacceptor = 3;
    accsfd = some 3 ∷ none ∷ some 5 ∷ none ∷ none ∷ [];
  };
}

abbrev other : Monitored
other = record monitored { name = codes "other"; psm = record waiting { name = codes "other" } }

abbrev members : List (Option Acceptor)
members = some fresh ∷ some fresh ∷ []

abbrev wanted : Proposal
wanted = new_recovery 1 (codes "10.0.0.1") 5672 (codes "10.0.0.2") 5672 100

other_name : str_eq service (codes "other") ≡ false
unfolding str_eq strcmp
other_name = refl

lower : compare_proposal no_proposal wanted ≢ Ordering.gt
unfolding compare_proposal compare_values get_value new_recovery
lower = λ e. ground (arith, e)

free : IsFree asking.psm wanted fresh
free = record { name = refl; version = refl; state = refl; promise = lower }

failover_example :
    RecoversOnce ◌==◌ world 9 (other ∷ []) asking [] recorded members (codes "10.0.0.2") 5672
failover_example =
    failover_lem ◌==◌ world 9 (other ∷ []) asking [] recorded members client (codes "10.0.0.2:5672")
      (codes "10.0.0.2") 5672 backup_object refl refl backup_url refl (other_name, tt) (omega arith)
      refl refl (omega arith) (free, (free, tt)) (omega arith)

abbrev request : ParticipateRequest
request = record {
  name = service;
  brokerip = [];
  brokerport = 5672;
  votingversion = 4;
  committedversion = 3;
  count = 3;
  acceptor = codes "10.0.0.7" ∷ codes "10.0.0.8" ∷ codes "10.0.0.9" ∷ [];
}

abbrev answers : List Fd
answers = some 11 ∷ none ∷ some 13 ∷ some 14 ∷ []

-- The request reaches an acceptor program without acceptors, and one that has the service already;
-- the third acceptor is not connected.
abbrev hosts : List (Option (List AcceptorName))
hosts = some [] ∷ some (record { acc = fresh; name = service } ∷ []) ∷ []

find_none : find_acceptor service [] ≡ none
unfolding find_acceptor
find_none = refl

created_failover_example :
    let front = erase_service service (other ∷ []) in
    let x = created 3 answers request (codes "10.0.0.1") in
    ((es : List Effect) × (create_proposer 3 answers request (codes "10.0.0.1") (other ∷ [])
        ≡ some (front ++ (x ∷ []), es)))
    × RecoversOnce ◌==◌ world 9 front x [] recorded (hosted 3 request hosts) (codes "10.0.0.2") 5672
created_failover_example =
    created_failover ◌==◌ world 9 3 answers request (codes "10.0.0.1") (other ∷ []) recorded hosts
      (codes "10.0.0.2:5672") (codes "10.0.0.2") 5672 backup_object (refl, tt, tt)
      (tt, ((refl, find_none, tt), tt)) (omega arith) (omega arith) (omega arith) refl backup_url
      refl (omega arith)

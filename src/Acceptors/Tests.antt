-- ===== src/Acceptors/Tests.antt =====
-- Witnesses for the acceptors of a process.
use qpidrecovery.Base.{◌≡◌, refl, true, none, some, List, [], ◌∷◌, if◌then◌else◌}
use qpidrecovery.Text.{Str, str_eq, strcmp, codes}
use qpidrecovery.Common.{ParticipateRequest}
use qpidrecovery.Paxos.Message.{PaxosMessage, phase1proposal, Outcome}
use qpidrecovery.Paxos.Acceptor.{Acceptor, handle_message, dispatch, handle_phase1_message}
use qpidrecovery.Paxos.Tests.{fresh, failover, service}
use qpidrecovery.FileSelector.{new_file_selector, ready}
use qpidrecovery.Acceptors.{
  AcceptorName, Server, Arrival, create_acceptor, deliver, turn, put_acceptor,
}
use qpidrecovery.Acceptors.Named.{IsNamed, find_acceptor, deliver_lem}
use qpidrecovery.Acceptors.Loop.{turn-IsNamed, KeepsNames}

-- Another service in front of the one that the messages are for.
abbrev other : Acceptor
other = record fresh { name = codes "other" }

abbrev both : List AcceptorName
both = record { acc = other; name = codes "other" } ∷ record { acc = fresh; name = service } ∷ []

both-IsNamed : IsNamed both
unfolding find_acceptor str_eq strcmp
both-IsNamed = (refl, refl, (refl, refl, tt))

abbrev prepare : PaxosMessage
prepare = record { type = phase1proposal; version = 1; name = service; proposal = some failover }

abbrev answered : Outcome Acceptor
answered = handle_phase1_message 5 3 failover 1 fresh

find_lem : find_acceptor service both ≡ some fresh
unfolding find_acceptor str_eq strcmp
find_lem = refl

answered_lem : handle_message 5 3 prepare fresh ≡ some answered
unfolding handle_message dispatch str_eq strcmp
answered_lem = refl

abbrev joining : ParticipateRequest
joining = record {
  name = service;
  brokerip = [];
  brokerport = 5672;
  votingversion = 4;
  committedversion = 3;
  count = 1;
  acceptor = codes "10.0.0.9" ∷ [];
}

deliver_lem_example :
    (ys : List AcceptorName) × (deliver 5 3 prepare both ≡ some (ys, true, answered.effects))
    × IsNamed ys
    × ((n : Str)
        → find_acceptor n ys
          ≡ (if str_eq n service then some answered.machine else find_acceptor n both))
deliver_lem_example = deliver_lem 5 3 prepare both fresh answered both-IsNamed find_lem answered_lem

abbrev server : Server
server = record {
  requestsfd = some 3;
  paxossfd = some 4;
  fs = new_file_selector 0 1000;
  accname = both;
}

abbrev request_comes : Arrival
request_comes = record { request = some joining; accepted = none; received = none }

abbrev joined : Server
joined = record server { accname = put_acceptor 7 joining both }

joined_lem : turn 7 (ready (some 3)) request_comes server ≡ some (joined, [])
unfolding turn create_acceptor
joined_lem = refl

turn-IsNamed_example : IsNamed joined.accname × KeepsNames server.accname joined.accname
turn-IsNamed_example =
    turn-IsNamed 7 (ready (some 3)) request_comes server joined [] both-IsNamed tt joined_lem

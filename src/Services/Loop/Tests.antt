-- ===== src/Services/Loop/Tests.antt =====
-- Witnesses for the loop of the proposer program.
use qpidrecovery.Base.{ℕ, ◌≡◌, refl, true, false, none, some, [], ◌∷◌, ◌==◌}
use qpidrecovery.Text.{codes, str_eq, strcmp}
use qpidrecovery.Common.{ParticipateRequest}
use qpidrecovery.Paxos.Proposal.{no_proposal, new_acceptor_change}
use qpidrecovery.Paxos.Message.{PaxosState}
use qpidrecovery.Paxos.Proposer.{
  new_proposer, disconnect_acceptors, connect_effects, connect_slots, disconnect_effects,
  disconnect_effects, connect_slots, disconnect_effects,
}
use qpidrecovery.Paxos.Tests.{service}
use qpidrecovery.FileSelector.{
  new_file_selector, ready, apply_effects, register, contains, unregister, contains, remove,
}
use qpidrecovery.Heartbeat.{new_heartbeat_client}
use qpidrecovery.Recovery.Brokers.{new_manager, add_broker}
use qpidrecovery.Services.{acts_of, closed, Monitored, World}
use qpidrecovery.Services.Create.{create_proposer, put_proposer, erase_effects, end_service}
use qpidrecovery.Services.Host.{Host, Arrival, Turn, on_request}
use qpidrecovery.Services.Loop.{perform, selector_effects, turn}
use qpidrecovery.Services.Loop.Served.{IsServed}
use qpidrecovery.Services.Loop.Turns.{turn-IsServed}

abbrev monitored : Monitored
monitored = record {
  psm = record {
    name = service;
    version = 1;
    lastcommit = no_proposal;
    state = PaxosState.initial;
    timestamp = 2;
    proposal = no_proposal;
    phase1acks = 0;
    phase1nacks = 0;
    phase2acks = 0;
    phase2nacks = 0;
    nacceptor = 1;
    accsfd = some 12 ∷ [];
  };
  hbc = some (new_heartbeat_client 2 (codes "10.0.0.1") (some 11));
  name = service;
  ip = codes "10.0.0.1";
  port = 5672;
  informlist = [];
}

abbrev host : Host ℕ
host = record {
  requestsfd = some 3;
  querysfd = some 4;
  recoveryfd = some 5;
  fs = record (new_file_selector 4 0) { regfd = some 3 ∷ some 4 ∷ some 5 ∷ some 11 ∷ some 12 ∷ [] };
  monitor = monitored ∷ [];
  dstproposers = [];
  listening = [];
  manager = new_manager;
  totaltime = 0;
}

-- The service is monitored again, with another acceptor.
abbrev joining : ParticipateRequest
joining = record {
  name = service;
  brokerip = [];
  brokerport = 5672;
  votingversion = 4;
  committedversion = 3;
  count = 1;
  acceptor = codes "10.0.0.9" ∷ [];
}

abbrev world : World ℕ
world = record {
  now = 7;
  answers = some 8 ∷ some 9 ∷ [];
  writable = λ fd. true;
  backup = none;
  score = 0;
  down = λ ip. false;
  brokerobjs = [];
  linkobjs = [];
}

abbrev request_comes : Arrival ℕ
request_comes = record {
  world = world;
  request = some (6, codes "10.0.0.1", joining);
  asked = none;
  whole = false;
  address = none;
  plist = none;
  received = none;
  pointer = 1;
  shown = λ url. [];
}

abbrev served : Turn ℕ
served = record {
  host = record host {
    fs = record (new_file_selector 4 0) { regfd = some 3 ∷ some 4 ∷ some 5 ∷ some 8 ∷ some 9 ∷ [] };
    monitor = (put_proposer 7 world.answers joining (codes "10.0.0.1") host.monitor).0;
    manager =
        add_broker 1 request_comes.shown (record { ip = codes "10.0.0.1"; port = 5672 })
          host.manager;
  };
  acts =
      closed 6 ∷ acts_of (put_proposer 7 world.answers joining (codes "10.0.0.1") host.monitor).1;
}

served_lem : turn ◌==◌ request_comes (λ i. world) (ready (some 3)) host ≡ some served
unfolding turn on_request perform create_proposer put_proposer erase_effects end_service
    disconnect_acceptors disconnect_effects new_proposer connect_effects selector_effects
    apply_effects register unregister remove new_heartbeat_client str_eq strcmp connect_slots
    contains new_file_selector new_acceptor_change
served_lem = refl

turn-IsServed_example : IsServed served.host.monitor
turn-IsServed_example =
    turn-IsServed ◌==◌ request_comes (λ i. world) (ready (some 3)) host served (refl, tt, tt)
      served_lem

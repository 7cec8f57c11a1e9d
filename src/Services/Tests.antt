-- ===== src/Services/Tests.antt =====
-- Witnesses for the monitored services of a proposer.
use qpidrecovery.Recovery.Store.{empty_store}
use qpidrecovery.Broker.Types.{obj_link}
use qpidrecovery.Broker.Info.{Object}
use qpidrecovery.Base.{ℕ, ◌≡◌, refl, true, false, none, some, List, [], ◌∷◌, ◌==◌}
use qpidrecovery.Text.{codes, str_eq, strcmp, Str}
use qpidrecovery.Address.{BrokerAddress, url_to_ip_port, split_host, parse_port}
use qpidrecovery.Paxos.Proposal.{RecoveryProposal, recovery, acceptor_change}
use qpidrecovery.Paxos.Message.{
  PaxosMessage, phase2ack, PaxosState, committing_self, Outcome, outcome,
}
use qpidrecovery.Paxos.Proposer.{
  Proposer, handle_message, dispatch, handle_phase2_message, after_phase2_reply, is_ready_to_commit,
  get_committing_proposal,
}
use qpidrecovery.Paxos.Tests.{service, change}
use qpidrecovery.Heartbeat.{HeartbeatClient}
use qpidrecovery.Recovery.Copy.{copy_objects, Action}
use qpidrecovery.Recovery.Brokers.{new_manager, delete_broker, Manager}
use qpidrecovery.Services.{Monitored, World, Done, commit_recovery, handle_commit, after_outcome}
use qpidrecovery.Services.Copied.{has_copied}
use qpidrecovery.Services.Failover.{
  HasMajority, RecoversAlone, message_copies, start_recovery_alone,
}

abbrev move : RecoveryProposal
move = record {
  newversion = 1;
  failip = codes "10.0.0.1";
  failport = 5672;
  backupip = codes "10.0.0.2";
  backupport = 5672;
  score = 100;
}

-- Phase 2, before the one ack that is needed.
abbrev pub waiting : Proposer
waiting = record {
  name = service;
  version = 1;
  lastcommit = acceptor_change change;
  state = PaxosState.phase2;
  timestamp = 2;
  proposal = recovery move;
  phase1acks = 1;
  phase1nacks = 0;
  phase2acks = 0;
  phase2nacks = 0;
  nacceptor = 1;
  accsfd = some 3 ∷ [];
}

abbrev majority : Outcome Proposer
majority = outcome (record waiting { phase2acks = 1 }) committing_self []

abbrev pub client : HeartbeatClient
client = record { ip = codes "10.0.0.1"; sfd = some 5; timestamp = 1 }

abbrev pub monitored : Monitored
monitored = record {
  psm = waiting;
  hbc = none;
  name = service;
  ip = codes "10.0.0.1";
  port = 5672;
  informlist = 8 ∷ 9 ∷ [];
}

-- The broker object that the backup shows.
abbrev pub backup_object : Object ℕ
backup_object = record {
  object_id = 1;
  broker_url = codes "10.0.0.2:5672";
  class_name = codes "broker";
  attr_string = λ name. [];
  attr_uint = λ name. 0;
  attr_bool = λ name. false;
  attr_ref = λ name. 0;
}

abbrev pub world : World ℕ
world = record {
  now = 7;
  answers = [];
  writable = λ fd. fd == 8;
  backup = some (codes "10.0.0.2:5672");
  score = 100;
  down = λ ip. false;
  brokerobjs = backup_object ∷ [];
  linkobjs = [];
}

-- A recorded link of the broker with this url.
abbrev pub linked : Str → Manager ℕ
linked url = record new_manager {
  store = record empty_store {
    links =
        record {
          info = record { type = obj_link; objectid = 5; brokerurl = url };
          host = codes "10.0.0.3";
          port = 5672;
        }
        ∷ [];
  };
}

abbrev pub recorded : Manager ℕ
recorded = linked (codes "10.0.0.1:5672")

abbrev ack : PaxosMessage
ack = record { type = phase2ack; version = 1; name = service; proposal = none }

majority_lem : handle_message 7 3 ack waiting ≡ some majority
unfolding handle_message dispatch handle_phase2_message after_phase2_reply is_ready_to_commit str_eq
    strcmp
majority_lem = refl

abbrev moved : Done ℕ
moved =
    commit_recovery ◌==◌ world committing_self move (record monitored { psm = majority.machine })
      recorded

moved_lem : after_outcome ◌==◌ world majority monitored recorded ≡ some moved
unfolding after_outcome handle_commit get_committing_proposal is_ready_to_commit
moved_lem = refl

message_copies_example :
    (has_copied moved.acts ≡ true) × (has_copied moved.acts ≡ true → HasMajority majority.machine)
message_copies_example =
    message_copies ◌==◌ world 3 ack monitored recorded majority moved majority_lem moved_lem

-- A service without acceptors, whose heartbeat is lost. The broker has a link to a host that is down,
-- whose event waits after the copy.
abbrev lonely : Monitored
lonely = record monitored {
  hbc = some client;
  psm = record waiting { state = PaxosState.initial; nacceptor = 0; accsfd = [] };
}

pub backup_url : url_to_ip_port (codes "10.0.0.2:5672") ≡ some (codes "10.0.0.2", 5672)
unfolding url_to_ip_port split_host parse_port
backup_url = refl

start_recovery_alone_example :
    let fail : BrokerAddress = record { ip = codes "10.0.0.1"; port = 5672 } in
    let backup : BrokerAddress = record { ip = codes "10.0.0.2"; port = 5672 } in
    let apart : World ℕ = record world { down = λ ip. true } in
    (calls : List (Action ℕ)) × (copy_objects ◌==◌ apart.down
        (backup_object ∷ [])
        []
        fail
        backup
        (delete_broker fail recorded).store
      ≡ some calls)
    × RecoversAlone ◌==◌ apart lonely recorded (codes "10.0.0.2") 5672 (some calls)
start_recovery_alone_example =
    start_recovery_alone ◌==◌ (record world { down = λ ip. true }) lonely recorded client
      (codes "10.0.0.2:5672") (codes "10.0.0.2") 5672 backup_object refl refl backup_url refl refl

-- ===== src/Requestor/Tests.antt =====
-- Witnesses for the requestor program.
mod Next
use qpidrecovery.Base.{◌+◌, ◌≡◌, refl, true, false, none, some, List, [], ◌∷◌, ◌++◌, All}
use qpidrecovery.Text.{codes}
use qpidrecovery.Paxos.Proposal.{acceptor_change, AcceptorChangeProposal, no_proposal}
use qpidrecovery.Paxos.Proposal.Content.{first_slots}
use qpidrecovery.Paxos.Message.{PaxosState, phase3commit, committing_self, Effect}
use qpidrecovery.Paxos.Proposer.{is_ready_to_commit, to_acceptors}
use qpidrecovery.Paxos.Tests.{service, change}
use qpidrecovery.FileSelector.{
  new_file_selector, ready_timeout, apply_effects, register, contains, reset_timeout,
}
use qpidrecovery.Heartbeat.{HeartbeatClient, new_heartbeat_client}
use qpidrecovery.Names.{new_vector, get_an_element}
use qpidrecovery.Requestor.{
  Requestor, Act, requested, World, acts_of, participate_request, copy_ip_array, send_request,
  reply_proposer_list, drop_clients, register_clients, request_acceptor_port, request_proposer_port,
}
use qpidrecovery.Requestor.Expiry.{unexpired, expiry_effects}
use qpidrecovery.Requestor.Commit.{Committed, handle_commit}
use qpidrecovery.Requestor.Commit.Changed.{handle_commit-changed, sent_to, request_of}
use qpidrecovery.Requestor.Loop.{
  Arrival, turned, turn, add_proposer, ask_proposer, join_proposer, inform_replies, on_timeout,
  perform, selector_effects,
}
use qpidrecovery.Requestor.Loop.Start.{Arguments, new_requestor, with_landmark, start, run}
use qpidrecovery.Requestor.Loop.Timeout.{Beats, on_timeout_lem}
use qpidrecovery.Requestor.Loop.Bounds.{IsBounded}
use qpidrecovery.Requestor.Loop.Arrays.{run-IsBounded}

abbrev old_client : HeartbeatClient
old_client = record { ip = codes "10.0.0.7"; sfd = some 7; timestamp = 1000000 }

abbrev new_client : HeartbeatClient
new_client = record { ip = codes "10.0.0.8"; sfd = some 8; timestamp = 9000000 }

abbrev pub grown : AcceptorChangeProposal
grown = record change { newversion = 2 }

-- Phase 2 of a change of the acceptors, with the ack of the one old acceptor.
abbrev pub requestor : Requestor
requestor = record {
  servicename = service;
  brokerport = 5672;
  expected_proposers = 3;
  expected_acceptors = 5;
  needchangeacceptor = false;
  ischangingacceptor = true;
  proposers = old_client ∷ new_client ∷ [];
  acceptors = old_client ∷ [];
  querysfd = some 4;
  replysfd = 5 ∷ [];
  fs = record (new_file_selector 2 0) { regfd = some 4 ∷ some 7 ∷ some 8 ∷ [] };
  currentversion = 1;
  psm = record {
    name = service;
    version = 2;
    lastcommit = no_proposal;
    state = PaxosState.phase2;
    timestamp = 8000000;
    proposal = acceptor_change grown;
    phase1acks = 1;
    phase1nacks = 0;
    phase2acks = 1;
    phase2nacks = 0;
    nacceptor = 1;
    accsfd = some 3 ∷ [];
  };
  proposernames = record { elements = codes "10.0.0.9" ∷ []; index = 0 };
  acceptornames = record { elements = []; index = 0 };
}

abbrev pub world : World
world = record {
  now = 10000000;
  answers = some 9 ∷ some 10 ∷ [];
  sends = λ ip port. true;
  writable = λ fd. true;
}

on_timeout_lem_example :
    (on_timeout world requestor
      ≡ turned
          (record requestor {
            proposers = unexpired 10000000 requestor.proposers;
            acceptors = unexpired 10000000 requestor.acceptors;
            fs = reset_timeout 2 0 requestor.fs;
          })
          (acts_of (
            expiry_effects 10000000 requestor.proposers
            ++ expiry_effects 10000000 requestor.acceptors)))
    × All (Beats 10000000) (unexpired 10000000 requestor.proposers)
    × All (Beats 10000000) (unexpired 10000000 requestor.acceptors)
on_timeout_lem_example = on_timeout_lem world requestor

pub majority : is_ready_to_commit requestor.psm ≡ true
unfolding is_ready_to_commit
majority = refl

handle_commit-changed_example :
    (c : Committed) × (handle_commit world committing_self requestor ≡ some c)
    × (c.ok ≡ true)
    × ((rest : List Effect) × (c.acts
          ≡ acts_of (drop_clients requestor.acceptors ++ register_clients c.requestor.acceptors)
            ++ (sent_to world request_acceptor_port
                  (request_of requestor grown)
                  (first_slots grown.nacceptor grown.acceptor)
                ++ (sent_to world request_proposer_port
                      (request_of requestor grown)
                      (copy_ip_array requestor.proposers)
                    ++ acts_of (
                        to_acceptors requestor.psm phase3commit (acceptor_change grown) ++ rest)))))
    × (copy_ip_array c.requestor.acceptors ≡ first_slots grown.nacceptor grown.acceptor)
    × (c.requestor.currentversion ≡ grown.newversion)
    × (c.requestor.psm.version ≡ grown.newversion + 1)
    × (c.requestor.psm.state ≡ PaxosState.initial)
    × (c.requestor.ischangingacceptor ≡ false)
handle_commit-changed_example = handle_commit-changed world requestor grown majority refl

abbrev arrival : Arrival
arrival = record { ready = ready_timeout; accepted = none; whole = false; received = none }

abbrev arguments : Arguments
arguments = record {
  servicename = service;
  brokerport = 5672;
  expected_proposers = 1;
  expected_acceptors = 0;
  landmarkip = none;
  proposernames = record { elements = codes "10.0.0.9" ∷ []; index = 0 };
  acceptornames = new_vector;
}

abbrev hbc : HeartbeatClient
hbc = new_heartbeat_client 10000000 (codes "10.0.0.9") (some 9)

-- The program after its first turn, in which it asked one proposer.
abbrev asked : Requestor
asked = record (new_requestor world (some 4) arguments) {
  proposers = hbc ∷ [];
  proposernames = record { elements = codes "10.0.0.9" ∷ []; index = 1 };
  fs = record (new_file_selector 0 0) { regfd = some 4 ∷ some 9 ∷ [] };
}

asked_lem :
    run (start world (some 4) arguments) ((world, arrival) ∷ [])
    ≡ turned asked (
        requested (codes "10.0.0.9") 5610 (participate_request service 5672 0 [])
        ∷ Act.does (Effect.register_fd (some 9))
        ∷ [])
unfolding run start new_requestor with_landmark turn perform add_proposer ask_proposer
    get_an_element join_proposer inform_replies send_request reply_proposer_list selector_effects
    apply_effects register contains new_heartbeat_client new_file_selector
asked_lem = refl

run-IsBounded_example : IsBounded asked
run-IsBounded_example =
    run-IsBounded world (some 4) arguments ((world, arrival) ∷ []) asked _ asked_lem

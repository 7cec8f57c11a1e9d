-- ===== src/Paxos/Tests/Committing.antt =====
-- The proposer's theorems and those of the wire format at concrete inputs.
use mathlib.Core.List.{Memᴰ}
use qpidrecovery.Base.{
  ℕ, ◌≡◌, ◌⊎◌, ◌<◌, ◌*◌, ◌++◌, refl, true, none, some, List, [], ◌∷◌, All, arith,
}
use qpidrecovery.Text.{strcmp, str_eq}
use qpidrecovery.Paxos.Proposal.{acceptor_change}
use qpidrecovery.Paxos.Message.{
  phase1ack, phase2ack, phase3commit, PaxosState, PaxosMessage, MessageType, committing_self,
  committing_other, Fd, outcome, Effect, close_fd, unregister_fd,
}
use qpidrecovery.Paxos.Proposer.{
  Proposer, Event, message, propose, new_proposer, connect_slots, new_proposal, broadcast, step,
  run, handle_message, dispatch, handle_phase1_message, handle_phase2_message, after_phase1_reply,
  after_phase2_reply, is_ready_to_commit, get_committing_proposal, send_commitment, to_acceptors,
}
use qpidrecovery.Paxos.Proposer.Commit.{handle_message-committing, send_commitment_lem, run_final}
use qpidrecovery.Paxos.Proposer.Count.{received, is_phase1ack, is_phase2ack, ready_majority}
use qpidrecovery.Paxos.Wire.{receive, send_message}
use qpidrecovery.Paxos.Wire.RoundTrip.{receive-send, Fits}
use qpidrecovery.Paxos.Tests.{service, failover, change, failed_ip, backup_ip}

abbrev reply : MessageType → PaxosMessage
reply t = record { type = t; version = 1; name = service; proposal = none }

abbrev announcement : PaxosMessage
announcement = record { type = phase3commit; version = 1; name = service; proposal = some failover }

abbrev history : List Event
history = propose 1 failover ∷ message 2 3 (reply phase1ack) ∷ message 3 3 (reply phase2ack) ∷ []

-- Phase 2, before the one ack that is needed.
abbrev waiting : Proposer
waiting = record {
  name = service;
  version = 1;
  lastcommit = acceptor_change change;
  state = PaxosState.phase2;
  timestamp = 2;
  proposal = failover;
  phase1acks = 1;
  phase1nacks = 0;
  phase2acks = 0;
  phase2nacks = 0;
  nacceptor = 1;
  accsfd = some 3 ∷ none ∷ none ∷ none ∷ none ∷ [];
}

abbrev ready : Proposer
ready = record waiting { phase2acks = 1 }

abbrev done : Proposer
done = record ready { state = PaxosState.phase3; lastcommit = failover; accsfd = [] }

ready_majority_example :
    (◌≡◌ {A = ℕ} 1 0)
    ⊎ ((1 < received is_phase1ack service 1 history * 2)
        × (1 < received is_phase2ack service 1 history * 2))
unfolding new_proposer connect_slots run step new_proposal handle_message dispatch
    handle_phase1_message handle_phase2_message after_phase1_reply after_phase2_reply
    is_ready_to_commit str_eq strcmp broadcast
ready_majority_example =
    ready_majority 0 1 service change (some 3 ∷ []) history (record ready { timestamp = 2 }) refl
      refl

handle_message-committing_example :
    (committing_self ≡ committing_self
      → (get_committing_proposal ready ≡ some failover) × (is_ready_to_commit ready ≡ true))
    × (committing_self ≡ committing_other
        → (get_committing_proposal ready ≡ none)
          × (some ready.lastcommit ≡ none)
          × (ready.state ≡ PaxosState.phase3))
unfolding handle_message dispatch handle_phase2_message after_phase2_reply is_ready_to_commit str_eq
    strcmp
handle_message-committing_example =
    handle_message-committing 3 3 (reply phase2ack) waiting (outcome ready committing_self []) refl

send_commitment_lem_example :
    let t = (send_commitment 4 ready).0 in
    (t.state ≡ PaxosState.phase3)
    × (t.lastcommit ≡ failover)
    × (get_committing_proposal t ≡ get_committing_proposal ready)
    × All (λ (fd : Fd). fd ≡ none) t.accsfd
    × ((rest : List Effect) × ((send_commitment 4 ready).1
          ≡ to_acceptors ready phase3commit failover ++ rest)
        × ((fd : ℕ)
            → Memᴰ (some fd) ready.accsfd
            → Memᴰ (unregister_fd (some fd)) rest × Memᴰ (close_fd (some fd)) rest))
unfolding is_ready_to_commit
send_commitment_lem_example = send_commitment_lem 4 ready refl

run_final_example : done ≡ done
unfolding run step handle_message dispatch handle_phase2_message str_eq strcmp
run_final_example = run_final done done (message 5 3 (reply phase2ack) ∷ []) (tt, tt) refl refl

abbrev sendable_name : Fits 40 service
sendable_name = record { short = omega arith; plain = omega arith }

receive-send_example : receive (send_message announcement ++ 7 ∷ []) ≡ some (announcement, 7 ∷ [])
receive-send_example = receive-send announcement (7 ∷ []) (
  tt,
  omega arith,
  sendable_name,
  (omega arith, ip, omega arith, ip', omega arith, omega arith),
  refl,
)
  where
    ip : Fits 20 failed_ip
    ip = record { short = omega arith; plain = omega arith }

    ip' : Fits 20 backup_ip
    ip' = record { short = omega arith; plain = omega arith }

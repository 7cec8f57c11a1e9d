-- ===== src/Paxos/Proposer/Count.antt =====
-- The acks that a proposer has counted are messages that it has received.
use qpidrecovery.Base.{
  ℕ, ◌+◌, ◌*◌, ◌<◌, ◌≤◌, ◌≡◌, ◌⊎◌, inl, inr, Bool, true, false, ◌&&◌, ◌==◌, some, List, [], ◌∷◌,
  arith, Option-cases, if◌then◌else◌,
}
use qpidrecovery.Text.{Str, str_eq}
use qpidrecovery.Paxos.Proposal.{AcceptorChangeProposal}
use qpidrecovery.Paxos.Message.{PaxosState, Outcome, MessageType, phase1ack, phase2ack, Fd}
use qpidrecovery.Paxos.Proposer.{
  Proposer, Event, message, tick, propose, handle_message, dispatch, check_timeout, new_proposal,
  new_proposer, step, run, is_ready_to_commit,
}

abbrev pub is_phase1ack : MessageType → Bool
is_phase1ack phase1ack = true
is_phase1ack _ = false

abbrev pub is_phase2ack : MessageType → Bool
is_phase2ack phase2ack = true
is_phase2ack _ = false

-- The messages to a service and version that satisfy a test of their type.
abbrev hit : (MessageType → Bool) → Str → ℕ → Event → ℕ
hit test name version (message now fd m) =
    if str_eq m.name name && (m.version == version && test m.type) then 1 else 0
hit test name version (tick now timeout) = 0
hit test name version (propose now p) = 0

pub received : (MessageType → Bool) → Str → ℕ → List Event → ℕ
received test name version [] = 0
received test name version (e ∷ es) = hit test name version e + received test name version es

-- `k` and `l` bound the acks counted of each phase; phase 2 is entered by a majority of phase-1
-- acks, or where there is no acceptor.
record Counted (k l : ℕ) (s : Proposer) : Type 0 where
  firsts : s.phase1acks ≤ k
  seconds : s.phase2acks ≤ l
  entered : s.state ≡ PaxosState.phase2 → (s.nacceptor ≡ 0) ⊎ (s.nacceptor < s.phase1acks * 2)

step-Counted :
    (s : Proposer) (e : Event) (o : Outcome Proposer) (k l : ℕ)
    → Counted k l s
    → step s e ≡ some o
    → Counted
        (k + hit is_phase1ack s.name s.version e)
        (l + hit is_phase2ack s.name s.version e)
        o.machine
unfolding step handle_message dispatch check_timeout new_proposal
step-Counted s (message now fd m) o k l c h = ground arith
step-Counted s (tick now timeout) o k l c h = ground arith
step-Counted s (propose now p) o k l c h = ground arith

step_identity :
    (s : Proposer) (e : Event) (o : Outcome Proposer)
    → step s e ≡ some o
    → (o.machine.name ≡ s.name)
      × (o.machine.version ≡ s.version)
      × (o.machine.nacceptor ≡ s.nacceptor)
unfolding step handle_message dispatch check_timeout new_proposal
step_identity s (message now fd m) o h = ground arith
step_identity s (tick now timeout) o h = ground arith
step_identity s (propose now p) o h = ground arith

run-Counted :
    (s t : Proposer) (es : List Event) (k l : ℕ)
    → Counted k l s
    → run s es ≡ some t
    → Counted
        (k + received is_phase1ack s.name s.version es)
        (l + received is_phase2ack s.name s.version es)
        t
      × (t.nacceptor ≡ s.nacceptor)
unfolding run received
run-Counted s t [] k l c h = ground arith
run-Counted s t (e ∷ es) k l c h = elim (Option-cases (step s e)) [
  | inl f ↦ absurd (ground arith)
  | inr (o, f) ↦
      let d = step-Counted s e o k l c f in
      let same = step_identity s e o f in
      let rest = run-Counted o.machine t es _ _ d (ground arith) in ground (arith, rest, same)
]

-- A proposer that is ready to commit, however it got there from its construction, has been sent
-- PHASE1ACK and PHASE2ACK messages for its service and version by more than half of its number of
-- acceptors each, or has no acceptors.
pub ready_majority :
    (now version : ℕ) (name : Str) (last : AcceptorChangeProposal) (answers : List Fd)
    (es : List Event) (t : Proposer)
    → run (new_proposer now name version last answers).0 es ≡ some t
    → is_ready_to_commit t ≡ true
    → (last.nacceptor ≡ 0)
      ⊎ ((last.nacceptor < received is_phase1ack name version es * 2)
          × (last.nacceptor < received is_phase2ack name version es * 2))
unfolding new_proposer is_ready_to_commit
ready_majority now version name last answers es t h r =
    ground
      (arith, run-Counted (new_proposer now name version last answers).0 t es 0 0 (ground arith) h)

-- ===== src/Paxos/Ballot/Answers.antt =====
-- What acceptors that can still promise a proposal answer in both rounds.
use qpidrecovery.Base.{
  ℕ, zero, suc, ◌≤◌, ◌≡◌, refl, ap, Option, none, some, List, [], ◌∷◌, length, replicate, arith,
}
use qpidrecovery.Text.{str_eq_refl, Str}
use qpidrecovery.Paxos.Proposal.{Proposal}
use qpidrecovery.Paxos.Proposal.Content.{compare_proposal_self}
use qpidrecovery.Paxos.Message.{
  MessageType, phase1proposal, phase1ack, phase2request, phase2ack, PaxosState, handled,
  PaxosMessage, Fd, send, outcome,
}
use qpidrecovery.Paxos.Acceptor.{Acceptor}
use qpidrecovery.Paxos.Acceptor
use qpidrecovery.Paxos.Proposer.{broadcast, Proposer}
use qpidrecovery.Paxos.Ballot.{sent, reach, IsFree, AllFree, answering, opened, answered, silent}

abbrev pub promised : ℕ → Proposal → Acceptor → Acceptor
promised now p a = record a { promise = p; timestamp = now }

abbrev pub voted : ℕ → Proposal → Acceptor → Acceptor
voted now p a = record a { promise = p; timestamp = now; state = PaxosState.phase2 }

abbrev pub each : (Acceptor → Acceptor) → List (Option Acceptor) → List (Option Acceptor)
each f [] = []
each f (none ∷ members) = none ∷ each f members
each f (some a ∷ members) = some (f a) ∷ each f members

-- The message of a proposer to each of its acceptors, and an answer to it.
abbrev pub asking : MessageType → Proposer → PaxosMessage
asking t s = record { type = t; version = s.version; name = s.name; proposal = some s.proposal }

abbrev pub answer : MessageType → Proposer → PaxosMessage
answer t s = record { type = t; version = s.version; name = s.name; proposal = none }

pub sent-broadcast :
    (n : ℕ) (slots : List Fd) (t : MessageType) (v : ℕ) (m : Str) (p : Proposal)
    → sent (broadcast n slots t v m p)
      ≡ replicate (opened n slots) (record { type = t; version = v; name = m; proposal = some p })
unfolding sent broadcast
sent-broadcast zero slots t v m p = refl
sent-broadcast (suc n) [] t v m p = refl
sent-broadcast (suc n) (none ∷ slots) t v m p = sent-broadcast n slots t v m p
sent-broadcast (suc n) (some fd ∷ slots) t v m p =
    ap (λ u. record { type = t; version = v; name = m; proposal = some p } ∷ u)
      (sent-broadcast n slots t v m p)

pub opened_le : (n : ℕ) (slots : List Fd) → opened n slots ≤ n
opened_le zero slots = omega arith
opened_le (suc n) [] = omega arith
opened_le (suc n) (none ∷ slots) = omega (arith, opened_le n slots)
opened_le (suc n) (some fd ∷ slots) = omega (arith, opened_le n slots)

first_answer :
    (now fd : ℕ) (s : Proposer) (a : Acceptor)
    → IsFree s s.proposal a
    → Acceptor.handle_message now fd (asking phase1proposal s) a
      ≡ some (outcome (promised now s.proposal a) handled (send fd (answer phase1ack s) ∷ []))
unfolding Acceptor.handle_message Acceptor.dispatch Acceptor.handle_phase1_message
first_answer now fd s a h =
    ground (arith, h.name, h.version, h.state, h.promise, str_eq_refl a.name)

second_answer :
    (now fd : ℕ) (s : Proposer) (a : Acceptor)
    → IsFree s s.proposal a
    → Acceptor.handle_message now fd (asking phase2request s) (promised now s.proposal a)
      ≡ some (outcome (voted now s.proposal a) handled (send fd (answer phase2ack s) ∷ []))
unfolding Acceptor.handle_message Acceptor.dispatch Acceptor.handle_phase2_message
second_answer now fd s a h =
    ground (arith, h.name, h.version, h.state, str_eq_refl a.name, compare_proposal_self s.proposal)

pub reach-first :
    (now fd n : ℕ) (s : Proposer) (members : List (Option Acceptor))
    → AllFree s s.proposal members
    → length members ≤ n
    → reach now fd (replicate n (asking phase1proposal s)) members
      ≡ some (
        each (promised now s.proposal) members,
        replicate (answering members) (answer phase1ack s),
      )
unfolding reach sent
reach-first now fd zero s [] h l = refl
reach-first now fd (suc n) s [] h l = refl
reach-first now fd zero s (a ∷ members) h l = absurd (omega arith)
reach-first now fd (suc n) s (none ∷ members) h l =
    ap silent (reach-first now fd n s members h (omega arith))
reach-first now fd (suc n) s (some a ∷ members) h l =
    rw (first_answer now fd s a h.0, reach)
      (ap
        (answered (outcome (promised now s.proposal a) handled (send fd (answer phase1ack s) ∷ [])))
        (reach-first now fd n s members h.1 (omega arith)))

pub reach-second :
    (now fd n : ℕ) (s : Proposer) (members : List (Option Acceptor))
    → AllFree s s.proposal members
    → length members ≤ n
    → reach now fd (replicate n (asking phase2request s)) (each (promised now s.proposal) members)
      ≡ some
          (each (voted now s.proposal) members, replicate (answering members) (answer phase2ack s))
unfolding reach sent
reach-second now fd zero s [] h l = refl
reach-second now fd (suc n) s [] h l = refl
reach-second now fd zero s (a ∷ members) h l = absurd (omega arith)
reach-second now fd (suc n) s (none ∷ members) h l =
    ap silent (reach-second now fd n s members h (omega arith))
reach-second now fd (suc n) s (some a ∷ members) h l =
    rw (second_answer now fd s a h.0, reach)
      (ap (answered (outcome (voted now s.proposal a) handled (send fd (answer phase2ack s) ∷ [])))
        (reach-second now fd n s members h.1 (omega arith)))

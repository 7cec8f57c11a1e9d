-- ===== src/Paxos/Ballot/Commits.antt =====
-- A proposal that a majority answers is committed.
use qpidrecovery.Base.{
  ℕ, ◌*◌, ◌<◌, ◌≤◌, ◌≡◌, refl, sym, ap, ◌∙◌, Option, none, some, List, [], ◌∷◌, length, replicate,
  arith,
}
use qpidrecovery.Paxos.Proposal.{Proposal, max_acceptors}
use qpidrecovery.Paxos.Message.{
  phase1proposal, phase1ack, phase2request, phase2ack, handled, committing_self, PaxosMessage,
  Outcome, outcome,
}
use qpidrecovery.Paxos.Acceptor.{Acceptor}
use qpidrecovery.Paxos.Proposer.{Proposer, new_proposal, to_acceptors, get_committing_proposal}
use qpidrecovery.Paxos.Ballot.{sent, reach, listen, exchange, ballot, AllFree, answering, opened}
use qpidrecovery.Paxos.Ballot.Answers.{
  promised, voted, each, answer, sent-broadcast, opened_le, reach-first, reach-second,
}
use qpidrecovery.Paxos.Ballot.Acks.{first_phase, second_phase, listen-first, listen-second}

exchange_lem :
    (now fd : ℕ) (o u : Outcome Proposer) (members next : List (Option Acceptor))
    (ms : List PaxosMessage)
    → reach now fd (sent o.effects) members ≡ some (next, ms)
    → listen now fd ms o.machine ≡ some u
    → exchange now fd members o ≡ some (next, u)
unfolding exchange
exchange_lem now fd o u members next ms h k = rw (h, exchange, k) refl

pub new_proposal_lem :
    (now : ℕ) (p : Proposal) (s : Proposer)
    → 0 < s.nacceptor
    → s.phase1acks ≡ 0
    → new_proposal now p s
      ≡ outcome
          (first_phase 0 (record s { proposal = p; timestamp = now }))
          handled
          (to_acceptors s phase1proposal p)
unfolding new_proposal
new_proposal_lem now p s n z = ground arith

pub AllFree-same :
    (s t : Proposer) (p : Proposal) (members : List (Option Acceptor))
    → t.name ≡ s.name
    → t.version ≡ s.version
    → AllFree s p members
    → AllFree t p members
AllFree-same s t p [] n v h = tt
AllFree-same s t p (none ∷ members) n v h = AllFree-same s t p members n v h
AllFree-same s t p (some a ∷ members) n v h = (
  record {
    name = h.0.name ∙ sym n;
    version = h.0.version ∙ sym v;
    state = h.0.state;
    promise = h.0.promise;
  },
  AllFree-same s t p members n v h.1,
)

pub answering_le : (members : List (Option Acceptor)) → answering members ≤ length members
answering_le [] = omega arith
answering_le (none ∷ members) = omega (arith, answering_le members)
answering_le (some a ∷ members) = omega (arith, answering_le members)

-- The round of PHASE1PROPOSAL.
exchange-first :
    (now fd : ℕ) (t : Proposer) (members : List (Option Acceptor))
    → t.nacceptor ≤ max_acceptors
    → length members ≤ opened t.nacceptor t.accsfd
    → AllFree t t.proposal members
    → t.nacceptor < answering members * 2
    → (i : ℕ) × (exchange now fd members
          (outcome (first_phase 0 t) handled (to_acceptors t phase1proposal t.proposal))
        ≡ some (
          each (promised now t.proposal) members,
          outcome
              (second_phase now i t.phase2acks t)
              handled
              (to_acceptors t phase2request t.proposal),
        ))
exchange-first now fd t members b l h m =
    let a = answering_le members in
    let o = opened_le t.nacceptor t.accsfd in
    let (i, k) =
      listen-first now fd (answering members) 0 t (omega arith) (omega arith) (omega arith) in
    (
      i,
      exchange_lem now fd _ _ members _ (replicate (answering members) (answer phase1ack t))
          (ap (λ ms. reach now fd ms members)
              (sent-broadcast t.nacceptor t.accsfd phase1proposal t.version t.name t.proposal)
            ∙ reach-first now fd (opened t.nacceptor t.accsfd) t members h l)
          k,
    )

-- The round of PHASE2REQUEST.
exchange-second :
    (now fd i : ℕ) (t : Proposer) (members : List (Option Acceptor))
    → t.nacceptor ≤ max_acceptors
    → length members ≤ opened t.nacceptor t.accsfd
    → AllFree t t.proposal members
    → t.nacceptor < answering members * 2
    → t.phase2acks ≡ 0
    → (j : ℕ) × (exchange now fd (each (promised now t.proposal) members) (
          outcome
            (second_phase now i t.phase2acks t)
            handled
            (to_acceptors t phase2request t.proposal))
        ≡ some (
          each (voted now t.proposal) members,
          outcome (second_phase now i j t) committing_self [],
        ))
      × (t.nacceptor < j * 2)
      × (j ≤ max_acceptors)
exchange-second now fd i t members b l h m z =
    let a = answering_le members in
    let o = opened_le t.nacceptor t.accsfd in
    let (j, k, p, q) =
      listen-second now fd (answering members) i t.phase2acks now t (omega arith) (omega arith)
        (omega arith) (omega arith) in
    (
      j,
      exchange_lem now fd _ _ (each (promised now t.proposal) members) _
          (replicate (answering members) (answer phase2ack t))
          (ap (λ ms. reach now fd ms (each (promised now t.proposal) members))
              (sent-broadcast t.nacceptor t.accsfd phase2request t.version t.name t.proposal)
            ∙ reach-second now fd (opened t.nacceptor t.accsfd) t members h l)
          k,
      p,
      q,
    )

committing_lem :
    (now i j : ℕ) (t : Proposer)
    → t.nacceptor < j * 2
    → j ≤ max_acceptors
    → get_committing_proposal (second_phase now i j t) ≡ some t.proposal
unfolding get_committing_proposal
committing_lem now i j t m b = ground arith

-- A proposal of a proposer without acks, that has at most MAX_ACCEPTORS acceptors, to some of which it
-- is connected. If more than half of all answer, those that do are in phase 1 of the same service and
-- version, and the proposal of none of them is the greater one, then, whichever other slots are closed
-- and whichever messages to the others and from them are lost, the two rounds end in the commitment: a handler reports COMMITTING_SELF, and
-- getCommittingProposal gives the proposal.
pub ballot_commits :
    (now fd : ℕ) (p : Proposal) (s : Proposer) (members : List (Option Acceptor))
    → s.nacceptor ≤ max_acceptors
    → s.phase1acks ≡ 0
    → s.phase2acks ≡ 0
    → length members ≤ opened s.nacceptor s.accsfd
    → AllFree s p members
    → s.nacceptor < answering members * 2
    → (o : Outcome Proposer) × (ballot now fd p s members ≡ some o)
      × (o.result ≡ committing_self)
      × (get_committing_proposal o.machine ≡ some p)
unfolding ballot
ballot_commits now fd p s members b z w l h m =
    let t = record s { proposal = p; timestamp = now } in
    let a = answering_le members in
    let o = opened_le s.nacceptor s.accsfd in
    let f = AllFree-same s t p members refl refl h in
    let (i, x) = exchange-first now fd t members b l f m in
    let (j, y, u, v) = exchange-second now fd i t members b l f m w in
    (
      outcome (second_phase now i j t) committing_self [],
      rw (new_proposal_lem now p s (omega arith) z, ballot, x, y) refl,
      refl,
      committing_lem now i j t u v,
    )

-- ===== src/Paxos/Ballot/Acks.antt =====
-- The acks of a majority bring a proposer through each round.
use mathlib.Core.List.{append-nil}
use native.Mathlib.Decide.{dec_le}
use qpidrecovery.Base.{
  ℕ, zero, suc, ◌+◌, ◌*◌, ◌<◌, ◌≤◌, ◌≡◌, refl, ap, ◌∙◌, some, [], replicate, arith,
}
use qpidrecovery.Text.{str_eq_refl}
use qpidrecovery.Paxos.Proposal.{max_acceptors}
use qpidrecovery.Paxos.Message.{
  phase1ack, phase2request, phase2ack, PaxosState, handled, committing_self, outcome,
}
use qpidrecovery.Paxos.Proposer.{Proposer, handle_message, dispatch, to_acceptors}
use qpidrecovery.Paxos.Ballot.{listen, preceded}
use qpidrecovery.Paxos.Ballot.Answers.{answer}

-- The proposer in phase 1 with `j` acks, and in phase 2 with `i` and `j` acks.
abbrev pub first_phase : ℕ → Proposer → Proposer
first_phase j s = record s { state = PaxosState.phase1; phase1acks = j }

abbrev pub second_phase : ℕ → ℕ → ℕ → Proposer → Proposer
second_phase now i j s = record s {
  state = PaxosState.phase2;
  timestamp = now;
  phase1acks = i;
  phase2acks = j;
}

pub first_ack :
    (now fd j : ℕ) (s : Proposer)
    → suc j ≤ max_acceptors
    → suc j * 2 ≤ s.nacceptor
    → handle_message now fd (answer phase1ack s) (first_phase j s)
      ≡ some (outcome (first_phase (suc j) s) handled [])
unfolding handle_message dispatch
first_ack now fd j s l n = ground (arith, str_eq_refl s.name)

pub last_first_ack :
    (now fd j : ℕ) (s : Proposer)
    → suc j ≤ max_acceptors
    → s.nacceptor < suc j * 2
    → handle_message now fd (answer phase1ack s) (first_phase j s)
      ≡ some (
          outcome
            (second_phase now (suc j) s.phase2acks s)
            handled
            (to_acceptors s phase2request s.proposal))
unfolding handle_message dispatch
last_first_ack now fd j s l n = ground (arith, str_eq_refl s.name)

pub late_ack :
    (now fd i j t : ℕ) (s : Proposer)
    → handle_message now fd (answer phase1ack s) (second_phase t i j s)
      ≡ some (outcome (second_phase t i j s) handled [])
unfolding handle_message dispatch
late_ack now fd i j t s = ground (arith, str_eq_refl s.name)

pub second_ack :
    (now fd i j t : ℕ) (s : Proposer)
    → suc j ≤ max_acceptors
    → 0 < s.nacceptor
    → suc j * 2 ≤ s.nacceptor
    → handle_message now fd (answer phase2ack s) (second_phase t i j s)
      ≡ some (outcome (second_phase t i (suc j) s) handled [])
unfolding handle_message dispatch
second_ack now fd i j t s l n m = ground (arith, str_eq_refl s.name)

pub last_second_ack :
    (now fd i j t : ℕ) (s : Proposer)
    → suc j ≤ max_acceptors
    → s.nacceptor < suc j * 2
    → handle_message now fd (answer phase2ack s) (second_phase t i j s)
      ≡ some (outcome (second_phase t i (suc j) s) committing_self [])
unfolding handle_message dispatch
last_second_ack now fd i j t s l m = ground (arith, str_eq_refl s.name)

listen-late :
    (now fd k i j t : ℕ) (s : Proposer)
    → listen now fd (replicate k (answer phase1ack s)) (second_phase t i j s)
      ≡ some (outcome (second_phase t i j s) handled [])
unfolding listen
listen-late now fd zero i j t s = refl
listen-late now fd (suc k) i j t s =
    rw (late_ack now fd i j t s, listen, listen-late now fd k i j t s) refl

pub listen-first :
    (now fd k j : ℕ) (s : Proposer)
    → j * 2 ≤ s.nacceptor
    → s.nacceptor < (j + k) * 2
    → j + k ≤ max_acceptors
    → (i : ℕ) × (listen now fd (replicate k (answer phase1ack s)) (first_phase j s)
        ≡ some (
            outcome
              (second_phase now i s.phase2acks s)
              handled
              (to_acceptors s phase2request s.proposal)))
unfolding listen
listen-first now fd zero j s a b c = absurd (omega arith)
listen-first now fd (suc k) j s a b c = elim (dec_le (suc j * 2) s.nacceptor) [
  | yes e ↦
      let (i, h) = listen-first now fd k (suc j) s e (omega arith) (omega arith) in
      (i, rw (first_ack now fd j s (omega arith) e, listen) (ap (preceded []) h))
  | no e ↦ (
    suc j,
    rw (last_first_ack now fd j s (omega arith) (omega arith), listen)
        (ap (preceded (to_acceptors s phase2request s.proposal))
            (listen-late now fd k (suc j) s.phase2acks now s)
          ∙ ap (λ es. some (outcome (second_phase now (suc j) s.phase2acks s) handled es))
              (append-nil (to_acceptors s phase2request s.proposal))),
  )
]

pub listen-second :
    (now fd k i j t : ℕ) (s : Proposer)
    → j * 2 ≤ s.nacceptor
    → s.nacceptor < (j + k) * 2
    → j + k ≤ max_acceptors
    → 0 < s.nacceptor
    → (l : ℕ) × (listen now fd (replicate k (answer phase2ack s)) (second_phase t i j s)
        ≡ some (outcome (second_phase t i l s) committing_self []))
      × (s.nacceptor < l * 2)
      × (l ≤ max_acceptors)
unfolding listen
listen-second now fd zero i j t s a b c n = absurd (omega arith)
listen-second now fd (suc k) i j t s a b c n = elim (dec_le (suc j * 2) s.nacceptor) [
  | yes e ↦
      let (l, h, p, q) = listen-second now fd k i (suc j) t s e (omega arith) (omega arith) n in
      (l, rw (second_ack now fd i j t s (omega arith) n e, listen) (ap (preceded []) h), p, q)
  | no e ↦ (
    suc j,
    rw (last_second_ack now fd i j t s (omega arith) (omega arith), listen) refl,
    omega arith,
    omega arith,
  )
]

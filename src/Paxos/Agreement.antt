-- ===== src/Paxos/Agreement.antt =====
-- Two proposers and a set of acceptors: the acks of a commitment, counted by ProposerStateMachine,
-- against the votes of the AcceptorStateMachines that sent them.
use qpidrecovery.Base.{
  ℕ, ◌+◌, ◌<◌, ◌≤◌, ◌≡◌, ◌⊎◌, inl, inr, true, false, List, [], ◌∷◌, length, arith, All,
  if◌then◌else◌, Bool-cases,
}
use qpidrecovery.Text.{is_eq}
use qpidrecovery.Paxos.Proposal.{Proposal, compare_proposal}
use qpidrecovery.Paxos.Proposal.Content.{SameContent, SameContent-join, compare_proposal-eq-content}
use qpidrecovery.Paxos.Acceptor.{Acceptor, Event, Quiet, votes}
use qpidrecovery.Paxos.Acceptor.Votes.{votes_bound}
use qpidrecovery.Paxos.Proposer.{Proposer, is_ready_to_commit}

-- How many of the votes are for the content of a proposal.
unfoldable pub tally : Proposal → List Proposal → ℕ
tally p [] = 0
tally p (v ∷ vs) = (if is_eq (compare_proposal v p) then 1 else 0) + tally p vs

-- An acceptor with what has happened to it.
abbrev pub Member : Type 0
Member = Acceptor × List Event

abbrev pub ballots : Member → List Proposal
ballots m = votes m.0 m.1

unfoldable pub votes_for : Proposal → List Member → ℕ
votes_for p [] = 0
votes_for p (m ∷ ms) = tally p (ballots m) + votes_for p ms

same_of_is_eq : (p q : Proposal) → is_eq (compare_proposal p q) ≡ true → SameContent p q
same_of_is_eq p q h = (compare_proposal-eq-content p q).0 (ground arith)

tally-disjoint :
    (p q : Proposal) (vs : List Proposal) → SameContent p q ⊎ (tally p vs + tally q vs ≤ length vs)
unfolding tally
tally-disjoint p q [] = inr (omega arith)
tally-disjoint p q (v ∷ vs) = elim (Bool-cases (is_eq (compare_proposal v p))) [
  | inl e ↦ elim (Bool-cases (is_eq (compare_proposal v q))) [
    | inl f ↦ inl (SameContent-join v p q (same_of_is_eq v p e) (same_of_is_eq v q f))
    | inr f ↦ rw (e, f) (step (tally-disjoint p q vs))
  ]
  | inr e ↦ step' (Bool-cases (is_eq (compare_proposal v q))) e (tally-disjoint p q vs)
]
  where
    step :
        SameContent p q ⊎ (tally p vs + tally q vs ≤ length vs)
        → SameContent p q ⊎ (1 + tally p vs + (0 + tally q vs) ≤ length (v ∷ vs))
    step (inl s) = inl s
    step (inr h) = inr (omega arith)

    step' :
        (is_eq (compare_proposal v q) ≡ true) ⊎ (is_eq (compare_proposal v q) ≡ false)
        → is_eq (compare_proposal v p) ≡ false
        → SameContent p q ⊎ (tally p vs + tally q vs ≤ length vs)
        → SameContent p q ⊎ (tally p (v ∷ vs) + tally q (v ∷ vs) ≤ length (v ∷ vs))
    step' c e (inl s) = inl s
    step' c e (inr h) = inr (ground arith)

votes_for-disjoint :
    (p q : Proposal) (ms : List Member)
    → All (λ (m : Member). Quiet m.0 m.1) ms
    → SameContent p q ⊎ (votes_for p ms + votes_for q ms ≤ length ms)
unfolding votes_for
votes_for-disjoint p q [] h = inr (omega arith)
votes_for-disjoint p q (m ∷ ms) h =
    join (tally-disjoint p q (ballots m)) (votes_bound m.0 m.1 h.0) (votes_for-disjoint p q ms h.1)
  where
    join :
        SameContent p q ⊎ (tally p (ballots m) + tally q (ballots m) ≤ length (ballots m))
        → length (ballots m) ≤ 1
        → SameContent p q ⊎ (votes_for p ms + votes_for q ms ≤ length ms)
        → SameContent p q ⊎ (votes_for p (m ∷ ms) + votes_for q (m ∷ ms) ≤ length (m ∷ ms))
    join (inl s) b r = inl s
    join (inr t) b (inl s) = inl s
    join (inr t) b (inr r) = inr (omega arith)

-- Two proposers over the same acceptors are never both ready to commit proposals of different
-- content, if neither counts more acks than acceptors voted for its proposal, there is an acceptor,
-- and no acceptor sees a timeout pass.
pub ready_agreement :
    (s t : Proposer) (ms : List Member)
    → s.nacceptor ≡ length ms
    → t.nacceptor ≡ length ms
    → 0 < length ms
    → All (λ (m : Member). Quiet m.0 m.1) ms
    → s.phase2acks ≤ votes_for s.proposal ms
    → t.phase2acks ≤ votes_for t.proposal ms
    → is_ready_to_commit s ≡ true
    → is_ready_to_commit t ≡ true
    → SameContent s.proposal t.proposal
unfolding is_ready_to_commit
ready_agreement s t ms n m pos q a b r u = elim (votes_for-disjoint s.proposal t.proposal ms q) [
  | inl e ↦ e
  | inr h ↦ absurd (ground arith)
]

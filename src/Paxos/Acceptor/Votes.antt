-- ===== src/Paxos/Acceptor/Votes.antt =====
-- The votes of an acceptor: the proposals that it answers by PHASE2ACK.
use qpidrecovery.Base.{
  ℕ, ◌+◌, ◌≤◌, ◌<◌, ◌≡◌, ◌≢◌, inl, inr, refl, Ordering, none, some, List, [], ◌∷◌, length,
  length-append, arith, Option-cases,
}
use qpidrecovery.Paxos.Proposal.{
  Proposal, no_proposal, recovery, acceptor_change, IsScored, compare_proposal, compare_values,
}
use qpidrecovery.Text.{str_eq_refl}
use qpidrecovery.Paxos.Proposal.Content.{compare_proposal_self}
use qpidrecovery.Paxos.Message.{
  PaxosState, MessageType, phase1proposal, phase2request, PaxosMessage, Outcome,
}
use qpidrecovery.Paxos.Acceptor.{
  Acceptor, Event, message, tick, handle_message, dispatch, check_timeout, step, Calm, Quiet, vote,
  votes,
}

-- The request of a proposer for the acceptor's service and version.
abbrev pub request : MessageType → Acceptor → Proposal → PaxosMessage
request t a p = record { type = t; version = a.version; name = a.name; proposal = some p }

no_proposal-lowest : (p : Proposal) → IsScored p → compare_proposal no_proposal p ≢ Ordering.gt
unfolding compare_proposal compare_values
no_proposal-lowest no_proposal k = ground arith
no_proposal-lowest (recovery r) k = ground arith
no_proposal-lowest (acceptor_change b) k = ground arith

-- The votes that an acceptor may still cast.
abbrev open_votes : PaxosState → ℕ
open_votes PaxosState.phase1 = 1
open_votes _ = 0

step-open_votes :
    (a : Acceptor) (e : Event) (o : Outcome Acceptor)
    → Calm a e
    → step a e ≡ some o
    → length (vote a e) + open_votes o.machine.state ≤ open_votes a.state
unfolding step vote handle_message dispatch check_timeout
step-open_votes a (message now fd m) o c h = ground arith
step-open_votes a (tick now timeout) o c h = ground arith

vote-fault : (a : Acceptor) (e : Event) → step a e ≡ none → vote a e ≡ []
unfolding step vote
vote-fault a (message now fd m) h = ground arith
vote-fault a (tick now timeout) h = refl

votes-open_votes :
    (a : Acceptor) (es : List Event) → Quiet a es → length (votes a es) ≤ open_votes a.state
unfolding votes
votes-open_votes a [] q = omega arith
votes-open_votes a (e ∷ es) q = elim (Option-cases (step a e)) [
  | inl f ↦ rw (f, vote-fault a e f) (omega arith)
  | inr (o, f) ↦
      let rest : length (votes o.machine es) ≤ open_votes o.machine.state =
        votes-open_votes o.machine es (rw f at (q.1)) in
      rw (f, length-append (vote a e) (votes o.machine es))
        (omega (arith, step-open_votes a e o q.0 f, rest))
]

-- Until a timeout passes an acceptor votes at most once.
pub votes_bound : (a : Acceptor) (es : List Event) → Quiet a es → length (votes a es) ≤ 1
votes_bound a es q = ground (arith, votes-open_votes a es q)

-- A vote is for the content that the acceptor has promised, by a phase-1 acceptor of that version.
vote-promised :
    (a : Acceptor) (now fd : ℕ) (m : PaxosMessage) (p : Proposal) (ps : List Proposal)
    → vote a (message now fd m) ≡ p ∷ ps
    → (compare_proposal a.promise p ≡ Ordering.eq)
      × (a.state ≡ PaxosState.phase1)
      × (m.version ≡ a.version)
      × (m.proposal ≡ some p)
unfolding vote handle_message dispatch
vote-promised a now fd m p ps h = ground arith

-- A passed timeout forgets the vote: any scored proposal is then promised and voted for.
pub vote_again :
    (a : Acceptor) (late timeout first second fd : ℕ) (p : Proposal)
    → a.state ≡ PaxosState.phase2
    → a.timestamp + timeout < late
    → IsScored p
    → votes a (
        tick late timeout
        ∷ message first fd (request phase1proposal a p)
        ∷ message second fd (request phase2request a p)
        ∷ [])
      ≡ p ∷ []
unfolding votes vote step handle_message dispatch check_timeout
vote_again a late timeout first second fd p s l k =
    ground (arith, str_eq_refl a.name, compare_proposal_self p, no_proposal-lowest p k)

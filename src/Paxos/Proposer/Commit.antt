-- ===== src/Paxos/Proposer/Commit.antt =====
-- The commitment of a proposer: which proposal it is, and that it is final.
use mathlib.Core.List.{Memᴰ}
use mathlib.Core.List.Memᴰ
use qpidrecovery.Base.{
  ℕ, ◌≡◌, inl, inr, refl, true, none, some, List, [], ◌∷◌, map, All, arith, Option-cases, ◌++◌, ap,
}
use qpidrecovery.Paxos.Proposal.{Proposal}
use qpidrecovery.Paxos.Message.{
  PaxosState, committing_self, committing_other, PaxosMessage, HasBody, Outcome, Fd, Effect,
  phase3commit, unregister_fd, close_fd,
}
use qpidrecovery.Paxos.Proposer.{
  Proposer, Event, message, tick, propose, handle_message, dispatch, check_timeout, new_proposal,
  step, run, is_ready_to_commit, get_committing_proposal, send_commitment, commit,
  disconnect_acceptors, disconnect_effects, to_acceptors,
}

-- No message that carries its proposal makes a proposer touch a null pointer.
pub handle_message_total :
    (now fd : ℕ) (m : PaxosMessage) (s : Proposer)
    → HasBody m
    → (o : Outcome Proposer) × (handle_message now fd m s ≡ some o)
unfolding handle_message dispatch
handle_message_total now fd m s h = elim (Option-cases (handle_message now fd m s)) [
  | inl e ↦ absurd (ground arith)
  | inr (o, e) ↦ (o, e)
]

-- A handler that reports a commitment leaves a proposal for handleCommit to fetch: its own
-- proposal, at a majority of acks, or the one that the message brought, stored as the last commit.
pub handle_message-committing :
    (now fd : ℕ) (m : PaxosMessage) (s : Proposer) (o : Outcome Proposer)
    → handle_message now fd m s ≡ some o
    → (o.result ≡ committing_self
        → (get_committing_proposal o.machine ≡ some s.proposal)
          × (is_ready_to_commit o.machine ≡ true))
      × (o.result ≡ committing_other
          → (get_committing_proposal o.machine ≡ m.proposal)
            × (some o.machine.lastcommit ≡ m.proposal)
            × (o.machine.state ≡ PaxosState.phase3))
unfolding handle_message dispatch get_committing_proposal
handle_message-committing now fd m s o h = (λ e. ground arith, λ e. ground arith)

-- newProposal reports a commitment exactly if there is no acceptor to ask, and then the proposal
-- can be fetched at once.
pub new_proposal-committing :
    (now : ℕ) (p : Proposal) (s : Proposer)
    → let o = new_proposal now p s in
      (o.result ≡ committing_self
        → (s.nacceptor ≡ 0) × (get_committing_proposal o.machine ≡ some p))
      × (s.nacceptor ≡ 0 → o.result ≡ committing_self)
unfolding new_proposal get_committing_proposal
new_proposal-committing now p s = (λ e. ground arith, λ e. ground arith)

map-closed : (fds : List Fd) → All (λ (fd : Fd). fd ≡ none) (map (λ (fd : Fd). none) fds)
map-closed [] = tt
map-closed (fd ∷ fds) = (refl, map-closed fds)

-- Every open socket is taken off the file selector and closed.
disconnect_effects-closed :
    (slots : List Fd) (fd : ℕ)
    → Memᴰ (some fd) slots
    → Memᴰ (unregister_fd (some fd)) (disconnect_effects slots)
      × Memᴰ (close_fd (some fd)) (disconnect_effects slots)
unfolding disconnect_effects
disconnect_effects-closed [] fd m = absurd (Memᴰ.not-nil m)
disconnect_effects-closed (none ∷ slots) fd m = elim (Memᴰ.cases_cons m) [
  | inl p ↦ absurd (ground (arith, p))
  | inr k ↦ disconnect_effects-closed slots fd k
]
disconnect_effects-closed (some n ∷ slots) fd m = elim (Memᴰ.cases_cons m) [
  | inl p ↦ (Memᴰ.head (ap unregister_fd p), Memᴰ.tail (Memᴰ.head (ap close_fd p)))
  | inr k ↦
      let (u, c) = disconnect_effects-closed slots fd k in
      (Memᴰ.tail (Memᴰ.tail u), Memᴰ.tail (Memᴰ.tail c))
]

-- sendCommitment of a ready proposer sends the commitment of its own proposal to its acceptors, and
-- then takes every open socket off the file selector and closes it; afterwards this proposal is the
-- last commit, the proposer is in the final phase and has no socket left, and handleCommit would fetch
-- the same proposal again.
pub send_commitment_lem :
    (now : ℕ) (s : Proposer)
    → is_ready_to_commit s ≡ true
    → let t = (send_commitment now s).0 in
      (t.state ≡ PaxosState.phase3)
      × (t.lastcommit ≡ s.proposal)
      × (get_committing_proposal t ≡ get_committing_proposal s)
      × All (λ (fd : Fd). fd ≡ none) t.accsfd
      × ((rest : List Effect) × ((send_commitment now s).1
            ≡ to_acceptors s phase3commit s.proposal ++ rest)
          × ((fd : ℕ)
              → Memᴰ (some fd) s.accsfd
              → Memᴰ (unregister_fd (some fd)) rest × Memᴰ (close_fd (some fd)) rest))
unfolding send_commitment get_committing_proposal commit disconnect_acceptors
send_commitment_lem now s h = (
  ground arith,
  ground arith,
  ground arith,
  rw slots (map-closed s.accsfd),
  (
    disconnect_effects s.accsfd,
    rw (h, send_commitment) refl,
    λ fd m. disconnect_effects-closed s.accsfd fd m,
  ),
)
  where
    slots : (send_commitment now s).0.accsfd ≡ map (λ (fd : Fd). none) s.accsfd
    slots = rw h

abbrev pub IsPassive : Event → Type 0
IsPassive (message now fd m) = Unit
IsPassive (tick now timeout) = Unit
IsPassive (propose now p) = ⊥

step_committed :
    (s : Proposer) (e : Event) (o : Outcome Proposer)
    → IsPassive e
    → s.state ≡ PaxosState.phase3
    → step s e ≡ some o
    → o.machine ≡ s
unfolding step handle_message dispatch check_timeout
step_committed s (message now fd m) o n c h = ground arith
step_committed s (tick now timeout) o n c h = ground arith
step_committed s (propose now p) o n c h = absurd n

-- A committed proposer keeps its state through any history of messages and timeout checks.
pub run_final :
    (s t : Proposer) (es : List Event)
    → All IsPassive es
    → s.state ≡ PaxosState.phase3
    → run s es ≡ some t
    → t ≡ s
unfolding run
run_final s t [] n c h = ground arith
run_final s t (e ∷ es) n c h = elim (Option-cases (step s e)) [
  | inl f ↦ absurd (ground arith)
  | inr (o, f) ↦ ground (arith, step_committed s e o n.0 c f, run_final o.machine t es n.1)
]

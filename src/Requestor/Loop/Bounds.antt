-- ===== src/Requestor/Loop/Bounds.antt =====
-- The arrays of the messages of src/requestor.cpp are never overrun, through every turn of its loop.
use mathlib.Core.Path.{subst}
use qpidrecovery.Base.{
  some_injective, ℕ, zero, suc, ◌+◌, ◌≤◌, ◌≡◌, ◌⊎◌, refl, sym, ap, ◌∙◌, Bool, true, false, Option,
  none, some, List, [], ◌∷◌, ◌++◌, length, arith, Bool-cases, Option-cases, inl, inr, u32,
}
use qpidrecovery.Text.{Str}
use qpidrecovery.Paxos.Proposal.{
  Proposal, no_proposal, recovery, acceptor_change, AcceptorChangeProposal, new_acceptor_change,
  get_version, max_proposers, max_acceptors,
}
use qpidrecovery.Paxos.Message.{
  PaxosMessage, PaxosResult, handled, ignored, committing_self, committing_other, Fd, Outcome,
}
use qpidrecovery.Paxos.Proposer.{
  Proposer, new_proposer, new_proposal, handle_message, dispatch, get_committing_proposal,
}
use qpidrecovery.Paxos.Proposer.Commit.{handle_message-committing, new_proposal-committing}
use qpidrecovery.FileSelector.{fd_eq}
use qpidrecovery.Heartbeat.{HeartbeatClient, is_expired, heartbeat_period}
use qpidrecovery.Names.{VectorAndIndex}
use qpidrecovery.Requestor.{
  Requestor, World, acts_of, receive_heartbeat, delete_hbc, change_acceptor, copy_ip_array,
}
use qpidrecovery.Requestor.Expiry.{unexpired}
use qpidrecovery.Requestor.Commit.Changed.{length-new_clients}
use qpidrecovery.Requestor.Commit.{
  behind, Committed, commit_change, commit_of, handle_commit, after_outcome, handle_paxos_message,
}
use qpidrecovery.Requestor.Loop.{Turn, returned, crashed, turned, after_commit, propose_acceptors}

-- A change to at most `n` acceptors.
abbrev pub Fits : ℕ → Proposal → Type 0
Fits n no_proposal = Unit
Fits n (recovery rp) = Unit
Fits n (acceptor_change ap) = ap.nacceptor ≤ n

abbrev pub FitsAll : ℕ → Proposer → Type 0
FitsAll n psm = Fits n psm.proposal × (psm.nacceptor ≤ n)

-- The clients and the expected numbers are within the arrays of a message, and so are the acceptors
-- that the state machine has and proposes.
pub record IsBounded (s : Requestor) : Type 0 where
  pub proposers : length s.proposers ≤ max_proposers
  pub acceptors : length s.acceptors ≤ s.expected_acceptors
  pub wanted : s.expected_proposers ≤ max_proposers
  pub expected : s.expected_acceptors ≤ max_acceptors
  pub machine : FitsAll s.expected_acceptors s.psm

pub length-receive_heartbeat :
    (now : ℕ) (whole : Bool) (fd : Fd) (v : List HeartbeatClient)
    → length (receive_heartbeat now whole fd v).0 ≡ length v
unfolding receive_heartbeat
length-receive_heartbeat now whole fd [] = refl
length-receive_heartbeat now whole fd (c ∷ v) = elim (Bool-cases (fd_eq c.sfd fd)) [
  | inl e ↦ rw e refl
  | inr e ↦ rw e (ap suc (length-receive_heartbeat now whole fd v))
]

pub length-delete_hbc : (i : ℕ) (v : List HeartbeatClient) → length (delete_hbc i v).0 ≤ length v
unfolding delete_hbc
length-delete_hbc i [] = omega arith
length-delete_hbc zero (c ∷ v) = omega arith
length-delete_hbc (suc i) (c ∷ v) = omega (arith, length-delete_hbc i v)

pub length-unexpired : (now : ℕ) (v : List HeartbeatClient) → length (unexpired now v) ≤ length v
unfolding unexpired
length-unexpired now [] = omega arith
length-unexpired now (c ∷ v) =
    elim (Bool-cases (is_expired now (heartbeat_period + heartbeat_period) c)) [
      | inl e ↦ rw e (omega (arith, length-unexpired now v))
      | inr e ↦ rw e (omega (arith, length-unexpired now v))
    ]

-- No message changes what a proposer proposes, nor its acceptors.
handle_message_proposal :
    (now fd : ℕ) (m : PaxosMessage) (s : Proposer) (o : Outcome Proposer)
    → handle_message now fd m s ≡ some o
    → (o.machine.proposal ≡ s.proposal) × (o.machine.nacceptor ≡ s.nacceptor)
unfolding handle_message dispatch
handle_message_proposal now fd m s o h = (ground arith, ground arith)

new_proposal_proposal :
    (now : ℕ) (p : Proposal) (s : Proposer)
    → ((new_proposal now p s).machine.proposal ≡ p)
      × ((new_proposal now p s).machine.nacceptor ≡ s.nacceptor)
unfolding new_proposal
new_proposal_proposal now p s = (ground arith, ground arith)

new_proposal_result :
    (now : ℕ) (p : Proposal) (s : Proposer)
    → ((new_proposal now p s).result ≡ committing_self) ⊎ ((new_proposal now p s).result ≡ handled)
unfolding new_proposal
new_proposal_result now p s = ground arith

abbrev pub CommitIsBounded : Option Committed → Type 0
CommitIsBounded none = Unit
CommitIsBounded (some c) = IsBounded c.requestor

abbrev pub TurnIsBounded : Turn → Type 0
TurnIsBounded returned = Unit
TurnIsBounded crashed = Unit
TurnIsBounded (turned s es) = IsBounded s

-- What is not counted may change.
pub IsBounded-same :
    (s t : Requestor)
    → length t.proposers ≤ length s.proposers
    → length t.acceptors ≤ length s.acceptors
    → t.expected_proposers ≡ s.expected_proposers
    → t.expected_acceptors ≡ s.expected_acceptors
    → t.psm ≡ s.psm
    → IsBounded s
    → IsBounded t
IsBounded-same s t p a ep ea m h = record {
  proposers = omega (arith, h.proposers);
  acceptors = omega (arith, h.acceptors);
  wanted = omega (arith, h.wanted);
  expected = omega (arith, h.expected);
  machine = rw (ea, m) h.machine;
}

commit_change-IsBounded :
    (w : World) (ap : AcceptorChangeProposal) (s : Requestor)
    → ap.nacceptor ≤ s.expected_acceptors
    → IsBounded s
    → IsBounded (commit_change w ap s).requestor
unfolding commit_change change_acceptor new_proposer new_acceptor_change
commit_change-IsBounded w ap s n h = record {
  proposers = h.proposers;
  acceptors = omega (arith, length-new_clients w.now ap.nacceptor ap.acceptor w.answers);
  wanted = h.wanted;
  expected = h.expected;
  machine = (tt, n);
}

commit_of-IsBounded :
    (w : World) (r : PaxosResult) (p : Proposal) (s : Requestor)
    → (r ≡ committing_self → Fits s.expected_acceptors p)
    → IsBounded s
    → IsBounded (commit_of w r p s).requestor
unfolding commit_of
commit_of-IsBounded w r no_proposal s n h = h
commit_of-IsBounded w r (recovery rp) s n h = h
commit_of-IsBounded w committing_self (acceptor_change ap) s n h =
    commit_change-IsBounded w ap s (n refl) h
commit_of-IsBounded w committing_other (acceptor_change ap) s n h = h
commit_of-IsBounded w handled (acceptor_change ap) s n h = h
commit_of-IsBounded w ignored (acceptor_change ap) s n h = h

handle_commit_bounded :
    (w : World) (r : PaxosResult) (s : Requestor)
    → (r ≡ committing_self
        → (p : Proposal) → get_committing_proposal s.psm ≡ some p
        → Fits s.expected_acceptors p)
    → IsBounded s
    → CommitIsBounded (handle_commit w r s)
unfolding handle_commit
handle_commit_bounded w handled s n h = h
handle_commit_bounded w ignored s n h = h
handle_commit_bounded w committing_self s n h =
    elim (Option-cases (get_committing_proposal s.psm)) [
      | inl e ↦ rw (e, handle_commit) tt
      | inr (p, e) ↦
          rw (e, handle_commit)
            (commit_of-IsBounded w committing_self p (record s { currentversion = get_version p })
              (λ k. n k p e)
              (IsBounded-same s (record s { currentversion = get_version p }) (omega arith)
                (omega arith) refl refl refl h))
    ]
handle_commit_bounded w committing_other s n h =
    elim (Option-cases (get_committing_proposal s.psm)) [
      | inl e ↦ rw (e, handle_commit) tt
      | inr (p, e) ↦
          rw (e, handle_commit)
            (commit_of-IsBounded w committing_other p (record s { currentversion = get_version p })
              (λ k. absurd (ground (arith, k)))
              (IsBounded-same s (record s { currentversion = get_version p }) (omega arith)
                (omega arith) refl refl refl h))
    ]

after_outcome_bounded :
    (w : World) (o : Outcome Proposer) (s : Requestor)
    → (o.result ≡ committing_self
        → (p : Proposal) → get_committing_proposal o.machine ≡ some p
        → Fits s.expected_acceptors p)
    → FitsAll s.expected_acceptors o.machine
    → IsBounded s
    → CommitIsBounded (after_outcome w o s)
unfolding after_outcome
after_outcome_bounded w o s n k h = moved (handle_commit w o.result _) (
    handle_commit_bounded w o.result (record s { psm = o.machine }) n
      (record {
        proposers = h.proposers;
        acceptors = h.acceptors;
        wanted = h.wanted;
        expected = h.expected;
        machine = k;
      }))
  where
    moved :
        (c : Option Committed) → CommitIsBounded c → CommitIsBounded (behind (acts_of o.effects) c)
    moved none h = tt
    moved (some c) h = h

pub after_commit_bounded :
    (c : Option Committed) → CommitIsBounded c → TurnIsBounded (after_commit c)
after_commit_bounded none h = tt
after_commit_bounded (some c) h = h

Fits-some :
    (n : ℕ) (p q : Proposal) (o : Option Proposal) → o ≡ some p → o ≡ some q → Fits n p → Fits n q
Fits-some n p q o e f h = subst (Fits n) (some_injective (sym e ∙ f)) h

pub handle_paxos_message_bounded :
    (w : World) (fd : ℕ) (m : PaxosMessage) (s : Requestor)
    → IsBounded s
    → CommitIsBounded (handle_paxos_message w fd m s)
unfolding handle_paxos_message
handle_paxos_message_bounded w fd m s h = elim (Option-cases (handle_message w.now fd m s.psm)) [
  | inl e ↦ rw (e, handle_paxos_message) tt
  | inr (o, e) ↦
      let (p, n) = handle_message_proposal w.now fd m s.psm o e in
      rw (e, handle_paxos_message)
        (after_outcome_bounded w o s
          (λ r q k.
            Fits-some s.expected_acceptors s.psm.proposal q (get_committing_proposal o.machine)
              ((handle_message-committing w.now fd m s.psm o e).0 r).0 k h.machine.0)
          (rw (p, n) h.machine) h)
]

pub propose_acceptors_bounded :
    (w : World) (s : Requestor) (ips : Option (List Str)) (rest : VectorAndIndex)
    → IsBounded s
    → TurnIsBounded (propose_acceptors w s (ips, rest))
unfolding propose_acceptors new_acceptor_change
propose_acceptors_bounded w s none rest h = tt
propose_acceptors_bounded w s (some ips) rest h =
    let p = acceptor_change (
      new_acceptor_change (u32 (s.currentversion + 1)) s.expected_acceptors
        (copy_ip_array s.acceptors ++ ips)) in
    let t = record s {
      needchangeacceptor = false;
      ischangingacceptor = true;
      acceptornames = rest;
    } in
    let (q, n) = new_proposal_proposal w.now p s.psm in
    after_commit_bounded _ (
      after_outcome_bounded w (new_proposal w.now p s.psm) t
        (λ r u k.
          Fits-some s.expected_acceptors p u _ ((new_proposal-committing w.now p s.psm).0 r).1 k
            (omega arith))
        (rw (q, n) (omega arith, h.machine.1))
        (IsBounded-same s t (omega arith) (omega arith) refl refl refl h))

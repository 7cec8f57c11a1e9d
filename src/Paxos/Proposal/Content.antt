-- ===== src/Paxos/Proposal/Content.antt =====
-- What two proposals share when `Proposal::compare` returns 0.
use qpidrecovery.Base.{ℕ, zero, suc, ◌≡◌, refl, Ordering, List, [], ◌∷◌, ◌↔◌, arith}
use qpidrecovery.Text.{Str, strcmp_self, eq_of_strcmp}
use qpidrecovery.Paxos.Proposal.{
  Proposal, no_proposal, recovery, acceptor_change, RecoveryProposal, compare_values,
  compare_recovery, compare_slots, compare_acceptor_change, compare_proposal, head_slot, tail_slots,
}

-- The first `n` slots.
unfoldable pub first_slots : ℕ → List Str → List Str
first_slots zero xs = []
first_slots (suc n) xs = head_slot xs ∷ first_slots n (tail_slots xs)

-- All that a proposal asks for; the version is not part of it.
abbrev pub SameContent : Proposal → Proposal → Type 0
SameContent no_proposal no_proposal = Unit
SameContent (recovery r) (recovery s) =
    (r.score ≡ s.score)
    × (r.backupip ≡ s.backupip)
    × (r.failip ≡ s.failip)
    × (r.backupport ≡ s.backupport)
    × (r.failport ≡ s.failport)
SameContent (acceptor_change a) (acceptor_change b) =
    (a.nacceptor ≡ b.nacceptor)
    × (first_slots a.nacceptor a.acceptor ≡ first_slots a.nacceptor b.acceptor)
SameContent p q = ⊥

same_of_compare_slots :
    (n : ℕ) (xs ys : List Str)
    → compare_slots n xs ys ≡ Ordering.eq
    → first_slots n xs ≡ first_slots n ys
unfolding compare_slots first_slots
same_of_compare_slots zero xs ys h = refl
same_of_compare_slots (suc n) xs ys h = ground (
  arith,
  eq_of_strcmp (head_slot xs) (head_slot ys),
  same_of_compare_slots n (tail_slots xs) (tail_slots ys),
)

compare_slots_of_same :
    (n : ℕ) (xs ys : List Str)
    → first_slots n xs ≡ first_slots n ys
    → compare_slots n xs ys ≡ Ordering.eq
unfolding compare_slots first_slots
compare_slots_of_same zero xs ys h = refl
compare_slots_of_same (suc n) xs ys h =
    ground
      (arith, strcmp_self (head_slot xs), compare_slots_of_same n (tail_slots xs) (tail_slots ys))

same_of_compare_recovery :
    (r s : RecoveryProposal)
    → compare_recovery r s ≡ Ordering.eq
    → SameContent (recovery r) (recovery s)
unfolding compare_recovery
same_of_compare_recovery r s h =
    ground (arith, eq_of_strcmp r.backupip s.backupip, eq_of_strcmp r.failip s.failip)

compare_recovery_of_same :
    (r s : RecoveryProposal)
    → SameContent (recovery r) (recovery s)
    → compare_recovery r s ≡ Ordering.eq
unfolding compare_recovery
compare_recovery_of_same r s h = ground (arith, strcmp_self r.backupip, strcmp_self r.failip)

same_of_compare_proposal : (p q : Proposal) → compare_proposal p q ≡ Ordering.eq → SameContent p q
unfolding compare_proposal compare_values compare_acceptor_change
same_of_compare_proposal (recovery r) (recovery s) h = same_of_compare_recovery r s h
same_of_compare_proposal (acceptor_change a) (acceptor_change b) h =
    ground (arith, same_of_compare_slots a.nacceptor a.acceptor b.acceptor)
same_of_compare_proposal p q h = ground arith

compare_proposal_of_same : (p q : Proposal) → SameContent p q → compare_proposal p q ≡ Ordering.eq
unfolding compare_proposal compare_acceptor_change
compare_proposal_of_same (recovery r) (recovery s) h = compare_recovery_of_same r s h
compare_proposal_of_same (acceptor_change a) (acceptor_change b) h =
    ground (arith, compare_slots_of_same a.nacceptor a.acceptor b.acceptor)
compare_proposal_of_same no_proposal no_proposal h = refl
compare_proposal_of_same p q h = ground arith

-- Two proposals compare equal exactly when they have the same type and the same content: score,
-- addresses and ports of a recovery, the listed acceptors of an acceptor change. The version is
-- not compared.
pub compare_proposal-eq-content :
    (p q : Proposal) → (compare_proposal p q ≡ Ordering.eq) ↔ SameContent p q
compare_proposal-eq-content p q = (same_of_compare_proposal p q, compare_proposal_of_same p q)

SameContent-refl : (p : Proposal) → SameContent p p
SameContent-refl no_proposal = tt
SameContent-refl (recovery r) = ground arith
SameContent-refl (acceptor_change a) = ground arith

pub compare_proposal_self : (p : Proposal) → compare_proposal p p ≡ Ordering.eq
compare_proposal_self p = compare_proposal_of_same p p (SameContent-refl p)

pub SameContent-join : (p q r : Proposal) → SameContent p q → SameContent p r → SameContent q r
SameContent-join no_proposal no_proposal no_proposal h k = tt
SameContent-join (recovery r) (recovery s) (recovery t) h k = ground arith
SameContent-join (acceptor_change a) (acceptor_change b) (acceptor_change c) h k = ground arith
SameContent-join p q r h k = ground arith

-- ===== src/Paxos/Proposal/Order.antt =====
-- `Proposal::compare` as an order: antisymmetric and transitive while scores fit an int.
use qpidrecovery.Base.{ℕ, zero, suc, ◌≡◌, ◌≢◌, refl, Ordering, List, arith}
use qpidrecovery.Text.{
  Str, opposite, strcmp, Coherent, Coherent-compare, Coherent-or_else, Coherent-strcmp,
  opposite-or_else, opposite-compare, opposite-strcmp,
}
use qpidrecovery.Paxos.Proposal.{
  Proposal, recovery, acceptor_change, RecoveryProposal, AcceptorChangeProposal, IsScored,
  compare_values, compare_recovery, compare_slots, compare_acceptor_change, compare_proposal,
  head_slot, tail_slots,
}

opposite-compare_slots :
    (n : ℕ) (xs ys : List Str) → compare_slots n ys xs ≡ opposite (compare_slots n xs ys)
unfolding compare_slots
opposite-compare_slots zero xs ys = refl
opposite-compare_slots (suc n) xs ys =
    opposite-or_else (strcmp (head_slot xs) (head_slot ys)) (strcmp (head_slot ys) (head_slot xs)) _
      _ (opposite-strcmp (head_slot xs) (head_slot ys))
      (opposite-compare_slots n (tail_slots xs) (tail_slots ys))

Coherent-compare_slots :
    (n : ℕ) (xs ys zs : List Str)
    → Coherent (compare_slots n xs ys) (compare_slots n ys zs) (compare_slots n xs zs)
unfolding compare_slots
Coherent-compare_slots zero xs ys zs = ground arith
Coherent-compare_slots (suc n) xs ys zs =
    Coherent-or_else _ _ _ _ _ _ (Coherent-strcmp (head_slot xs) (head_slot ys) (head_slot zs))
      (Coherent-compare_slots n (tail_slots xs) (tail_slots ys) (tail_slots zs))

opposite-compare_recovery :
    (r s : RecoveryProposal) → compare_recovery s r ≡ opposite (compare_recovery r s)
unfolding compare_recovery
opposite-compare_recovery r s = opposite-or_else _ _ _ _ (opposite-compare r.score s.score) (
    opposite-or_else _ _ _ _ (opposite-strcmp r.backupip s.backupip) (
      opposite-or_else _ _ _ _ (opposite-strcmp r.failip s.failip) (
        opposite-or_else _ _ _ _ (opposite-compare r.backupport s.backupport) (
          opposite-or_else _ _ Ordering.eq Ordering.eq (opposite-compare r.failport s.failport)
            refl))))

Coherent-eq : Coherent Ordering.eq Ordering.eq Ordering.eq
Coherent-eq = ground arith

Coherent-compare_recovery :
    (r s t : RecoveryProposal)
    → Coherent (compare_recovery r s) (compare_recovery s t) (compare_recovery r t)
unfolding compare_recovery
Coherent-compare_recovery r s t =
    Coherent-or_else _ _ _ _ _ _ (Coherent-compare r.score s.score t.score) (
      Coherent-or_else _ _ _ _ _ _ (Coherent-strcmp r.backupip s.backupip t.backupip) (
        Coherent-or_else _ _ _ _ _ _ (Coherent-strcmp r.failip s.failip t.failip) (
          Coherent-or_else _ _ _ _ _ _ (Coherent-compare r.backupport s.backupport t.backupport) (
            Coherent-or_else _ _ _ _ _ _ (Coherent-compare r.failport s.failport t.failport)
              Coherent-eq))))

-- The count of the first list may be replaced by an equal one.
opposite-compare_acceptor_change :
    (a b : AcceptorChangeProposal)
    → compare_acceptor_change b a ≡ opposite (compare_acceptor_change a b)
unfolding compare_acceptor_change
opposite-compare_acceptor_change a b =
    ground (arith, opposite-compare_slots a.nacceptor a.acceptor b.acceptor)

Coherent-compare_acceptor_change :
    (a b c : AcceptorChangeProposal)
    → Coherent
        (compare_acceptor_change a b)
        (compare_acceptor_change b c)
        (compare_acceptor_change a c)
unfolding compare_acceptor_change
Coherent-compare_acceptor_change a b c = record {
  eq_left = λ e. ground (arith, same, h);
  eq_right = λ e. ground (arith, same, h);
  down = λ e f. ground (arith, same, h);
  up = λ e f. ground (arith, same, h);
}
  where
    h :
        Coherent
          (compare_slots a.nacceptor a.acceptor b.acceptor)
          (compare_slots a.nacceptor b.acceptor c.acceptor)
          (compare_slots a.nacceptor a.acceptor c.acceptor)
    h = Coherent-compare_slots a.nacceptor a.acceptor b.acceptor c.acceptor

    same :
        a.nacceptor ≡ b.nacceptor
        → compare_slots b.nacceptor b.acceptor c.acceptor
          ≡ compare_slots a.nacceptor b.acceptor c.acceptor
    same e = ground arith

opposite-compare_proposal :
    (p q : Proposal)
    → IsScored p
    → IsScored q
    → compare_proposal q p ≡ opposite (compare_proposal p q)
unfolding compare_proposal compare_values
opposite-compare_proposal (recovery r) (recovery s) h k = opposite-compare_recovery r s
opposite-compare_proposal (acceptor_change a) (acceptor_change b) h k =
    opposite-compare_acceptor_change a b
opposite-compare_proposal p q h k = ground arith

Coherent-compare_proposal :
    (p q r : Proposal)
    → IsScored p
    → IsScored q
    → IsScored r
    → Coherent (compare_proposal p q) (compare_proposal q r) (compare_proposal p r)
unfolding compare_proposal compare_values
Coherent-compare_proposal (recovery r) (recovery s) (recovery t) h k l =
    Coherent-compare_recovery r s t
Coherent-compare_proposal (acceptor_change a) (acceptor_change b) (acceptor_change c) h k l =
    Coherent-compare_acceptor_change a b c
Coherent-compare_proposal p q r h k l = ground arith

pub compare_proposal_trans :
    (p q r : Proposal)
    → IsScored p
    → IsScored q
    → IsScored r
    → compare_proposal p q ≢ Ordering.gt
    → compare_proposal q r ≢ Ordering.gt
    → compare_proposal p r ≢ Ordering.gt
compare_proposal_trans p q r h k l a b = ground (arith, Coherent-compare_proposal p q r h k l)

-- If their scores fit an int, two proposals compared either way round give opposite outcomes, and the
-- order is transitive: what is not above the second of three is not above the third, where the second
-- is not above the third.
pub compare_proposal_lem :
    (p q r : Proposal)
    → IsScored p
    → IsScored q
    → IsScored r
    → (compare_proposal q p ≡ opposite (compare_proposal p q))
      × (compare_proposal p q ≢ Ordering.gt
          → compare_proposal q r ≢ Ordering.gt
          → compare_proposal p r ≢ Ordering.gt)
compare_proposal_lem p q r h k l =
    (opposite-compare_proposal p q h k, compare_proposal_trans p q r h k l)

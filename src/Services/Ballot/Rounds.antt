-- ===== src/Services/Ballot/Rounds.antt =====
-- The acks of a majority of the acceptors reach a service, in each of the two rounds.
use mathlib.Core.List.{append-nil}
use native.Mathlib.Decide.{dec_le}
use qpidrecovery.Base.{
  ℕ, zero, suc, ◌+◌, ◌*◌, ◌<◌, ◌≤◌, ◌≡◌, refl, ap, Bool, true, some, List, [], ◌∷◌, ◌++◌, All,
  replicate, arith,
}
use qpidrecovery.Paxos.Proposal.{max_acceptors, RecoveryProposal, recovery}
use qpidrecovery.Paxos.Message.{
  phase1ack, phase2request, phase2ack, committing_self, Effect, outcome,
}
use qpidrecovery.Paxos.Proposer.{Proposer, to_acceptors, send_commitment, is_ready_to_commit}
use qpidrecovery.Paxos.Proposer.Commit.{send_commitment_lem}
use qpidrecovery.Paxos.Ballot.Answers.{answer}
use qpidrecovery.Paxos.Ballot.Acks.{
  first_phase, second_phase, first_ack, last_first_ack, late_ack, second_ack, last_second_ack,
}
use qpidrecovery.Recovery.Brokers.{Manager}
use qpidrecovery.Services.{Monitored, World, Done, acts_of, recover, inform_all, commit_recovery}
use qpidrecovery.Services.Failover.{committed_self}
use qpidrecovery.Services.Ballot.{deliver_all, then_acts}
use qpidrecovery.Services.Ballot.Delivery.{
  IsOther, deliver_message-handled, deliver_message-after, deliver_all-late,
}

ready_majority :
    (now i j : ℕ) (s : Proposer)
    → s.nacceptor < j * 2
    → j ≤ max_acceptors
    → is_ready_to_commit (second_phase now i j s) ≡ true
unfolding is_ready_to_commit
ready_majority now i j s m b = ground arith

send_commitment-same :
    (now : ℕ) (s : Proposer)
    → ((send_commitment now s).0.name ≡ s.name) × ((send_commitment now s).0.version ≡ s.version)
unfolding send_commitment
send_commitment-same now s = (ground arith, ground arith)

module _ {ObjectId : Type 0} (id_eq : ObjectId → ObjectId → Bool) (w : World ObjectId)
    (fd : ℕ) where
  module _ (s : Proposer) (front : List Monitored) (mon : Monitored) (back : List Monitored)
      (manager : Manager ObjectId) (others : All (IsOther s.name) front) where
    -- The services, with the state machine of the one in the middle.
    abbrev pub placed : Proposer → List Monitored
    placed t = front ++ (record mon { psm = t } ∷ back)

    deliver_all-late_first :
        (k i j t : ℕ)
        → deliver_all id_eq w fd
            (replicate k (answer phase1ack s))
            (placed (second_phase t i j s))
            manager
          ≡ some (placed (second_phase t i j s), manager, [])
    unfolding deliver_all
    deliver_all-late_first zero i j t = refl
    deliver_all-late_first (suc k) i j t =
        rw
          (
            deliver_message-handled id_eq w fd (answer phase1ack s) front
                (record mon { psm = second_phase t i j s }) back manager (second_phase t i j s) []
                others (late_ack w.now fd i j t s),
            deliver_all,
            deliver_all-late_first k i j t,
          )
          refl

    pub deliver_all-first :
        (k j : ℕ)
        → j * 2 ≤ s.nacceptor
        → s.nacceptor < (j + k) * 2
        → j + k ≤ max_acceptors
        → (i : ℕ) × (deliver_all id_eq w fd
              (replicate k (answer phase1ack s))
              (placed (first_phase j s))
              manager
            ≡ some (
              placed (second_phase w.now i s.phase2acks s),
              manager,
              acts_of (to_acceptors s phase2request s.proposal),
            ))
    unfolding deliver_all
    deliver_all-first zero j a b c = absurd (omega arith)
    deliver_all-first (suc k) j a b c = elim (dec_le (suc j * 2) s.nacceptor) [
      | yes e ↦
          let (i, h) = deliver_all-first k (suc j) e (omega arith) (omega arith) in
          (
            i,
            rw
                (
                  deliver_message-handled id_eq w fd (answer phase1ack s) front
                      (record mon { psm = first_phase j s }) back manager (first_phase (suc j) s) []
                      others (first_ack w.now fd j s (omega arith) e),
                  deliver_all,
                )
                (ap (then_acts []) h),
          )
      | no e ↦ (
        suc j,
        rw
            (
              deliver_message-handled id_eq w fd (answer phase1ack s) front
                  (record mon { psm = first_phase j s }) back manager
                  (second_phase w.now (suc j) s.phase2acks s)
                  (to_acceptors s phase2request s.proposal) others
                  (last_first_ack w.now fd j s (omega arith) (omega arith)),
              deliver_all,
              deliver_all-late_first k (suc j) s.phase2acks w.now,
            )
            (ap (λ z. some (placed (second_phase w.now (suc j) s.phase2acks s), manager, z))
              (append-nil (acts_of (to_acceptors s phase2request s.proposal)))),
      )
    ]

    -- The recovery that the service commits.
    abbrev pub committed : RecoveryProposal → Proposer → Done ObjectId
    committed rp t = commit_recovery id_eq w committing_self rp (record mon { psm = t }) manager

    pub deliver_all-second :
        (rp : RecoveryProposal) (k i j t : ℕ)
        → s.proposal ≡ recovery rp
        → j * 2 ≤ s.nacceptor
        → s.nacceptor < (j + k) * 2
        → j + k ≤ max_acceptors
        → 0 < s.nacceptor
        → (l : ℕ) × (es : List Effect) × (deliver_all id_eq w fd
              (replicate k (answer phase2ack s))
              (placed (second_phase t i j s))
              manager
            ≡ some (
              front ++ ((committed rp (second_phase t i l s)).mon ∷ back),
              (committed rp (second_phase t i l s)).manager,
              (committed rp (second_phase t i l s)).acts ++ acts_of es,
            ))
          × (is_ready_to_commit (second_phase t i l s) ≡ true)
    unfolding deliver_all commit_recovery recover inform_all
    deliver_all-second rp zero i j t p a b c n = absurd (omega arith)
    deliver_all-second rp (suc k) i j t p a b c n = elim (dec_le (suc j * 2) s.nacceptor) [
      | yes e ↦
          let (l, es, h, r) =
            deliver_all-second rp k i (suc j) t p e (omega arith) (omega arith) n in
          (
            l,
            es,
            rw
                (
                  deliver_message-handled id_eq w fd (answer phase2ack s) front
                      (record mon { psm = second_phase t i j s }) back manager
                      (second_phase t i (suc j) s) [] others
                      (second_ack w.now fd i j t s (omega arith) n e),
                  deliver_all,
                )
                (ap (then_acts []) h),
            r,
          )
      | no e ↦
          let last = second_phase t i (suc j) s in
          let r = ready_majority t i (suc j) s (omega arith) (omega arith) in
          let same = send_commitment-same w.now last in
          let (es, h) =
            deliver_all-late id_eq w fd k s front (committed rp last).mon back
              (committed rp last).manager others same.0 same.1
              (send_commitment_lem w.now last r).0 in
          (
            suc j,
            es,
            rw
                (
                  deliver_message-after id_eq w fd (answer phase2ack s) front
                      (record mon { psm = second_phase t i j s }) back manager
                      (outcome last committing_self []) (committed rp last) others
                      (last_second_ack w.now fd i j t s (omega arith) (omega arith)) refl
                      (committed_self id_eq w (outcome last committing_self []) rp
                        (record mon { psm = second_phase t i j s }) manager refl r p),
                  deliver_all,
                  h,
                )
                refl,
            r,
          )
    ]

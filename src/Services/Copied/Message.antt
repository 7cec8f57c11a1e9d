-- ===== src/Services/Copied/Message.antt =====
-- What handlePaxosMessage copies: whether a message that is handled leads to copyObjects.
use qpidrecovery.Base.{
  ℕ, ◌≡◌, refl, sym, ap, ◌∙◌, Bool, true, false, ◌&&◌, Option, some, ◌++◌, arith, Bool-cases,
  Option-cases, inl, inr, ltb,
}
use qpidrecovery.Paxos.Proposal.{
  Proposal, no_proposal, recovery, acceptor_change, RecoveryProposal, AcceptorChangeProposal,
  max_acceptors,
}
use qpidrecovery.Paxos.Message.{
  PaxosMessage, PaxosResult, handled, ignored, committing_self, committing_other, Outcome,
}
use qpidrecovery.Paxos.Proposer.{Proposer, handle_message, get_committing_proposal}
use qpidrecovery.Paxos.Proposer.Commit.{handle_message-committing}
use qpidrecovery.Recovery.Brokers.{Manager}
use qpidrecovery.Services.Copied.{
  has_copied, has_copied-append, has_copied-inform_acts, has_copied-acts_of, has_copied-copied,
  shows_one, copied_neither,
}
use qpidrecovery.Services.{
  Monitored, World, Done, acts_of, inform_all, change_acceptors, recover, commit_recovery,
  handle_commit, after_outcome, is_self, is_commit,
}

abbrev pub is_recovery : Proposal → Bool
is_recovery (recovery rp) = true
is_recovery no_proposal = false
is_recovery (acceptor_change change) = false

module _ {ObjectId : Type 0} where
  some_done : {a d : Done ObjectId} → ◌≡◌ {A = Option (Done ObjectId)} (some a) (some d) → a ≡ d
  some_done h = ground arith

copied_by_change :
    {ObjectId : Type 0} (w : World ObjectId) (change : AcceptorChangeProposal) (mon : Monitored)
    (manager : Manager ObjectId)
    → has_copied (change_acceptors w change mon manager).acts ≡ false
unfolding change_acceptors
copied_by_change {ObjectId} w change mon manager = has_copied-acts_of ObjectId _

module _ {ObjectId : Type 0} (id_eq : ObjectId → ObjectId → Bool) where
  copied_by_commit :
      (w : World ObjectId) (r : PaxosResult) (rp : RecoveryProposal) (mon : Monitored)
      (manager : Manager ObjectId)
      → has_copied (commit_recovery id_eq w r rp mon manager).acts
        ≡ (is_self r && shows_one w.brokerobjs)
  unfolding commit_recovery recover inform_all
  copied_by_commit w committing_self rp mon manager =
      has_copied-copied id_eq w.down w.linkobjs _ _ manager.store w.brokerobjs _ (
        copied_neither _ _ (has_copied-acts_of ObjectId _)
          (has_copied-inform_acts w _ mon.informlist))
  copied_by_commit w committing_other rp mon manager = has_copied-inform_acts w _ mon.informlist
  copied_by_commit w handled rp mon manager = has_copied-inform_acts w _ mon.informlist
  copied_by_commit w ignored rp mon manager = has_copied-inform_acts w _ mon.informlist

  copied_by_handle :
      (w : World ObjectId) (r : PaxosResult) (mon : Monitored) (manager : Manager ObjectId)
      (p : Proposal) (d : Done ObjectId)
      → get_committing_proposal mon.psm ≡ some p
      → handle_commit id_eq w r mon manager ≡ some d
      → has_copied d.acts ≡ (is_recovery p && (is_self r && shows_one w.brokerobjs))
  unfolding handle_commit
  copied_by_handle w r mon manager no_proposal d e h =
      sym (ap (λ z. has_copied z.acts) (some_done (rw (e, handle_commit) at h)))
      ∙ unfold has_copied in refl
  copied_by_handle w r mon manager (recovery rp) d e h =
      sym (ap (λ z. has_copied z.acts) (some_done (rw (e, handle_commit) at h)))
      ∙ ground (arith, copied_by_commit w r rp mon manager)
  copied_by_handle w r mon manager (acceptor_change change) d e h =
      elim (Bool-cases (ltb max_acceptors change.nacceptor)) [
        | inl f ↦ absurd (ground (arith, rw f at (rw (e, handle_commit) at h)))
        | inr f ↦
            sym (ap (λ z. has_copied z.acts) (some_done (rw f at (rw (e, handle_commit) at h))))
            ∙ copied_by_change w change mon manager
      ]

  copied_after :
      (w : World ObjectId) (o : Outcome Proposer) (mon : Monitored) (manager : Manager ObjectId)
      (d : Done ObjectId)
      → is_commit o.result ≡ true
      → after_outcome id_eq w o mon manager ≡ some d
      → (e : Done ObjectId) × (handle_commit id_eq w o.result
            (record mon { psm = o.machine })
            manager
          ≡ some e)
        × (d ≡ record e { acts = acts_of o.effects ++ e.acts })
  unfolding after_outcome
  copied_after w o mon manager d c h =
      elim (Option-cases
        (handle_commit id_eq w o.result (record mon { psm = o.machine }) manager)) [
          | inl f ↦ absurd (ground (arith, rw f at (rw (c, after_outcome) at h)))
          | inr (e, f) ↦ (e, f, sym (some_done (rw f at (rw (c, after_outcome) at h))))
        ]

  own_commit :
      (w : World ObjectId) (fd : ℕ) (m : PaxosMessage) (mon : Monitored)
      (manager : Manager ObjectId) (o : Outcome Proposer) (e : Done ObjectId)
      → handle_message w.now fd m mon.psm ≡ some o
      → handle_commit id_eq w o.result (record mon { psm = o.machine }) manager ≡ some e
      → has_copied e.acts
        ≡ (is_recovery mon.psm.proposal && (is_self o.result && shows_one w.brokerobjs))
  unfolding handle_commit
  own_commit w fd m mon manager o e h k = elim (Option-cases (get_committing_proposal o.machine)) [
    | inl f ↦ absurd (ground (arith, rw (f, handle_commit) at k))
    | inr (p, f) ↦
        copied_by_handle w o.result (record mon { psm = o.machine }) manager p e f k
        ∙ ground (arith, f, (handle_message-committing w.now fd m mon.psm o h).0)
  ]

  -- Whether the objects are copied at a message.
  pub copied_by_message :
      (w : World ObjectId) (fd : ℕ) (m : PaxosMessage) (mon : Monitored)
      (manager : Manager ObjectId) (o : Outcome Proposer) (d : Done ObjectId)
      → handle_message w.now fd m mon.psm ≡ some o
      → after_outcome id_eq w o mon manager ≡ some d
      → has_copied d.acts
        ≡ (is_recovery mon.psm.proposal && (is_self o.result && shows_one w.brokerobjs))
  unfolding after_outcome
  copied_by_message w fd m mon manager o d h k = elim (Bool-cases (is_commit o.result)) [
    | inl c ↦
        let (e, f, g) = copied_after w o mon manager d c k in
        ap (λ z. has_copied z.acts) g
        ∙ has_copied-append (acts_of o.effects) e.acts
        ∙ ground
            (arith, has_copied-acts_of ObjectId o.effects, own_commit w fd m mon manager o e h f)
    | inr c ↦
        sym (ap (λ z. has_copied z.acts) (some_done (rw (c, after_outcome) at k)))
        ∙ has_copied-acts_of ObjectId o.effects
        ∙ ground arith
  ]

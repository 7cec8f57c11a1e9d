-- ===== src/Services/Ballot/Started.antt =====
-- The steps of a failover: startRecovery of one of the services, and the rounds that follow.
use mathlib.Core.List.{append_assoc}
use qpidrecovery.Base.{
  ℕ, ◌<◌, ◌≡◌, refl, sym, ap, ◌∙◌, Bool, false, Option, none, some, List, [], ◌∷◌, ◌++◌, length,
  replicate, Option-cases, inl, inr,
}
use qpidrecovery.Text.{Str}
use qpidrecovery.Address.{url_to_ip_port}
use qpidrecovery.Paxos.Proposal.{new_recovery}
use qpidrecovery.Paxos.Message.{phase1proposal, PaxosMessage, Effect}
use qpidrecovery.Paxos.Acceptor.{Acceptor}
use qpidrecovery.Paxos.Proposer.{Proposer, to_acceptors}
use qpidrecovery.Paxos.Ballot.{sent, reach, opened}
use qpidrecovery.Paxos.Ballot.Answers.{asking, sent-broadcast}
use qpidrecovery.Paxos.Ballot.Acks.{first_phase}
use qpidrecovery.Paxos.Ballot.Commits.{new_proposal_lem}
use qpidrecovery.Heartbeat.{HeartbeatClient, drop_client}
use qpidrecovery.Recovery.Brokers.{Manager, delete_broker}
use qpidrecovery.Services.{Monitored, Act, World, Done, acts_of, start_recovery, after_outcome}
use qpidrecovery.Services.Copied.{has_copied, has_copied-acts_of, copied_neither}
use qpidrecovery.Services.Failover.{start_recovery_calls}
use qpidrecovery.Services.Host.{recover_at}
use qpidrecovery.Services.Loop.{selector_effects}
use qpidrecovery.Services.Ballot.{deliver_all, round, failover}
use qpidrecovery.Services.Ballot.Delivery.{acts_of-append}

pub selector_effects-acts_of :
    (ObjectId : Type 0) (es : List Effect)
    → selector_effects (acts_of {ObjectId = ObjectId} es) ≡ es
unfolding selector_effects
selector_effects-acts_of ObjectId [] = refl
selector_effects-acts_of ObjectId (e ∷ es) = ap (λ z. e ∷ z) (selector_effects-acts_of ObjectId es)

sent-drop_client : (c : HeartbeatClient) (es : List Effect) → sent (drop_client c ++ es) ≡ sent es
unfolding sent
sent-drop_client c es = elim (Option-cases c.sfd) [ inl e ↦ rw e refl | inr (fd, e) ↦ rw e refl ]

module _ {ObjectId : Type 0} (id_eq : ObjectId → ObjectId → Bool) (w : World ObjectId)
    (fd : ℕ) where
  pub recover_at_lem :
      (front others : List Monitored) (x : Monitored) (back : List Monitored)
      (manager : Manager ObjectId) (d : Done ObjectId)
      → start_recovery id_eq w x manager ≡ some d
      → recover_at id_eq w (length others) front (others ++ (x ∷ back)) manager
        ≡ some (front ++ (others ++ (d.mon ∷ back)), d.manager, d.acts)
  unfolding recover_at
  recover_at_lem front [] x back manager d h = rw h refl
  recover_at_lem front (y ∷ others) x back manager d h =
      recover_at_lem (front ++ (y ∷ [])) others x back manager d h
      ∙ ap (λ z. some (z, d.manager, d.acts))
          (append_assoc front (y ∷ []) (others ++ (d.mon ∷ back)))

  pub round_lem :
      (members next : List (Option Acceptor)) (xs ys : List Monitored)
      (manager n : Manager ObjectId) (acts es : List (Act ObjectId)) (ms : List PaxosMessage)
      → reach w.now fd (sent (selector_effects acts)) members ≡ some (next, ms)
      → deliver_all id_eq w fd ms xs manager ≡ some (ys, n, es)
      → round id_eq w fd members (xs, manager, acts) ≡ some (next, (ys, n, es))
  unfolding round
  round_lem members next xs ys manager n acts es ms h k = rw (h, round, k) refl

  -- startRecovery of a proposer that has acceptors to ask.
  pub start_recovery_asks :
      (mon : Monitored) (manager : Manager ObjectId) (c : HeartbeatClient) (url bip : Str)
      (bport : ℕ)
      → mon.hbc ≡ some c
      → w.backup ≡ some url
      → url_to_ip_port url ≡ some (bip, bport)
      → 0 < mon.psm.nacceptor
      → mon.psm.phase1acks ≡ 0
      → let p = new_recovery mon.psm.version mon.ip mon.port bip bport w.score in
        start_recovery id_eq w mon manager
        ≡ some (record {
          mon = record mon {
            psm = first_phase 0 (record mon.psm { proposal = p; timestamp = w.now });
            hbc = none;
          };
          manager = delete_broker (record { ip = mon.ip; port = mon.port }) manager;
          acts = acts_of (drop_client c) ++ acts_of (to_acceptors mon.psm phase1proposal p);
        })
  unfolding after_outcome
  start_recovery_asks mon manager c url bip bport h b u n z =
      start_recovery_calls id_eq w mon manager c url bip bport h b u
      ∙ rw
          (new_proposal_lem w.now (new_recovery mon.psm.version mon.ip mon.port bip bport w.score)
            mon.psm n z)
          refl

  -- The acceptors that get the acts of a service that drops its heartbeat client.
  pub sent_asking :
      (c : HeartbeatClient) (t : Proposer)
      → sent (
          selector_effects (
            acts_of {ObjectId = ObjectId} (drop_client c)
            ++ acts_of (to_acceptors t phase1proposal t.proposal)))
        ≡ replicate (opened t.nacceptor t.accsfd) (asking phase1proposal t)
  sent_asking c t =
      ap (λ z. sent (selector_effects z)) (acts_of-append (drop_client c) _)
      ∙ ap sent (selector_effects-acts_of ObjectId _)
      ∙ sent-drop_client c _
      ∙ sent-broadcast t.nacceptor t.accsfd phase1proposal t.version t.name t.proposal

  pub copied_before :
      (es fs gs : List Effect)
      → has_copied {ObjectId = ObjectId} ((acts_of es ++ acts_of fs) ++ acts_of gs) ≡ false
  copied_before es fs gs =
      copied_neither (acts_of es ++ acts_of fs) (acts_of gs)
        (copied_neither (acts_of es) (acts_of fs) (has_copied-acts_of ObjectId es)
          (has_copied-acts_of ObjectId fs))
        (has_copied-acts_of ObjectId gs)

  pub failover_rounds :
      (i : ℕ) (members next last : List (Option Acceptor)) (xs ys zs us : List Monitored)
      (manager n p q : Manager ObjectId) (es fs gs : List (Act ObjectId))
      → recover_at id_eq w i [] xs manager ≡ some (ys, n, es)
      → round id_eq w fd members (ys, n, es) ≡ some (next, (zs, p, fs))
      → round id_eq w fd next (zs, p, fs) ≡ some (last, (us, q, gs))
      → failover id_eq w fd i members xs manager ≡ some (us, q, (es ++ fs) ++ gs)
  unfolding failover
  failover_rounds i members next last xs ys zs us manager n p q es fs gs h k l =
      rw (h, failover, k, l) (ap (λ z. some (us, q, z)) (sym (append_assoc es fs gs)))

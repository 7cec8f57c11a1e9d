-- ===== src/Services/Failover.antt =====
-- When a service moves to its backup, and who copies its objects.
use mathlib.Core.List.{append_assoc}
use mathlib.Core.Path.{subst}
use qpidrecovery.Base.{
  ℕ, ◌*◌, ◌<◌, ◌≡◌, ◌⊎◌, refl, sym, ap, ◌∙◌, Bool, true, ◌&&◌, Option, none, some, List, [], ◌∷◌,
  ◌++◌, ◌==◌, arith, Bool-cases, inl, inr,
}
use qpidrecovery.Text.{Str}
use qpidrecovery.Address.{BrokerAddress, url_to_ip_port}
use qpidrecovery.Paxos.Proposal.{Proposal, recovery, RecoveryProposal, new_recovery}
use qpidrecovery.Paxos.Message.{PaxosMessage, PaxosResult, PaxosState, committing_self, Outcome}
use qpidrecovery.Paxos.Proposer.{
  Proposer, handle_message, new_proposal, get_committing_proposal, is_ready_to_commit,
}
use qpidrecovery.Paxos.Proposer.Commit.{
  handle_message-committing, new_proposal-committing, send_commitment_lem,
}
use qpidrecovery.Heartbeat.{HeartbeatClient, drop_client}
use qpidrecovery.Broker.Info.{Object}
use qpidrecovery.Recovery.Copy.{Action, copy_objects}
use qpidrecovery.Recovery.Brokers.{Manager, delete_broker, after_copy}
use qpidrecovery.Services.Copied.Message.{is_recovery, copied_by_message}
use qpidrecovery.Services.Copied.{has_copied, shows_one, copy_objects-one}
use qpidrecovery.Services.{
  Monitored, Act, copied, World, Done, acts_of, inform_all, recover, commit_recovery, handle_commit,
  after_outcome, start_recovery, is_self, preceded,
}

-- More than half of the acceptors have acked, or there is none.
abbrev pub HasMajority : Proposer → Type 0
HasMajority s = (s.nacceptor < s.phase2acks * 2) ⊎ (s.nacceptor ≡ 0)

ready_HasMajority : (s : Proposer) → is_ready_to_commit s ≡ true → HasMajority s
unfolding is_ready_to_commit
ready_HasMajority s h = elim (Bool-cases (s.nacceptor == 0)) [
  | inl e ↦ inr (ground arith)
  | inr e ↦ inl (ground arith)
]

self_of : (r : PaxosResult) (a b : Bool) → (a && (is_self r && b)) ≡ true → r ≡ committing_self
self_of r a b h = ground arith

ready_alone :
    (now : ℕ) (p : Proposal) (s : Proposer)
    → s.nacceptor ≡ 0
    → is_ready_to_commit (new_proposal now p s).machine ≡ true
unfolding new_proposal is_ready_to_commit
ready_alone now p s n = ground arith

ready_proposal :
    (s : Proposer) (p : Proposal)
    → is_ready_to_commit s ≡ true
    → s.proposal ≡ p
    → get_committing_proposal s ≡ some p
unfolding get_committing_proposal
ready_proposal s p c e = rw c (ap some e)

proposal_alone :
    (now : ℕ) (p : Proposal) (s : Proposer)
    → s.nacceptor ≡ 0
    → (new_proposal now p s).machine.proposal ≡ p
unfolding new_proposal
proposal_alone now p s n = ground arith

module _ {ObjectId : Type 0} (id_eq : ObjectId → ObjectId → Bool) where
  -- What a message makes a proposer program do: it copies the objects of a broker exactly if the
  -- message is the one at which the state machine reports that its own proposal is committed, this is
  -- a recovery, and the backup shows exactly one broker object; and it copies them only if more than
  -- half of the acceptors have acked the proposal by then, or there is no acceptor.
  pub message_copies :
      (w : World ObjectId) (fd : ℕ) (m : PaxosMessage) (mon : Monitored)
      (manager : Manager ObjectId) (o : Outcome Proposer) (d : Done ObjectId)
      → handle_message w.now fd m mon.psm ≡ some o
      → after_outcome id_eq w o mon manager ≡ some d
      → (has_copied d.acts
          ≡ (is_recovery mon.psm.proposal && (is_self o.result && shows_one w.brokerobjs)))
        × (has_copied d.acts ≡ true → HasMajority o.machine)
  message_copies w fd m mon manager o d h k =
      let e = copied_by_message id_eq w fd m mon manager o d h k in
      (
        e,
        λ c. ready_HasMajority o.machine (
            ((handle_message-committing w.now fd m mon.psm o h).0 (
              self_of o.result (is_recovery mon.psm.proposal) (shows_one w.brokerobjs)
                (sym e ∙ c))).1),
      )

  -- A commitment of a proposer's own recovery, after a call of its state machine.
  pub committed_self :
      (w : World ObjectId) (o : Outcome Proposer) (rp : RecoveryProposal) (mon : Monitored)
      (manager : Manager ObjectId)
      → o.result ≡ committing_self
      → is_ready_to_commit o.machine ≡ true
      → o.machine.proposal ≡ recovery rp
      → after_outcome id_eq w o mon manager
        ≡ preceded (acts_of o.effects) (
            some
              (commit_recovery id_eq w committing_self rp (record mon { psm = o.machine }) manager))
  unfolding after_outcome handle_commit
  committed_self w o rp mon manager r c p =
      rw (r, after_outcome) (rw (ready_proposal o.machine (recovery rp) c p, handle_commit) refl)

  -- startRecovery, where it does not follow a null pointer.
  pub start_recovery_calls :
      (w : World ObjectId) (mon : Monitored) (manager : Manager ObjectId) (c : HeartbeatClient)
      (url bip : Str) (bport : ℕ)
      → mon.hbc ≡ some c
      → w.backup ≡ some url
      → url_to_ip_port url ≡ some (bip, bport)
      → start_recovery id_eq w mon manager
        ≡ preceded (acts_of (drop_client c)) (
            after_outcome id_eq w
              (new_proposal w.now
                (new_recovery mon.psm.version mon.ip mon.port bip bport w.score)
                mon.psm)
              (record mon { hbc = none })
              (delete_broker (record { ip = mon.ip; port = mon.port }) manager))
  unfolding start_recovery
  start_recovery_calls w mon manager c url bip bport h b u = ground arith

  -- What startRecovery leaves and does when it commits the recovery itself, with these calls of the
  -- copy.
  abbrev pub RecoversAlone :
      World ObjectId
      → Monitored
      → Manager ObjectId
      → Str
      → ℕ
      → Option (List (Action ObjectId))
      → Type 0
  RecoversAlone w mon manager bip bport calls =
      let fail : BrokerAddress = record { ip = mon.ip; port = mon.port } in
      let backup : BrokerAddress = record { ip = bip; port = bport } in
      (d : Done ObjectId) × (pre : List (Act ObjectId)) × (post : List (Act ObjectId))
      × (start_recovery id_eq w mon manager ≡ some d)
      × (d.acts ≡ pre ++ (copied fail backup calls ∷ post))
      × (d.mon.ip ≡ bip)
      × (d.mon.port ≡ bport)
      × (d.mon.hbc ≡ none)
      × (d.mon.psm.state ≡ PaxosState.phase3)
      × (d.mon.psm.lastcommit ≡ new_recovery mon.psm.version mon.ip mon.port bip bport w.score)
      × (d.manager ≡ after_copy calls (delete_broker fail manager))

  recovers_alone :
      (w : World ObjectId) (mon : Monitored) (manager : Manager ObjectId) (c : HeartbeatClient)
      (url bip : Str) (bport : ℕ)
      → mon.hbc ≡ some c
      → w.backup ≡ some url
      → url_to_ip_port url ≡ some (bip, bport)
      → mon.psm.nacceptor ≡ 0
      → let known = delete_broker (record { ip = mon.ip; port = mon.port }) manager in
        RecoversAlone w mon manager bip bport (
          copy_objects id_eq w.down w.brokerobjs w.linkobjs
            (record { ip = mon.ip; port = mon.port })
            (record { ip = bip; port = bport })
            known.store)
  unfolding commit_recovery recover inform_all new_recovery
  recovers_alone w mon manager c url bip bport h b u n =
      let made : Outcome Proposer = new_proposal w.now (recovery rp) mon.psm in
      let final =
        send_commitment_lem w.now made.machine (ready_alone w.now (recovery rp) mon.psm n) in
      (
        _,
        acts_of (drop_client c) ++ acts_of made.effects,
        _,
        start_recovery_calls w mon manager c url bip bport h b u
            ∙ ap (preceded (acts_of (drop_client c))) (
                committed_self w made rp (record mon { hbc = none }) _
                  ((new_proposal-committing w.now (recovery rp) mon.psm).1 n)
                  (ready_alone w.now (recovery rp) mon.psm n)
                  (proposal_alone w.now (recovery rp) mon.psm n)),
        sym (append_assoc (acts_of (drop_client c)) (acts_of made.effects) _),
        refl,
        refl,
        refl,
        final.0,
        final.1 ∙ proposal_alone w.now (recovery rp) mon.psm n,
        refl,
      )
    where
      rp : RecoveryProposal
      rp = record {
        newversion = mon.psm.version;
        failip = mon.ip;
        failport = mon.port;
        backupip = bip;
        backupport = bport;
        score = w.score;
      }

  -- A proposer that has no acceptor to ask and loses the heartbeat of a broker copies the objects of
  -- this broker to the backup, is committed to the recovery, and follows the service at the backup; of
  -- the manager, only the broker list, without the failed broker, and the pipe, with the events of the
  -- links to hosts that are down, change. (It has a heartbeat client, and a backup with a valid url
  -- that shows exactly one broker object.)
  pub start_recovery_alone :
      (w : World ObjectId) (mon : Monitored) (manager : Manager ObjectId) (c : HeartbeatClient)
      (url bip : Str) (bport : ℕ) (o : Object ObjectId)
      → mon.hbc ≡ some c
      → w.backup ≡ some url
      → url_to_ip_port url ≡ some (bip, bport)
      → w.brokerobjs ≡ o ∷ []
      → mon.psm.nacceptor ≡ 0
      → let fail : BrokerAddress = record { ip = mon.ip; port = mon.port } in
        let backup : BrokerAddress = record { ip = bip; port = bport } in
        (calls : List (Action ObjectId)) × (copy_objects id_eq w.down w.brokerobjs w.linkobjs fail
            backup
            (delete_broker fail manager).store
          ≡ some calls)
        × RecoversAlone w mon manager bip bport (some calls)
  start_recovery_alone w mon manager c url bip bport o h b u s n =
      let fail : BrokerAddress = record { ip = mon.ip; port = mon.port } in
      let backup : BrokerAddress = record { ip = bip; port = bport } in
      let (calls, e) =
        copy_objects-one id_eq w.down w.linkobjs fail backup (delete_broker fail manager).store
          w.brokerobjs o s in
      (
        calls,
        e,
        subst (RecoversAlone w mon manager bip bport) e
            (recovers_alone w mon manager c url bip bport h b u n),
      )

-- ===== src/Services/Ballot/Recovered.antt =====
-- A service whose heartbeat is lost, while a majority of its acceptors answers.
use mathlib.Core.Path.{subst}
use qpidrecovery.Base.{
  ℕ, ◌*◌, ◌<◌, ◌≤◌, ◌≡◌, refl, ap, ◌∙◌, Bool, false, Option, none, some, List, [], ◌∷◌, ◌++◌, All,
  length, replicate, arith,
}
use qpidrecovery.Text.{Str}
use qpidrecovery.Address.{BrokerAddress, url_to_ip_port}
use qpidrecovery.Paxos.Proposal.{max_acceptors, RecoveryProposal, recovery, new_recovery}
use qpidrecovery.Paxos.Message.{phase1proposal, phase1ack, phase2request, phase2ack, PaxosState}
use qpidrecovery.Paxos.Acceptor.{Acceptor}
use qpidrecovery.Paxos.Proposer.{Proposer, to_acceptors}
use qpidrecovery.Paxos.Proposer.Commit.{send_commitment_lem}
use qpidrecovery.Paxos.Ballot.{sent, reach, AllFree, answering, opened}
use qpidrecovery.Paxos.Ballot.Answers.{
  promised, voted, each, answer, sent-broadcast, opened_le, reach-first, reach-second,
}
use qpidrecovery.Paxos.Ballot.Acks.{second_phase}
use qpidrecovery.Paxos.Ballot.Commits.{AllFree-same, answering_le}
use qpidrecovery.Heartbeat.{HeartbeatClient, drop_client}
use qpidrecovery.Broker.Info.{Object}
use qpidrecovery.Recovery.Copy.{Action, copy_objects}
use qpidrecovery.Recovery.Brokers.{Manager, delete_broker, after_copy}
use qpidrecovery.Services.{
  Monitored, Act, copied, World, acts_of, recover, inform_all, commit_recovery,
}
use qpidrecovery.Services.Copied.{
  has_copied, has_copied-acts_of, has_copied-inform_acts, copied_neither, copy_objects-one,
}
use qpidrecovery.Services.Ballot.{failover}
use qpidrecovery.Services.Ballot.Started.{
  recover_at_lem, round_lem, start_recovery_asks, sent_asking, copied_before, failover_rounds,
  selector_effects-acts_of,
}
use qpidrecovery.Services.Ballot.Delivery.{IsOther}
use qpidrecovery.Services.Ballot.Rounds.{deliver_all-first, deliver_all-second}

-- In the failover of `mon`, which stands between other services, the objects of its broker are copied
-- once to the backup, with these calls; then the service follows the backup and is committed to this
-- recovery. The failed broker is not known any more, and the events that copyObjects sends wait.
abbrev pub RecoversWith :
    {ObjectId : Type 0}
    → (ObjectId → ObjectId → Bool)
    → World ObjectId
    → ℕ
    → List Monitored
    → Monitored
    → List Monitored
    → Manager ObjectId
    → List (Option Acceptor)
    → Str
    → ℕ
    → Option (List (Action ObjectId))
    → Type 0
RecoversWith {ObjectId} id_eq w fd front mon back manager members bip bport calls =
    let fail : BrokerAddress = record { ip = mon.ip; port = mon.port } in
    let backup : BrokerAddress = record { ip = bip; port = bport } in
    (last : Monitored) × (pre : List (Act ObjectId)) × (post : List (Act ObjectId)) × (failover
        id_eq w fd (length front) members (front ++ (mon ∷ back)) manager
      ≡ some (
        front ++ (last ∷ back),
        after_copy calls (delete_broker fail manager),
        pre ++ (copied fail backup calls ∷ post),
      ))
    × (has_copied pre ≡ false)
    × (has_copied post ≡ false)
    × (last.ip ≡ bip)
    × (last.port ≡ bport)
    × (last.hbc ≡ none)
    × (last.psm.state ≡ PaxosState.phase3)
    × (last.psm.lastcommit ≡ new_recovery mon.psm.version mon.ip mon.port bip bport w.score)

-- copyObjects goes through its rounds, and the failover makes the calls of these rounds.
abbrev pub RecoversOnce :
    {ObjectId : Type 0}
    → (ObjectId → ObjectId → Bool)
    → World ObjectId
    → ℕ
    → List Monitored
    → Monitored
    → List Monitored
    → Manager ObjectId
    → List (Option Acceptor)
    → Str
    → ℕ
    → Type 0
RecoversOnce {ObjectId} id_eq w fd front mon back manager members bip bport =
    let fail : BrokerAddress = record { ip = mon.ip; port = mon.port } in
    let backup : BrokerAddress = record { ip = bip; port = bport } in
    (calls : List (Action ObjectId)) × (copy_objects id_eq w.down w.brokerobjs w.linkobjs fail
        backup (delete_broker fail manager).store
      ≡ some calls)
    × RecoversWith id_eq w fd front mon back manager members bip bport (some calls)

module _ {ObjectId : Type 0} (id_eq : ObjectId → ObjectId → Bool) (w : World ObjectId)
    (fd : ℕ) where
  failover_with :
      (front : List Monitored) (mon : Monitored) (back : List Monitored)
      (manager : Manager ObjectId) (members : List (Option Acceptor)) (c : HeartbeatClient)
      (url bip : Str) (bport : ℕ)
      → mon.hbc ≡ some c
      → w.backup ≡ some url
      → url_to_ip_port url ≡ some (bip, bport)
      → let p = new_recovery mon.psm.version mon.ip mon.port bip bport w.score in
        All (IsOther mon.psm.name) front
        → mon.psm.nacceptor ≤ max_acceptors
        → mon.psm.phase1acks ≡ 0
        → mon.psm.phase2acks ≡ 0
        → length members ≤ opened mon.psm.nacceptor mon.psm.accsfd
        → AllFree mon.psm p members
        → mon.psm.nacceptor < answering members * 2
        → RecoversWith id_eq w fd front mon back manager members bip bport (
            copy_objects id_eq w.down w.brokerobjs w.linkobjs
              (record { ip = mon.ip; port = mon.port })
              (record { ip = bip; port = bport })
              (delete_broker (record { ip = mon.ip; port = mon.port }) manager).store)
  unfolding commit_recovery recover inform_all new_recovery
  failover_with front mon back manager members c url bip bport h b u others n z y l f m =
      let answers = answering_le members in
      let slots = opened_le t.nacceptor t.accsfd in
      let asked =
        start_recovery_asks id_eq w fd mon manager c url bip bport h b u (omega arith) z in
      let free = AllFree-same mon.psm t (recovery rp) members refl refl f in
      let (i, first) =
        deliver_all-first id_eq w fd t front mon0 back known others (answering members) 0
          (omega arith) (omega arith) (omega arith) in
      let (j, es, second, ready) =
        deliver_all-second id_eq w fd t front mon0 back known others rp (answering members) i
          t.phase2acks w.now refl (omega arith) (omega arith) (omega arith) (omega arith) in
      (
        _,
        (acts_of (drop_client c) ++ acts_of (to_acceptors t phase1proposal t.proposal))
            ++ acts_of (to_acceptors t phase2request t.proposal),
        _,
        failover_rounds id_eq w fd (length front) members (each (promised w.now t.proposal) members)
            (each (voted w.now t.proposal) members) _ _ _ _ manager known known _ _ _ _
            (recover_at_lem id_eq w fd [] front mon back manager _ asked)
            (round_lem id_eq w fd members _ _ _ known known _ _
              (replicate (answering members) (answer phase1ack t))
              (ap (λ ms. reach w.now fd ms members) (sent_asking id_eq w fd c t)
                ∙ reach-first w.now fd (opened t.nacceptor t.accsfd) t members free l)
              first)
            (round_lem id_eq w fd (each (promised w.now t.proposal) members) _ _ _ known _ _ _
              (replicate (answering members) (answer phase2ack t))
              (ap (λ ms. reach w.now fd ms (each (promised w.now t.proposal) members))
                  (ap sent (selector_effects-acts_of ObjectId _)
                    ∙ sent-broadcast t.nacceptor t.accsfd phase2request t.version t.name t.proposal)
                ∙ reach-second w.now fd (opened t.nacceptor t.accsfd) t members free l)
              second),
        copied_before id_eq w fd (drop_client c) (to_acceptors t phase1proposal t.proposal)
            (to_acceptors t phase2request t.proposal),
        copied_neither _ _
            (copied_neither _ _ (has_copied-acts_of ObjectId _) (has_copied-inform_acts w _ _))
            (has_copied-acts_of ObjectId es),
        refl,
        refl,
        refl,
        (send_commitment_lem w.now (second_phase w.now i j t) ready).0,
        (send_commitment_lem w.now (second_phase w.now i j t) ready).1,
      )
    where
      rp : RecoveryProposal
      rp = record {
        newversion = mon.psm.version;
        failip = mon.ip;
        failport = mon.port;
        backupip = bip;
        backupport = bport;
        score = w.score;
      }

      t : Proposer
      t = record mon.psm { proposal = recovery rp; timestamp = w.now }

      mon0 : Monitored
      mon0 = record mon { hbc = none }

      known : Manager ObjectId
      known = delete_broker (record { ip = mon.ip; port = mon.port }) manager

  -- A proposer program that loses the heartbeat of a broker, while a majority of its acceptors answers.
  -- If the service has a heartbeat client and a backup with a valid url that shows exactly one broker
  -- object, no service before it has a state machine of its name, its own state machine has at most
  -- MAX_ACCEPTORS acceptors and no acks, and more than half of the acceptors are behind open slots and
  -- answer, all of them in phase 1 of the same name and version with a promise that is not the greater
  -- one, then startRecovery and the two rounds of messages, whichever other slots are closed and
  -- whichever of the others are lost, copy the objects of the broker exactly once, to the backup, and
  -- leave a service that follows the backup, is in the final phase, has this recovery as its last
  -- commit and no heartbeat client; the failed broker is not known any more, and the events of the
  -- links to hosts that are down wait in the pipe.
  pub failover_lem :
      (front : List Monitored) (mon : Monitored) (back : List Monitored)
      (manager : Manager ObjectId) (members : List (Option Acceptor)) (c : HeartbeatClient)
      (url bip : Str) (bport : ℕ) (o : Object ObjectId)
      → mon.hbc ≡ some c
      → w.backup ≡ some url
      → url_to_ip_port url ≡ some (bip, bport)
      → w.brokerobjs ≡ o ∷ []
      → let p = new_recovery mon.psm.version mon.ip mon.port bip bport w.score in
        All (IsOther mon.psm.name) front
        → mon.psm.nacceptor ≤ max_acceptors
        → mon.psm.phase1acks ≡ 0
        → mon.psm.phase2acks ≡ 0
        → length members ≤ opened mon.psm.nacceptor mon.psm.accsfd
        → AllFree mon.psm p members
        → mon.psm.nacceptor < answering members * 2
        → RecoversOnce id_eq w fd front mon back manager members bip bport
  failover_lem front mon back manager members c url bip bport o h b u s others n z y l f m =
      let fail : BrokerAddress = record { ip = mon.ip; port = mon.port } in
      let backup : BrokerAddress = record { ip = bip; port = bport } in
      let (calls, e) =
        copy_objects-one id_eq w.down w.linkobjs fail backup (delete_broker fail manager).store
          w.brokerobjs o s in
      (
        calls,
        e,
        subst (RecoversWith id_eq w fd front mon back manager members bip bport) e
            (failover_with front mon back manager members c url bip bport h b u others n z y l f m),
      )

-- ===== src/Services/Ballot/Created.antt =====
-- A service and its acceptors that the programs make for one and the same request.
use qpidrecovery.Broker.Info.{Object}
use qpidrecovery.Base.{
  ℕ, ◌*◌, ◌^◌, ◌<◌, ◌≤◌, ◌≡◌, refl, ap, ◌∙◌, Bool, Option, some, List, [], ◌∷◌, ◌++◌, All, length,
  arith,
}
use qpidrecovery.Text.{Str, str_eq}
use qpidrecovery.Common.{ParticipateRequest}
use qpidrecovery.Address.{url_to_ip_port}
use qpidrecovery.Paxos.Proposal.{max_acceptors, new_recovery, new_acceptor_change}
use qpidrecovery.Paxos.Message.{Fd, Effect}
use qpidrecovery.Paxos.Proposer.{new_proposer, head_fd, tail_fds}
use qpidrecovery.Paxos.Ballot.{answering, opened}
use qpidrecovery.Heartbeat.{new_heartbeat_client}
use qpidrecovery.Acceptors.{AcceptorName}
use qpidrecovery.Acceptors.Hosted.{
  hosted, ltb_le, AllNamed, hosted-AllFree, answering-hosted, length-hosted, opened-new_proposer,
}
use qpidrecovery.Recovery.Brokers.{Manager}
use qpidrecovery.Services.{Monitored, World}
use qpidrecovery.Services.Create.{erase_service, create_proposer, put_proposer}
use qpidrecovery.Services.Loop.Served.{
  Unused, IsServed, IsServed-erase_service, erase_service-Unused, str_eq_flip,
}
use qpidrecovery.Services.Ballot.Delivery.{IsOther}
use qpidrecovery.Services.Ballot.Recovered.{RecoversOnce, failover_lem}

-- The service that createProposer adds.
abbrev pub created : ℕ → List Fd → ParticipateRequest → Str → Monitored
created now answers r from = record {
  psm =
      (new_proposer now r.name r.votingversion
        (new_acceptor_change r.committedversion r.count r.acceptor) (tail_fds answers)).0;
  hbc = some (new_heartbeat_client now from (head_fd answers));
  name = r.name;
  ip = from;
  port = r.brokerport;
  informlist = [];
}

Unused-IsOther : (n : Str) (xs : List Monitored) → IsServed xs → Unused n xs → All (IsOther n) xs
Unused-IsOther n [] h k = tt
Unused-IsOther n (x ∷ xs) h k =
    (ap (str_eq n) h.0 ∙ str_eq_flip x.name n k.0, Unused-IsOther n xs h.2 k.1)

created_last :
    (now : ℕ) (answers : List Fd) (r : ParticipateRequest) (from : Str) (monitor : List Monitored)
    → r.count ≤ max_acceptors
    → (es : List Effect) × (create_proposer now answers r from monitor
        ≡ some (erase_service r.name monitor ++ (created now answers r from ∷ []), es))
unfolding create_proposer put_proposer new_proposer
created_last now answers r from monitor b =
    ((put_proposer now answers r from monitor).1, rw (ltb_le r.count max_acceptors b) refl)

-- If createProposer gets a request with at most MAX_ACCEPTORS acceptors, where no two services have one
-- name and each has a state machine of its own name, and more than half of the acceptors are among
-- those that it connects to and have a state machine that createAcceptor made for the same request,
-- next to those of other names, then it adds the service as the last one, and if this loses its
-- heartbeat, with a backup of a valid url that shows exactly one broker object and a score below 2^31,
-- the recovery goes through, whichever other connections fail: the objects of the broker are copied
-- exactly once, to the backup, and the service follows the backup.
pub created_failover :
    {ObjectId : Type 0} (id_eq : ObjectId → ObjectId → Bool) (w : World ObjectId) (fd now : ℕ)
    (answers : List Fd) (r : ParticipateRequest) (from : Str) (monitor : List Monitored)
    (manager : Manager ObjectId) (hosts : List (Option (List AcceptorName))) (url bip : Str)
    (bport : ℕ) (o : Object ObjectId)
    → IsServed monitor
    → AllNamed hosts
    → r.count ≤ max_acceptors
    → length hosts ≤ opened r.count (tail_fds answers)
    → r.count < answering hosts * 2
    → w.backup ≡ some url
    → url_to_ip_port url ≡ some (bip, bport)
    → w.brokerobjs ≡ o ∷ []
    → w.score < 2 ^ 31
    → let front = erase_service r.name monitor in
      let x = created now answers r from in
      ((es : List Effect) × (create_proposer now answers r from monitor
          ≡ some (front ++ (x ∷ []), es)))
      × RecoversOnce id_eq w fd front x [] manager (hosted now r hosts) bip bport
unfolding create_proposer put_proposer new_proposer new_acceptor_change new_recovery
created_failover id_eq w fd now answers r from monitor manager hosts url bip bport o h k b l m u v s
      score =
    let front = erase_service r.name monitor in
    let x = created now answers r from in
    let p = new_recovery x.psm.version from r.brokerport bip bport w.score in
    let n = answering-hosted now r hosts b k in
    let e = length-hosted now r hosts in
    let slots =
      opened-new_proposer now r.name r.votingversion
        (new_acceptor_change r.committedversion r.count r.acceptor) (tail_fds answers) b in
    (
      created_last now answers r from monitor b,
      failover_lem id_eq w fd front x [] manager (hosted now r hosts)
          (new_heartbeat_client now from (head_fd answers)) url bip bport o refl u v s
          (Unused-IsOther r.name front (IsServed-erase_service r.name monitor h)
            (erase_service-Unused r.name monitor h))
          b refl refl (omega (arith, e, slots))
          (hosted-AllFree now r hosts x.psm p b k refl refl score) (omega (arith, n)),
    )

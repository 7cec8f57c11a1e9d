-- ===== src/Services/Start/Alone.antt =====
-- The recovery of a broker of the subnet, from the start of the proposer program on.
use qpidrecovery.Recovery.Copy.{Action, copy_objects}
use qpidrecovery.Broker.Info.{Object}
use qpidrecovery.Base.{
  ℕ, suc, ◌≡◌, refl, ap, ◌∙◌, Bool, true, some, List, [], ◌∷◌, All, map, length, arith,
}
use qpidrecovery.Text.{Str}
use qpidrecovery.Address.{BrokerAddress, url_to_ip_port}
use qpidrecovery.Paxos.Proposal.{new_recovery, new_acceptor_change}
use qpidrecovery.Paxos.Message.{Fd, PaxosState}
use qpidrecovery.Paxos.Proposer.{new_proposer, head_fd}
use qpidrecovery.Heartbeat.{new_heartbeat_client}
use qpidrecovery.Recovery.Brokers.{Manager, delete_broker, after_copy}
use qpidrecovery.Services.{World, Done, start_recovery}
use qpidrecovery.Services.Copied.{has_copied, has_copied-among}
use qpidrecovery.Services.Failover.{start_recovery_alone}
use qpidrecovery.Services.Ballot.Created.{created}
use qpidrecovery.Services.Start.{subnet_requests}
use qpidrecovery.Services.Start.Subnet.{IsUrl, url_of, request_for, subnet_loop_lem}

length-map : (brokers : List BrokerAddress) → length (map url_of brokers) ≡ length brokers
length-map [] = refl
length-map (b ∷ brokers) = ap suc (length-map brokers)

-- If the file of the subnet has the urls of some brokers, all with hosts without a colon and with
-- ports below 2^32, and every request is written, the program requests exactly one service for each
-- broker, in order, each without acceptors; and such a service, if it loses its heartbeat and a backup
-- with a valid url is there, which shows exactly one broker object, is recovered at once, without a
-- message: the objects are copied, it follows the backup, and the recovery is its last commit; the
-- manager has forgotten the broker, and the events of the links to hosts that are down wait.
pub subnet_recovered :
    {ObjectId : Type 0} (id_eq : ObjectId → ObjectId → Bool) (w : World ObjectId) (now : ℕ)
    (answers : List Fd) (manager : Manager ObjectId) (written : ℕ → Bool)
    (brokers : List BrokerAddress) (a : BrokerAddress) (url bip : Str) (bport : ℕ)
    (o : Object ObjectId)
    → ((j : ℕ) → written j ≡ true)
    → All IsUrl brokers
    → w.backup ≡ some url
    → url_to_ip_port url ≡ some (bip, bport)
    → w.brokerobjs ≡ o ∷ []
    → (subnet_requests written (record { elements = map url_of brokers; index = 0 })
        ≡ some (map request_for brokers))
      × ((calls : List (Action ObjectId)) × (d : Done ObjectId) × (copy_objects id_eq w.down
              w.brokerobjs w.linkobjs a
              (record { ip = bip; port = bport })
              (delete_broker a manager).store
            ≡ some calls)
          × (start_recovery id_eq w (created now answers (request_for a) a.ip) manager ≡ some d)
          × (has_copied d.acts ≡ true)
          × (d.mon.ip ≡ bip)
          × (d.mon.port ≡ bport)
          × (d.mon.psm.state ≡ PaxosState.phase3)
          × (d.mon.psm.lastcommit ≡ new_recovery 2 a.ip a.port bip bport w.score)
          × (d.manager ≡ after_copy (some calls) (delete_broker a manager)))
unfolding subnet_requests new_proposer new_acceptor_change
subnet_recovered id_eq w now answers manager written brokers a url bip bport o t h b u s =
    let x = created now answers (request_for a) a.ip in
    let (calls, copied, alone) =
      start_recovery_alone id_eq w x manager (new_heartbeat_client now a.ip (head_fd answers)) url
        bip bport o refl b u s refl in
    let (d, pre, post, started, acts, ip, port, hbc, state, last, known) = alone in
    (
      subnet_loop_lem (suc (length (map url_of brokers))) written 0 [] brokers t h
          (omega (arith, length-map brokers)),
      (
        calls,
        d,
        copied,
        started,
        ap has_copied acts ∙ has_copied-among pre _ _ _ post,
        ip,
        port,
        state,
        last,
        known,
      ),
    )

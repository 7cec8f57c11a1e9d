-- ===== src/Services/Start/Tests.antt =====
-- A witness for the start of the proposer program.
use qpidrecovery.Recovery.Copy.{Action, copy_objects}
use qpidrecovery.Base.{ℕ, ◌≡◌, refl, true, some, [], ◌∷◌, ◌==◌, map, arith, List}
use qpidrecovery.Text.{codes}
use qpidrecovery.Address.{BrokerAddress}
use qpidrecovery.Address.RoundTrip.{IsHost}
use qpidrecovery.Paxos.Proposal.{new_recovery}
use qpidrecovery.Paxos.Message.{PaxosState}
use qpidrecovery.Recovery.Brokers.{delete_broker, after_copy, Manager}
use qpidrecovery.Services.{Done, start_recovery}
use qpidrecovery.Services.Copied.{has_copied}
use qpidrecovery.Services.Tests.{world, backup_url, backup_object, linked}
use qpidrecovery.Services.Ballot.Created.{created}
use qpidrecovery.Services.Start.{subnet_requests}
use qpidrecovery.Services.Start.Subnet.{IsUrl, url_of, request_for}
use qpidrecovery.Services.Start.Alone.{subnet_recovered}

abbrev site : BrokerAddress
site = record { ip = codes "b"; port = 5672 }

site-IsHost : IsHost site.ip
site-IsHost = (λ e. ground (arith, e), tt)

site-IsUrl : IsUrl site
site-IsUrl = record { host = site-IsHost; port = omega arith }

abbrev site_manager : Manager ℕ
site_manager = linked (codes "b:5672")

subnet_recovered_example :
    (subnet_requests (λ j. true) (record { elements = map url_of (site ∷ site ∷ []); index = 0 })
      ≡ some (map request_for (site ∷ site ∷ [])))
    × ((calls : List (Action ℕ)) × (d : Done ℕ) × (copy_objects ◌==◌ world.down world.brokerobjs
            world.linkobjs site
            (record { ip = codes "10.0.0.2"; port = 5672 })
            (delete_broker site site_manager).store
          ≡ some calls)
        × (start_recovery ◌==◌ world
              (created 3 (some 4 ∷ []) (request_for site) site.ip)
              site_manager
            ≡ some d)
        × (has_copied d.acts ≡ true)
        × (d.mon.ip ≡ codes "10.0.0.2")
        × (d.mon.port ≡ 5672)
        × (d.mon.psm.state ≡ PaxosState.phase3)
        × (d.mon.psm.lastcommit ≡ new_recovery 2 site.ip 5672 (codes "10.0.0.2") 5672 100)
        × (d.manager ≡ after_copy (some calls) (delete_broker site site_manager)))
subnet_recovered_example =
    subnet_recovered ◌==◌ world 3 (some 4 ∷ []) site_manager (λ j. true) (site ∷ site ∷ []) site
      (codes "10.0.0.2:5672") (codes "10.0.0.2") 5672 backup_object (λ j. refl)
      (site-IsUrl, (site-IsUrl, tt)) refl backup_url refl

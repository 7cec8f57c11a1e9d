-- ===== src/Services/Loop.antt =====
-- The loop in `main` of src/proposer.cpp: one turn, for what getReadReadyFD returns.
pub mod Served
pub mod Turns
mod Tests
use qpidrecovery.Base.{
  ℕ, zero, suc, ◌+◌, ◌*◌, Bool, true, false, Option, none, some, List, [], ◌∷◌, ◌++◌, map, ltb,
  ◌==◌, if◌then◌else◌, u32,
}
use qpidrecovery.Text.{Str}
use qpidrecovery.Paxos.Message.{Effect, Fd, unregister_fd}
use qpidrecovery.Paxos.Proposer.{check_timeout}
use qpidrecovery.Recovery.Copy.{Action}
use qpidrecovery.FileSelector.{
  FileSelector, ReadyFd, ready, ready_timeout, ready_error, ready_nothing, fd_eq, reset_timeout,
  apply_effects,
}
use qpidrecovery.Heartbeat.{heartbeat_period, is_expired, Heard, hb_not_found, hb_handled, hb_lost}
use qpidrecovery.LinkDst.{
  AddressChange, LinkEffect, Reading, not_found, read_error, no_change, changed,
  read_address_change,
}
use qpidrecovery.Recovery.Brokers.{Manager, reroute}
use qpidrecovery.Services.{
  Monitored, Act, does, replied, closed, copied, queried, rerouted, World, Done, Services, acts_of,
  inform_all, preceded, start_recovery, deliver_message,
}
use qpidrecovery.Services.Create.{receive_heartbeat}
use qpidrecovery.Services.Lists.{read_proposer_list}
use qpidrecovery.Services.Host.{
  Host, Arrival, Turn, turned, link_act, on_request, on_query, on_recovery, recover_at,
}

-- The static counter after a timeout of 4 seconds.
unfoldable pub next_total : ℕ → ℕ
next_total t = if ltb 60 (u32 (t + 4)) then 0 else u32 (t + 4)

module _ {ObjectId : Type 0} where
  abbrev pub with_services : Host ObjectId → Option (Services ObjectId) → Option (Turn ObjectId)
  with_services h none = none
  with_services h (some (monitor, manager, acts)) =
      turned (record h { monitor = monitor; manager = manager }) acts

  abbrev pub reroute_acts : Option (List (Action ObjectId)) → List (Act ObjectId)
  reroute_acts none = []
  reroute_acts (some calls) = rerouted calls ∷ []

  -- What the acts do to the file selector.
  unfoldable pub selector_effects : List (Act ObjectId) → List Effect
  selector_effects [] = []
  selector_effects (does e ∷ es) = e ∷ selector_effects es
  selector_effects (replied fd name ip port ∷ es) = selector_effects es
  selector_effects (closed fd ∷ es) = selector_effects es
  selector_effects (copied fail backup calls ∷ es) = selector_effects es
  selector_effects (queried fd name ∷ es) = selector_effects es
  selector_effects (rerouted calls ∷ es) = selector_effects es

  abbrev pub with_selector :
      Host ObjectId → List (Act ObjectId) → Option FileSelector → Option (Turn ObjectId)
  with_selector h es none = none
  with_selector h es (some fs) = turned (record h { fs = fs }) es

  unfoldable pub perform : Option (Turn ObjectId) → Option (Turn ObjectId)
  perform none = none
  perform (some t) = with_selector t.host t.acts (apply_effects (selector_effects t.acts) t.host.fs)

  abbrev pub joined : Done ObjectId → Option (Services ObjectId) → Option (Services ObjectId)
  joined d none = none
  joined d (some (xs, manager, acts)) = some (d.mon ∷ xs, manager, d.acts ++ acts)

module _ {ObjectId : Type 0} (id_eq : ObjectId → ObjectId → Bool) where
  -- handlePaxosMessage: -1 if nothing could be received, and then the descriptor is unregistered.
  unfoldable pub on_message : Arrival ObjectId → ℕ → Host ObjectId → Option (Turn ObjectId)
  on_message a fd h = elim a.received [
    | none ↦ turned h (does (unregister_fd (some fd)) ∷ [])
    | some m ↦ with_services h (deliver_message id_eq a.world fd m h.monitor h.manager)
  ]

  unfoldable pub on_list : Arrival ObjectId → ℕ → Host ObjectId → Option (Turn ObjectId)
  on_list a fd h =
      let r = read_proposer_list (some fd) a.plist h.dstproposers in
      if r.found
      then turned (record h { dstproposers = r.lists }) (acts_of r.effects)
      else on_message a fd h

  -- A new address of a destination: the links to it are rerouted, if their source can be reached.
  unfoldable pub on_change :
      Arrival ObjectId
      → Str
      → ℕ
      → Str
      → ℕ
      → Str
      → ℕ
      → Host ObjectId
      → List (Act ObjectId)
      → Option (Turn ObjectId)
  on_change a sip sport oip oport nip nport h es =
      if a.world.down sip
      then turned h es
      else (let (manager, calls) =
            reroute id_eq a.pointer a.shown a.world.brokerobjs a.world.linkobjs
              (record { ip = sip; port = sport }) (record { ip = oip; port = oport })
              (record { ip = nip; port = nport }) h.manager in
          turned (record h { manager = manager }) (es ++ reroute_acts calls))

  -- What is done after readAddressChange, and before readProposerList if the entry is not found.
  unfoldable pub on_reading :
      Arrival ObjectId
      → ℕ
      → Host ObjectId
      → List AddressChange × Reading × List LinkEffect
      → Option (Turn ObjectId)
  on_reading a fd h (listening, not_found, es) = on_list a fd h
  on_reading a fd h (listening, read_error, es) =
      turned (record h { listening = listening }) (map link_act es)
  on_reading a fd h (listening, no_change, es) =
      turned (record h { listening = listening }) (map link_act es)
  on_reading a fd h (listening, changed sip sport oip oport nip nport, es) =
      on_change a sip sport oip oport nip nport (record h { listening = listening })
        (map link_act es)

  -- What is done after receiveHeartbeat.
  unfoldable pub on_heard :
      Arrival ObjectId → ℕ → Host ObjectId → List Monitored × Heard → Option (Turn ObjectId)
  on_heard a fd h (monitor, hb_not_found) =
      on_reading a fd h (read_address_change fd a.address h.listening)
  on_heard a fd h (monitor, hb_handled) = turned (record h { monitor = monitor }) []
  on_heard a fd h (monitor, hb_lost i) =
      with_services h (recover_at id_eq a.world i [] monitor h.manager)

  -- `ready >= 0`, none of the three descriptors of the program itself.
  unfoldable pub on_socket : Arrival ObjectId → ℕ → Host ObjectId → Option (Turn ObjectId)
  on_socket a fd h = on_heard a fd h (receive_heartbeat a.world.now a.whole (some fd) h.monitor)

  -- One round of the loop over the services at a timeout.
  unfoldable pub expire_client :
      World ObjectId → Manager ObjectId → Done ObjectId → Option (Done ObjectId)
  expire_client w manager d = elim d.mon.hbc [
    | none ↦ some d
    | some c ↦
        if is_expired w.now (heartbeat_period * 2) c
        then preceded d.acts (start_recovery id_eq w d.mon manager)
        else some d
  ]

  unfoldable pub tick_service :
      World ObjectId → Bool → Monitored → Manager ObjectId → Option (Done ObjectId)
  tick_service w informs x manager =
      let y = record x { psm = (check_timeout w.now 4000000 x.psm).0 } in
      let (z, es) = if informs then inform_all w y else (y, []) in
      expire_client w manager (record { mon = z; manager = manager; acts = es })

  -- The world of each service in turn.
  unfoldable pub tick_services :
      (ℕ → World ObjectId)
      → ℕ
      → Bool
      → List Monitored
      → Manager ObjectId
      → Option (Services ObjectId)
  tick_services w i informs [] manager = some ([], manager, [])
  tick_services w i informs (x ∷ xs) manager = elim (tick_service (w i) informs x manager) [
    | none ↦ none
    | some d ↦ joined d (tick_services w (suc i) informs xs d.manager)
  ]

  unfoldable pub on_timeout : (ℕ → World ObjectId) → Host ObjectId → Option (Turn ObjectId)
  on_timeout w h =
      let total = next_total h.totaltime in
      with_services (record h { totaltime = total; fs = reset_timeout 4 0 h.fs })
        (tick_services w 0 (total == 0) h.monitor h.manager)

  unfoldable pub turn :
      Arrival ObjectId → (ℕ → World ObjectId) → ReadyFd → Host ObjectId → Option (Turn ObjectId)
  turn a w ready_error h = turned h []
  turn a w ready_nothing h = turned h []
  turn a w ready_timeout h = perform (on_timeout w h)
  turn a w (ready none) h = turned h []
  turn a w (ready (some fd)) h =
      if fd_eq (some fd) h.requestsfd
      then perform (on_request a h)
      else if fd_eq (some fd) h.querysfd
      then perform (on_query a h)
      else if fd_eq (some fd) h.recoveryfd
      then perform (on_recovery id_eq a h)
      else perform (on_socket a fd h)

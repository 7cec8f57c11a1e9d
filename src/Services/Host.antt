-- ===== src/Services/Host.antt =====
-- What `main` of src/proposer.cpp keeps, and what it does with a request, a query and an event.

use qpidrecovery.Base.{
  ℕ, zero, suc, Bool, Option, none, some, List, [], ◌∷◌, ◌++◌, map, if◌then◌else◌,
}
use qpidrecovery.Text.{Str, str_eq}
use qpidrecovery.Common.{ParticipateRequest, ReplyAddress, ReplyProposer}
use qpidrecovery.Address.{url_to_ip_port}
use qpidrecovery.Broker.Types.{type_eq, obj_link}
use qpidrecovery.Broker.Info.{
  Object, AnyInfo, broker, link, exchange, queue, binding, bridge, get_link_dest_url,
}
use qpidrecovery.Paxos.Message.{PaxosMessage, Fd, register_fd, unregister_fd, close_fd}
use qpidrecovery.Paxos.Proposer.{head_fd, tail_fds}
use qpidrecovery.FileSelector.{FileSelector}
use qpidrecovery.LinkDst.{
  AddressChange, LinkEffect, query, registered, unregistered, closed, listen_address_change,
}
use qpidrecovery.Recovery.Brokers.{
  Manager, ListenerEvent, broker_disconnection, object_property, link_down_event, handle_event,
  add_broker, delete_broker,
}
use qpidrecovery.Services.{
  Monitored, Act, does, replied, copied, queried, rerouted, World, Done, Services, acts_of,
  inform_all, add_inform_list, preceded, start_recovery, deliver_message,
}
use qpidrecovery.Services
use qpidrecovery.Services.Create.{create_proposer}
use qpidrecovery.Services.Lists.{ProposerList, search_proposer_list, listen_proposer_list}

-- What `main` keeps; `totaltime` is the static counter of its timeouts.
pub record Host (ObjectId : Type 0) : Type 0 where
  pub requestsfd : Fd
  pub querysfd : Fd
  pub recoveryfd : Fd
  pub fs : FileSelector
  pub monitor : List Monitored
  pub dstproposers : List ProposerList
  pub listening : List AddressChange
  pub manager : Manager ObjectId
  pub totaltime : ℕ

-- What the calls of one turn bring: acceptRead with the address of the other end, what is read from
-- the ready descriptor in each of the formats, what tcpconnect returns to LinkDstListener, and the
-- Broker pointer and the objects of a broker that is added.
pub record Arrival (ObjectId : Type 0) : Type 0 where
  pub world : World ObjectId
  pub request : Option (ℕ × Str × ParticipateRequest)
  pub asked : Option (ℕ × ReplyAddress)
  pub whole : Bool
  pub address : Option ReplyAddress
  pub plist : Option ReplyProposer
  pub received : Option PaxosMessage
  pub pointer : ℕ
  pub shown : Str → List (Object ObjectId)

pub record Turn (ObjectId : Type 0) : Type 0 where
  pub host : Host ObjectId
  pub acts : List (Act ObjectId)

abbrev pub turned :
    {ObjectId : Type 0} → Host ObjectId → List (Act ObjectId) → Option (Turn ObjectId)
turned h es = some (record { host = h; acts = es })

-- `r.brokerip[0] != '\0'? r.brokerip: from`
abbrev pub or_from : Str → Str → Str
or_from [] from = from
or_from (c ∷ cs) from = c ∷ cs

-- The descriptors that the first `n` calls of tcpconnect return.
unfoldable pub take_answers : ℕ → List Fd → List Fd
take_answers zero answers = []
take_answers (suc n) answers = head_fd answers ∷ take_answers n (tail_fds answers)

module _ {ObjectId : Type 0} where
  abbrev pub link_act : LinkEffect → Act ObjectId
  link_act (query fd name) = queried fd name
  link_act (registered fd) = does (register_fd (some fd))
  link_act (unregistered fd) = does (unregister_fd (some fd))
  link_act (closed fd) = does (close_fd (some fd))

  unfoldable pub on_request : Arrival ObjectId → Host ObjectId → Option (Turn ObjectId)
  on_request a h = elim a.request [
    | none ↦ turned h []
    | some (newsfd, from, r) ↦
        let bip = or_from r.brokerip from in
        elim (create_proposer a.world.now a.world.answers r bip h.monitor) [
          | none ↦ none
          | some (monitor, es) ↦
              turned
                (record h {
                  monitor = monitor;
                  manager =
                      add_broker a.pointer a.shown (record { ip = bip; port = r.brokerport })
                        h.manager;
                })
                (Services.closed newsfd ∷ acts_of es)
        ]
  ]

  -- searchServiceByName, and addInformList of the service that it finds.
  unfoldable pub answer_query :
      World ObjectId → ℕ → Str → List Monitored → List Monitored × List (Act ObjectId)
  answer_query w newsfd name [] = ([], Services.closed newsfd ∷ [])
  answer_query w newsfd name (x ∷ xs) =
      let (ys, fs) = answer_query w newsfd name xs in
      if str_eq x.name name
      then (let (y, es) = add_inform_list w newsfd x in (y ∷ xs, es))
      else (x ∷ ys, fs)

  unfoldable pub on_query : Arrival ObjectId → Host ObjectId → Option (Turn ObjectId)
  on_query a h = elim a.asked [
    | none ↦ turned h []
    | some (newsfd, r) ↦
        let (monitor, es) = answer_query a.world newsfd r.name h.monitor in
        turned (record h { monitor = monitor }) es
  ]

  -- A link that went down: if its destination cannot be reached, its new address is awaited.
  unfoldable pub on_link_down :
      Arrival ObjectId → Str → ℕ → Str → ℕ → Host ObjectId → Option (Turn ObjectId)
  on_link_down a sip sport dip dport h =
      if a.world.down dip
      then (elim (search_proposer_list dip dport h.dstproposers) [
        | none ↦ turned h []
        | some p ↦
            elim (listen_address_change p.plist.name (take_answers p.plist.count a.world.answers)
              sip sport dip dport h.listening) [
                | none ↦ none
                | some (listening, r, es) ↦
                    turned (record h { listening = listening }) (map link_act es)
              ]
      ])
      else turned h []

  -- A new link: the proposers of its destination are asked for. A url without a colon is a fault, and
  -- so is the cast of another object to a link.
  unfoldable pub on_object :
      Arrival ObjectId → AnyInfo ObjectId → Host ObjectId → Option (Turn ObjectId)
  on_object a (link l) h = elim (url_to_ip_port (get_link_dest_url l)) [
    | none ↦ none
    | some (ip, port) ↦
        let (lists, es) = listen_proposer_list (head_fd a.world.answers) ip port h.dstproposers in
        turned (record h { dstproposers = lists }) (acts_of es)
  ]
  on_object a (broker x) h = none
  on_object a (exchange x) h = none
  on_object a (queue x) h = none
  on_object a (binding x) h = none
  on_object a (bridge x) h = none

  abbrev pub replaced :
      List Monitored → Option (Done ObjectId) → List Monitored → Option (Services ObjectId)
  replaced front none back = none
  replaced front (some d) back = some (front ++ (d.mon ∷ back), d.manager, d.acts)

module _ {ObjectId : Type 0} (id_eq : ObjectId → ObjectId → Bool) where
  -- What is done with an event of the recovery manager, after handleEvent.
  unfoldable pub on_event :
      Arrival ObjectId → ListenerEvent ObjectId → Host ObjectId → Option (Turn ObjectId)
  on_event a (broker_disconnection ip port) h =
      turned (record h { manager = delete_broker (record { ip = ip; port = port }) h.manager }) []
  on_event a (link_down_event sip sport dip dport fromqmf) h = on_link_down a sip sport dip dport h
  on_event a (object_property t x) h = if type_eq t obj_link then on_object a x h else turned h []

  -- `ready == recoveryfd`: there is an event in the pipe.
  unfoldable pub on_recovery : Arrival ObjectId → Host ObjectId → Option (Turn ObjectId)
  on_recovery a h = elim (handle_event id_eq h.manager) [
    | none ↦ none
    | some (e, manager) ↦ on_event a e (record h { manager = manager })
  ]

  -- `startRecovery(monitor[r], ...)`.
  unfoldable pub recover_at :
      World ObjectId
      → ℕ
      → List Monitored
      → List Monitored
      → Manager ObjectId
      → Option (Services ObjectId)
  recover_at w i front [] manager = none
  recover_at w zero front (x ∷ xs) manager = replaced front (start_recovery id_eq w x manager) xs
  recover_at w (suc i) front (x ∷ xs) manager = recover_at w i (front ++ (x ∷ [])) xs manager

-- ===== src/Recovery/Brokers.antt =====
-- The known brokers, the events and the rerouting of RecoveryManager, with src/recovery/listener.cpp.
-- A Broker pointer is a number. The event pipe is the list of events that wait in it. What a broker
-- answers to getObjects for a class name is an argument; the threads are joined, and no other
-- thread takes the lock.
pub mod Known
pub mod Reroute
pub mod Tagged
pub mod Sent
use qpidrecovery.Base.{
  ℕ, zero, suc, Bool, true, false, not, ◌&&◌, Option, none, some, List, [], ◌∷◌, ◌++◌,
  if◌then◌else◌,
}
use qpidrecovery.Text.{Str, codes, str_eq}
use qpidrecovery.Address.{BrokerAddress, ip_port_to_url, address_eq, url_to_ip_port}
use qpidrecovery.Broker.Types.{
  ObjectType, obj_broker, obj_link, obj_exchange, obj_queue, obj_binding, obj_bridge,
  object_type_to_string, object_string_to_type, type_eq,
}
use qpidrecovery.Broker.Info.{
  Object, AnyInfo, LinkInfo, new_object_info_by_type, class_type, duplicate, get_link_dest_url,
}
use qpidrecovery.Broker.Operator.{copy_to_new_dest}
use qpidrecovery.Recovery.Store.{Store, empty_store, add_object_info}
use qpidrecovery.Recovery.Copy.{
  Action, on_broker, on_link, link_down, broker_call, copy_bridges, redirect,
}

pub data ListenerEvent (ObjectId : Type 0) : Type 0 where
  broker_disconnection : Str → ℕ → ListenerEvent ObjectId
  object_property : ObjectType → AnyInfo ObjectId → ListenerEvent ObjectId
  link_down_event : Str → ℕ → Str → ℕ → Bool → ListenerEvent ObjectId

pub record BrokerAddressPair : Type 0 where
  pub address : BrokerAddress
  pub pointer : ℕ

pub record Manager (ObjectId : Type 0) : Type 0 where
  pub store : Store ObjectId
  pub bavec : List BrokerAddressPair
  pub pipe : List (ListenerEvent ObjectId)

-- The types below NUMBER_OF_OBJ_TYPES.
abbrev pub all_types : List ObjectType
all_types = obj_broker ∷ obj_link ∷ obj_exchange ∷ obj_queue ∷ obj_binding ∷ obj_bridge ∷ []

-- getBrokerIndexByAddress; `none` is -1.
unfoldable pub get_broker_index : BrokerAddress → List BrokerAddressPair → Option ℕ
get_broker_index ba [] = none
get_broker_index ba (x ∷ xs) =
    if address_eq x.address ba
    then some 0
    else (elim (get_broker_index ba xs) [ none ↦ none | some i ↦ some (suc i) ])

unfoldable pub erase : ℕ → List BrokerAddressPair → List BrokerAddressPair
erase i [] = []
erase zero (x ∷ xs) = xs
erase (suc i) (x ∷ xs) = x ∷ erase i xs

unfoldable pub pointer_at : ℕ → List BrokerAddressPair → Option ℕ
pointer_at i [] = none
pointer_at zero (x ∷ xs) = some x.pointer
pointer_at (suc i) (x ∷ xs) = pointer_at i xs

module _ {ObjectId : Type 0} where
  unfoldable pub new_manager : Manager ObjectId
  new_manager = record { store = empty_store; bavec = []; pipe = [] }

  -- Listener::brokerDisconnected, and sendLinkDownEvent: a url without a colon is a fault.
  unfoldable pub broker_disconnected : Str → Manager ObjectId → Option (Manager ObjectId)
  broker_disconnected url m = elim (url_to_ip_port url) [
    | none ↦ none
    | some (ip, port) ↦ some (record m { pipe = m.pipe ++ (broker_disconnection ip port ∷ []) })
  ]

  unfoldable pub send_link_down_event :
      Str → Str → Bool → Manager ObjectId → Option (Manager ObjectId)
  send_link_down_event srcurl dsturl fromqmf m = elim (url_to_ip_port srcurl) [
    | none ↦ none
    | some (sip, sport) ↦ elim (url_to_ip_port dsturl) [
      | none ↦ none
      | some (dip, dport) ↦
          some (record m { pipe = m.pipe ++ (link_down_event sip sport dip dport fromqmf ∷ []) })
    ]
  ]

  abbrev pub kept_after : Manager ObjectId → Option (Manager ObjectId) → Manager ObjectId
  kept_after m none = m
  kept_after m (some n) = n

  -- What the events that copyObjects sends leave of the manager, in whose pipe they wait. (The urls of
  -- such an event are printed from an address, so that they have a colon and it is always sent:
  -- Brokers.Sent.)
  unfoldable pub send_copied : List (Action ObjectId) → Manager ObjectId → Manager ObjectId
  send_copied [] m = m
  send_copied (on_broker i ∷ es) m = send_copied es m
  send_copied (on_link o i ∷ es) m = send_copied es m
  send_copied (link_down src dst fromqmf ∷ es) m =
      send_copied es (kept_after m (send_link_down_event src dst fromqmf m))

  abbrev pub after_copy : Option (List (Action ObjectId)) → Manager ObjectId → Manager ObjectId
  after_copy none m = m
  after_copy (some es) m = send_copied es m

  -- Listener::event, for the class of the event, the url of its broker and its attribute "rhost".
  unfoldable pub event : Str → Str → Str → Manager ObjectId → Option (Manager ObjectId)
  event classname brokerurl rhost m =
      if str_eq classname (codes "brokerLinkDown")
      then send_link_down_event brokerurl rhost true m
      else some m

  -- Listener::objectProps: an object of an unknown class sends nothing.
  unfoldable pub object_props : Object ObjectId → List (ListenerEvent ObjectId)
  object_props o =
      let t = object_string_to_type o.class_name in
      elim (new_object_info_by_type o t) [ none ↦ [] | some x ↦ object_property t x ∷ [] ]

  unfoldable pub report_all : List (Object ObjectId) → List (ListenerEvent ObjectId)
  report_all [] = []
  report_all (o ∷ os) = object_props o ++ report_all os

  -- The loop of addBrokerThread over the types, in the order of the enumeration.
  unfoldable pub report_types :
      (Str → List (Object ObjectId)) → List ObjectType → List (ListenerEvent ObjectId)
  report_types answers [] = []
  report_types answers (t ∷ ts) =
      report_all (answers (object_type_to_string t)) ++ report_types answers ts

  unfoldable pub add_broker_thread :
      ℕ → (Str → List (Object ObjectId)) → BrokerAddress → Manager ObjectId → Manager ObjectId
  add_broker_thread pointer answers ba m = record m {
    bavec = m.bavec ++ (record { address = ba; pointer = pointer } ∷ []);
    pipe = m.pipe ++ report_types answers all_types;
  }

  unfoldable pub add_broker :
      ℕ → (Str → List (Object ObjectId)) → BrokerAddress → Manager ObjectId → Manager ObjectId
  add_broker pointer answers ba m = elim (get_broker_index ba m.bavec) [
    | some i ↦ m
    | none ↦ add_broker_thread pointer answers ba m
  ]

  unfoldable pub delete_broker : BrokerAddress → Manager ObjectId → Manager ObjectId
  delete_broker ba m = elim (get_broker_index ba m.bavec) [
    | none ↦ m
    | some i ↦ record m { bavec = erase i m.bavec }
  ]

  -- The search of reroute for the link that is replaced.
  unfoldable pub find_route : Str → Str → List (LinkInfo ObjectId) → Option (LinkInfo ObjectId)
  find_route srcurl oldurl [] = none
  find_route srcurl oldurl (l ∷ ls) =
      if str_eq srcurl l.info.brokerurl && str_eq oldurl (get_link_dest_url l)
      then some l
      else find_route srcurl oldurl ls

abbrev pub when_any : {A B : Type 0} → List A → B → Option B
when_any [] b = none
when_any (x ∷ xs) b = some b

module _ {ObjectId : Type 0} (id_eq : ObjectId → ObjectId → Bool) where
  -- The object of an event is duplicated and recorded; other events change nothing. An object of
  -- another class than its type says would be cast wrongly: `none`.
  unfoldable pub record_event : ListenerEvent ObjectId → Store ObjectId → Option (Store ObjectId)
  record_event (object_property t x) s =
      if type_eq t (class_type x) then some (add_object_info id_eq (duplicate x) s).0 else none
  record_event (broker_disconnection ip port) s = some s
  record_event (link_down_event sip sport dip dport fromqmf) s = some s

  -- handleEvent, on the first event in the pipe. (It is called when there is one.)
  unfoldable pub handle_event :
      Manager ObjectId → Option (ListenerEvent ObjectId × Manager ObjectId)
  handle_event m = elim m.pipe [
    | [] ↦ none
    | e ∷ rest ↦ elim (record_event e m.store) [
      | none ↦ none
      | some s ↦ some (e, record m { pipe = rest; store = s })
    ]
  ]

  -- What follows in reroute when the link is found: the calls on the source broker, if it shows a
  -- broker object; else an empty vector is indexed.
  unfoldable pub reroute_calls :
      List (Object ObjectId)
      → List (Object ObjectId)
      → Str
      → Str
      → BrokerAddress
      → LinkInfo ObjectId
      → Store ObjectId
      → Option (List (Action ObjectId))
  reroute_calls brokerobjs linkobjs srcurl oldurl new l s = when_any brokerobjs (
      broker_call (copy_to_new_dest l new.ip new.port)
      ++ copy_bridges id_eq s.links s.bridges linkobjs srcurl srcurl
          (redirect oldurl (ip_port_to_url new.ip new.port)))

  -- The manager after addBroker, and the calls; `none` in the second place is -1 or a fault.
  unfoldable pub reroute :
      ℕ
      → (Str → List (Object ObjectId))
      → List (Object ObjectId)
      → List (Object ObjectId)
      → BrokerAddress
      → BrokerAddress
      → BrokerAddress
      → Manager ObjectId
      → Manager ObjectId × Option (List (Action ObjectId))
  reroute pointer answers brokerobjs linkobjs src old new m =
      let n = add_broker pointer answers src m in
      let srcurl = ip_port_to_url src.ip src.port in
      let oldurl = ip_port_to_url old.ip old.port in
      (
        n,
        elim (find_route srcurl oldurl n.store.links) [
          | none ↦ none
          | some l ↦ elim (get_broker_index src n.bavec) [
            | none ↦ none
            | some i ↦ reroute_calls brokerobjs linkobjs srcurl oldurl new l n.store
          ]
        ],
      )

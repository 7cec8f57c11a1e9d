-- ===== src/Recovery/Tests.antt =====
-- Runs and witnesses for the recovery manager, with numbers for the identifiers.
use mathlib.Core.List.{Memᴰ}
use qpidrecovery.Base.{
  ℕ, ◌≡◌, refl, true, false, not, ◌&&◌, ◌||◌, some, List, [], ◌∷◌, ◌++◌, ◌==◌, ==_iff,
  if◌then◌else◌,
}
use qpidrecovery.Text.{Str, codes, str_eq, strcmp}
use qpidrecovery.Address.{
  unsigned_to_string, digits, BrokerAddress, ip_port_to_url, get_address, address_eq,
}
use qpidrecovery.Broker.Types.{
  obj_queue, obj_exchange, obj_binding, obj_link, obj_bridge, obj_broker, type_eq,
  object_string_to_type, type_of,
}
use qpidrecovery.Broker.Info.{
  Object, ExchangeInfo, QueueInfo, BindingInfo, LinkInfo, BridgeInfo, AnyInfo, queue, link,
  new_link_info, new_object_info_by_type, has_key, find_queue, find_exchange, set_binding_names,
  link_object_dest, get_link_dest_url,
}
use qpidrecovery.Broker.Operator.{
  Invocation, add_link, add_bridge, copy_bridge, copy_to_new_dest, copy_exchange, copy_queue,
  copy_binding,
}
use qpidrecovery.Recovery.Ignored.{any_matches, matches, is_ignored_name}
use qpidrecovery.Recovery.Store.{Store, empty_store, add_object_info}
use qpidrecovery.Recovery.Store.Lookup.{
  lookup, kind_of, info_of, is_skipped, lookup-add_object_info,
}
use qpidrecovery.Recovery.Store.Names.{IsShown}
use qpidrecovery.Recovery.Copy.{
  Action, on_broker, broker_call, link_call, copy_round, find_link, find_link_object,
  bridge_actions, copy_bridges, copy_objects,
}
use qpidrecovery.Recovery.Copy.Bindings.{Performs, binding_recovered, IsObject}
use qpidrecovery.Recovery.Brokers.{
  Manager, get_broker_index, find_route, reroute_calls, add_broker, delete_broker, reroute,
  ListenerEvent, object_property, new_manager, handle_event, object_props,
}
use qpidrecovery.Recovery.Brokers.Known.{knows, Distinct, brokers_known}
use qpidrecovery.Recovery.Brokers.Tagged.History.{
  Call, shown, deleted, run_calls, call, handle_event-cast,
}
use qpidrecovery.Recovery.Brokers.Reroute.{IsRerouted, reroute_lem}

abbrev site : BrokerAddress
site = record { ip = codes "10.0.0.1"; port = 5672 }

abbrev spare : BrokerAddress
spare = record { ip = codes "10.0.0.2"; port = 5672 }

abbrev far : BrokerAddress
far = record { ip = codes "10.0.0.3"; port = 5672 }

abbrev queue_info : QueueInfo ℕ
queue_info = record {
  info = record { type = obj_queue; objectid = 1; brokerurl = codes "10.0.0.1:5672" };
  name = codes "jobs";
  deqcount = 0;
  depth = 0;
}

abbrev exchange_info : ExchangeInfo ℕ
exchange_info = record {
  info = record { type = obj_exchange; objectid = 2; brokerurl = codes "10.0.0.1:5672" };
  name = codes "news";
  extype = codes "topic";
}

abbrev binding_info : BindingInfo ℕ
binding_info = record {
  info = record { type = obj_binding; objectid = 3; brokerurl = codes "10.0.0.1:5672" };
  exid = 2;
  quid = 1;
  bindingkey = codes "k";
  exname = [];
  quname = [];
}

abbrev link_info : LinkInfo ℕ
link_info = record {
  info = record { type = obj_link; objectid = 4; brokerurl = codes "10.0.0.1:5672" };
  host = codes "10.0.0.2";
  port = 5672;
}

abbrev bridge_info : BridgeInfo ℕ
bridge_info = record {
  info = record { type = obj_bridge; objectid = 5; brokerurl = codes "10.0.0.1:5672" };
  linkid = 4;
  src = codes "news";
  dest = codes "news";
  routingkey = codes "k";
  isqueue = false;
  isdynamic = false;
}

abbrev recorded : Store ℕ
recorded = record {
  exchanges = exchange_info ∷ [];
  queues = queue_info ∷ [];
  bindings = binding_info ∷ [];
  brokers = [];
  links = link_info ∷ [];
  bridges = bridge_info ∷ [];
}

-- A link object of the broker at `site` that leads to `far`.
abbrev link_object : Object ℕ
link_object = record {
  object_id = 9;
  broker_url = codes "10.0.0.1:5672";
  class_name = codes "link";
  attr_string = λ s. codes "10.0.0.3";
  attr_uint = λ s. 5672;
  attr_bool = λ s. false;
  attr_ref = λ s. 0;
}

abbrev no_answer : Str → List (Object ℕ)
no_answer s = []

abbrev manager : Manager ℕ
manager = record {
  store = recorded;
  bavec = record { address = site; pointer = 7 } ∷ [];
  pipe = [];
}

lookup-add_object_info_example :
    lookup ◌==◌ obj_queue 1
      (codes "10.0.0.1:5672")
      (add_object_info ◌==◌ (queue queue_info) recorded).0
    ≡ (if not (is_skipped (queue queue_info))
          && (type_eq obj_queue (kind_of (queue queue_info))
              && has_key ◌==◌ 1 (codes "10.0.0.1:5672") (info_of (queue queue_info)))
        then some (queue queue_info)
        else lookup ◌==◌ obj_queue 1 (codes "10.0.0.1:5672") recorded)
lookup-add_object_info_example =
    lookup-add_object_info ◌==◌ ==_iff obj_queue 1 (codes "10.0.0.1:5672") (queue queue_info)
      recorded

recorded-IsShown : IsShown recorded
unfolding is_ignored_name any_matches matches
recorded-IsShown = record { exchanges = (refl, tt); queues = (refl, tt) }

abbrev named : BindingInfo ℕ
named = record binding_info { exname = codes "news"; quname = codes "jobs" }

named_lem : set_binding_names ◌==◌ recorded.exchanges recorded.queues binding_info ≡ (named, true)
unfolding set_binding_names find_queue find_exchange has_key str_eq strcmp
named_lem = refl

site_url : codes "10.0.0.1:5672" ≡ get_address site
unfolding get_address unsigned_to_string digits
site_url = refl

binding_recovered_example :
    (pre : List (Action ℕ)) × (post : List (Action ℕ)) × (e : ExchangeInfo ℕ) × (q : QueueInfo ℕ)
    × (copy_objects ◌==◌ (λ s. false) (link_object ∷ []) [] site spare recorded
        ≡ some (pre ++ post))
    × Memᴰ e recorded.exchanges
    × IsObject ◌==◌ binding_info.exid (get_address site) e.info
    × Memᴰ q recorded.queues
    × IsObject ◌==◌ binding_info.quid (get_address site) q.info
    × (named ≡ record binding_info { exname = e.name; quname = q.name })
    × Performs pre (copy_exchange e)
    × Performs pre (copy_queue q)
    × Performs post (copy_binding named)
    × (is_ignored_name e.name ≡ false)
    × (is_ignored_name q.name ≡ false)
binding_recovered_example =
    binding_recovered ◌==◌ (λ s. false) link_object [] site spare recorded binding_info named
      recorded-IsShown (Memᴰ.head refl) site_url named_lem

brokers_known_example :
    Distinct (add_broker 8 no_answer site manager).bavec
    × ((b : BrokerAddress)
        → knows b (add_broker 8 no_answer site manager).bavec
          ≡ (knows b manager.bavec || address_eq site b))
    × Distinct (delete_broker site manager).bavec
    × ((b : BrokerAddress)
        → knows b (delete_broker site manager).bavec
          ≡ (knows b manager.bavec && not (address_eq site b)))
unfolding get_broker_index
brokers_known_example = brokers_known 8 no_answer site manager (refl, tt)

-- A broker that shows a link is added, and its event waits.
abbrev adding : List (Call ℕ)
adding = shown link_object ∷ deleted site ∷ []

abbrev added_link : ListenerEvent ℕ
added_link = object_property obj_link (link (new_link_info link_object))

abbrev waiting : Manager ℕ
waiting = record { store = empty_store; bavec = []; pipe = added_link ∷ [] }

adding_lem : run_calls ◌==◌ adding new_manager ≡ some waiting
unfolding run_calls call delete_broker get_broker_index new_manager object_props
    new_object_info_by_type object_string_to_type type_of str_eq strcmp
adding_lem = refl

handle_event-cast_example :
    ((n : Manager ℕ) × (handle_event ◌==◌ waiting ≡ some (added_link, n)) × (n.pipe ≡ []))
    × ((x : AnyInfo ℕ) → added_link ≡ object_property obj_link x → (l : LinkInfo ℕ) × (x ≡ link l))
handle_event-cast_example = handle_event-cast ◌==◌ adding waiting added_link [] adding_lem refl

abbrev rerouting : List (Action ℕ)
rerouting =
    broker_call (copy_to_new_dest link_info far.ip far.port)
    ++ link_call link_object (copy_bridge bridge_info)

rerouting_lem :
    (reroute ◌==◌ 8 no_answer (link_object ∷ []) (link_object ∷ []) site spare far manager).1
    ≡ some rerouting
unfolding reroute reroute_calls find_route add_broker get_broker_index address_eq str_eq strcmp
    ip_port_to_url unsigned_to_string digits get_link_dest_url link_object_dest copy_bridges
    bridge_actions copy_round find_link find_link_object has_key copy_bridge add_bridge
rerouting_lem = refl

reroute_lem_example :
    (i : Invocation) × (later : List (Action ℕ)) × (add_link obj_broker far.ip far.port ≡ some i)
    × (rerouting ≡ on_broker i ∷ later)
    × ((c : Action ℕ)
        → Memᴰ c later
        → IsRerouted ◌==◌
            (ip_port_to_url site.ip site.port)
            (ip_port_to_url spare.ip spare.port)
            (ip_port_to_url far.ip far.port)
            manager.store.links
            manager.store.bridges
            c)
reroute_lem_example =
    reroute_lem ◌==◌ 8 no_answer (link_object ∷ []) (link_object ∷ []) site spare far manager
      rerouting rerouting_lem

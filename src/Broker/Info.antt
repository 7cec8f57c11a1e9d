-- ===== src/Broker/Info.antt =====
-- class ObjectInfo and its subclasses. `ObjectId` is the broker library's ObjectId. What an Object of
-- that library answers to its accessors is a record; the cast that picks a subclass is a
-- constructor here.
use qpidrecovery.Base.{
  ℕ, Bool, true, false, ◌&&◌, Option, none, some, List, [], ◌∷◌, ◌++◌, if◌then◌else◌,
}
use qpidrecovery.Text.{Str, codes, str_eq}
use qpidrecovery.Address.{unsigned_to_string}
use qpidrecovery.Broker.Types.{
  ObjectType, obj_broker, obj_link, obj_exchange, obj_queue, obj_binding, obj_bridge,
}

pub record Object (ObjectId : Type 0) : Type 0 where
  pub object_id : ObjectId
  pub broker_url : Str
  pub class_name : Str
  pub attr_string : Str → Str
  pub attr_uint : Str → ℕ
  pub attr_bool : Str → Bool
  pub attr_ref : Str → ObjectId

pub record ObjectInfo (ObjectId : Type 0) : Type 0 where
  pub type : ObjectType
  pub objectid : ObjectId
  pub brokerurl : Str

pub record BrokerInfo (ObjectId : Type 0) : Type 0 where
  pub info : ObjectInfo ObjectId

pub record LinkInfo (ObjectId : Type 0) : Type 0 where
  pub info : ObjectInfo ObjectId
  pub host : Str
  pub port : ℕ

pub record ExchangeInfo (ObjectId : Type 0) : Type 0 where
  pub info : ObjectInfo ObjectId
  pub name : Str
  pub extype : Str

pub record QueueInfo (ObjectId : Type 0) : Type 0 where
  pub info : ObjectInfo ObjectId
  pub name : Str
  pub deqcount : ℕ
  pub depth : ℕ

pub record BindingInfo (ObjectId : Type 0) : Type 0 where
  pub info : ObjectInfo ObjectId
  pub exid : ObjectId
  pub quid : ObjectId
  pub bindingkey : Str
  pub exname : Str
  pub quname : Str

pub record BridgeInfo (ObjectId : Type 0) : Type 0 where
  pub info : ObjectInfo ObjectId
  pub linkid : ObjectId
  pub src : Str
  pub dest : Str
  pub routingkey : Str
  pub isqueue : Bool
  pub isdynamic : Bool

pub data AnyInfo (ObjectId : Type 0) : Type 0 where
  broker : BrokerInfo ObjectId → AnyInfo ObjectId
  link : LinkInfo ObjectId → AnyInfo ObjectId
  exchange : ExchangeInfo ObjectId → AnyInfo ObjectId
  queue : QueueInfo ObjectId → AnyInfo ObjectId
  binding : BindingInfo ObjectId → AnyInfo ObjectId
  bridge : BridgeInfo ObjectId → AnyInfo ObjectId

module _ {ObjectId : Type 0} where
  unfoldable pub new_info : Object ObjectId → ObjectType → ObjectInfo ObjectId
  new_info obj ty = record { type = ty; objectid = obj.object_id; brokerurl = obj.broker_url }

  unfoldable pub new_broker_info : Object ObjectId → BrokerInfo ObjectId
  new_broker_info obj = record { info = new_info obj obj_broker }

  unfoldable pub new_link_info : Object ObjectId → LinkInfo ObjectId
  new_link_info obj = record {
    info = new_info obj obj_link;
    host = obj.attr_string (codes "host");
    port = obj.attr_uint (codes "port");
  }

  unfoldable pub new_exchange_info : Object ObjectId → ExchangeInfo ObjectId
  new_exchange_info obj = record {
    info = new_info obj obj_exchange;
    name = obj.attr_string (codes "name");
    extype = obj.attr_string (codes "type");
  }

  unfoldable pub new_queue_info : Object ObjectId → QueueInfo ObjectId
  new_queue_info obj = record {
    info = new_info obj obj_queue;
    name = obj.attr_string (codes "name");
    deqcount = 0;
    depth = 0;
  }

  unfoldable pub new_binding_info : Object ObjectId → BindingInfo ObjectId
  new_binding_info obj = record {
    info = new_info obj obj_binding;
    exid = obj.attr_ref (codes "exchangeRef");
    quid = obj.attr_ref (codes "queueRef");
    bindingkey = obj.attr_string (codes "bindingKey");
    exname = [];
    quname = [];
  }

  unfoldable pub new_bridge_info : Object ObjectId → BridgeInfo ObjectId
  new_bridge_info obj = record {
    info = new_info obj obj_bridge;
    linkid = obj.attr_ref (codes "linkRef");
    src = obj.attr_string (codes "src");
    dest = obj.attr_string (codes "dest");
    routingkey = obj.attr_string (codes "key");
    isqueue = obj.attr_bool (codes "srcIsQueue");
    isdynamic = obj.attr_bool (codes "dynamic");
  }

  -- `none` is the null pointer.
  unfoldable pub new_object_info_by_type : Object ObjectId → ObjectType → Option (AnyInfo ObjectId)
  new_object_info_by_type obj obj_broker = some (broker (new_broker_info obj))
  new_object_info_by_type obj obj_link = some (link (new_link_info obj))
  new_object_info_by_type obj obj_exchange = some (exchange (new_exchange_info obj))
  new_object_info_by_type obj obj_queue = some (queue (new_queue_info obj))
  new_object_info_by_type obj obj_binding = some (binding (new_binding_info obj))
  new_object_info_by_type obj obj_bridge = some (bridge (new_bridge_info obj))
  new_object_info_by_type obj _ = none

  -- The type of a subclass.
  abbrev pub class_type : AnyInfo ObjectId → ObjectType
  class_type (broker x) = obj_broker
  class_type (link x) = obj_link
  class_type (exchange x) = obj_exchange
  class_type (queue x) = obj_queue
  class_type (binding x) = obj_binding
  class_type (bridge x) = obj_bridge

  -- The copy constructors. All but that of QueueInfo copy every field.
  unfoldable pub duplicate_queue : QueueInfo ObjectId → QueueInfo ObjectId
  duplicate_queue q = record { info = q.info; name = q.name; deqcount = 0; depth = 0 }

  unfoldable pub duplicate_link : LinkInfo ObjectId → LinkInfo ObjectId
  duplicate_link l = record { info = l.info; host = l.host; port = l.port }

  unfoldable pub duplicate_exchange : ExchangeInfo ObjectId → ExchangeInfo ObjectId
  duplicate_exchange e = record { info = e.info; name = e.name; extype = e.extype }

  unfoldable pub duplicate_broker : BrokerInfo ObjectId → BrokerInfo ObjectId
  duplicate_broker b = record { info = b.info }

  unfoldable pub duplicate_binding : BindingInfo ObjectId → BindingInfo ObjectId
  duplicate_binding b = record {
    info = b.info;
    exid = b.exid;
    quid = b.quid;
    bindingkey = b.bindingkey;
    exname = b.exname;
    quname = b.quname;
  }

  unfoldable pub duplicate_bridge : BridgeInfo ObjectId → BridgeInfo ObjectId
  duplicate_bridge b = record {
    info = b.info;
    linkid = b.linkid;
    src = b.src;
    dest = b.dest;
    routingkey = b.routingkey;
    isqueue = b.isqueue;
    isdynamic = b.isdynamic;
  }

  unfoldable pub duplicate : AnyInfo ObjectId → AnyInfo ObjectId
  duplicate (broker b) = broker (duplicate_broker b)
  duplicate (link l) = link (duplicate_link l)
  duplicate (exchange e) = exchange (duplicate_exchange e)
  duplicate (queue q) = queue (duplicate_queue q)
  duplicate (binding b) = binding (duplicate_binding b)
  duplicate (bridge b) = bridge (duplicate_bridge b)

  -- The new queue, and the old count and depth that the references receive.
  unfoldable pub set_queue_stat : ℕ → ℕ → QueueInfo ObjectId → QueueInfo ObjectId × ℕ × ℕ
  set_queue_stat count dep q = (record q { deqcount = count; depth = dep }, q.deqcount, q.depth)

  unfoldable pub get_link_dest_url : LinkInfo ObjectId → Str
  get_link_dest_url l = l.host ++ (b':' ∷ unsigned_to_string l.port)

  -- linkObjectDest, of an Object of the broker.
  unfoldable pub link_object_dest : Object ObjectId → Str
  link_object_dest o =
      o.attr_string (codes "host") ++ (b':' ∷ unsigned_to_string (o.attr_uint (codes "port")))

-- What compares identifiers: operator== of ObjectId.
module _ {ObjectId : Type 0} (id_eq : ObjectId → ObjectId → Bool) where
  unfoldable pub has_key : ObjectId → Str → ObjectInfo ObjectId → Bool
  has_key oid url o = id_eq o.objectid oid && str_eq o.brokerurl url

  unfoldable pub info_eq : ObjectInfo ObjectId → ObjectInfo ObjectId → Bool
  info_eq a b = id_eq a.objectid b.objectid && str_eq a.brokerurl b.brokerurl

  unfoldable pub find_exchange :
      ObjectId → Str → List (ExchangeInfo ObjectId) → Option (ExchangeInfo ObjectId)
  find_exchange oid url [] = none
  find_exchange oid url (e ∷ es) =
      if has_key oid url e.info then some e else find_exchange oid url es

  unfoldable pub find_queue :
      ObjectId → Str → List (QueueInfo ObjectId) → Option (QueueInfo ObjectId)
  find_queue oid url [] = none
  find_queue oid url (q ∷ qs) = if has_key oid url q.info then some q else find_queue oid url qs

  abbrev pub name_exchange :
      Option (ExchangeInfo ObjectId) → BindingInfo ObjectId → BindingInfo ObjectId
  name_exchange none b = b
  name_exchange (some e) b = record b { exname = e.name }

  abbrev pub name_queue : Option (QueueInfo ObjectId) → BindingInfo ObjectId → BindingInfo ObjectId
  name_queue none b = b
  name_queue (some q) b = record b { quname = q.name }

  abbrev pub both_found : Option (ExchangeInfo ObjectId) → Option (QueueInfo ObjectId) → Bool
  both_found none y = false
  both_found (some e) none = false
  both_found (some e) (some q) = true

  -- The binding with the names that were found, and whether both were.
  unfoldable pub set_binding_names :
      List (ExchangeInfo ObjectId)
      → List (QueueInfo ObjectId)
      → BindingInfo ObjectId
      → BindingInfo ObjectId × Bool
  set_binding_names exvec quvec b =
      let ex = find_exchange b.exid b.info.brokerurl exvec in
      let qu = find_queue b.quid b.info.brokerurl quvec in
      (name_queue qu (name_exchange ex b), both_found ex qu)

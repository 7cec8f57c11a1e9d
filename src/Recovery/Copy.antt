-- ===== src/Recovery/Copy.antt =====
-- CopyObjectsArgs, copyBridges, copyObjectsThread and copyObjects of
-- src/recovery/recoverymanager.cpp. The thread is joined, so the call is sequential. What the backup
-- broker answers to getObjects, and which hosts checkFailure cannot reach, are arguments.
pub mod Calls
pub mod Bindings
use qpidrecovery.Base.{
  ℕ, Bool, true, false, not, ◌&&◌, Option, none, some, List, [], ◌∷◌, ◌++◌, if◌then◌else◌,
}
use qpidrecovery.Text.{Str, str_eq}
use qpidrecovery.Address.{BrokerAddress, ip_port_to_url, get_address, url_to_ip_port}
use qpidrecovery.Broker.Info.{
  Object, ObjectInfo, LinkInfo, ExchangeInfo, QueueInfo, BindingInfo, BridgeInfo, has_key,
  duplicate_exchange, duplicate_queue, duplicate_binding, duplicate_broker, duplicate_link,
  duplicate_bridge, set_binding_names, get_link_dest_url, link_object_dest,
}
use qpidrecovery.Broker.Operator.{
  Invocation, copy_exchange, copy_queue, copy_binding, copy_link, copy_bridge,
}
use qpidrecovery.Recovery.Store.{Store}

-- What the copy does, in order: method calls on the broker object or on a link object, and the
-- event that sendLinkDownEvent writes.
pub data Action (ObjectId : Type 0) : Type 0 where
  on_broker : Invocation → Action ObjectId
  on_link : Object ObjectId → Invocation → Action ObjectId
  link_down : Str → Str → Bool → Action ObjectId

abbrev pub broker_call : {ObjectId : Type 0} → Option Invocation → List (Action ObjectId)
broker_call none = []
broker_call (some i) = on_broker i ∷ []

abbrev pub link_call :
    {ObjectId : Type 0} → Object ObjectId → Option Invocation → List (Action ObjectId)
link_call o none = []
link_call o (some i) = on_link o i ∷ []

module _ {ObjectId : Type 0} where
  -- copyVec: duplicates of the entries of one broker.
  unfoldable pub copy_vec :
      {A : Type 0} → (A → ObjectInfo ObjectId) → (A → A) → Str → List A → List A
  copy_vec key dup url [] = []
  copy_vec key dup url (x ∷ xs) =
      let rest = copy_vec key dup url xs in
      if str_eq url (key x).brokerurl then dup x ∷ rest else rest

  -- The constructor of CopyObjectsArgs.
  unfoldable pub copy_objects_args : Str → Store ObjectId → Store ObjectId
  copy_objects_args failurl s = record {
    exchanges = copy_vec (λ x. x.info) duplicate_exchange failurl s.exchanges;
    queues = copy_vec (λ x. x.info) duplicate_queue failurl s.queues;
    bindings = copy_vec (λ x. x.info) duplicate_binding failurl s.bindings;
    brokers = copy_vec (λ x. x.info) duplicate_broker failurl s.brokers;
    links = copy_vec (λ x. x.info) duplicate_link failurl s.links;
    bridges = copy_vec (λ x. x.info) duplicate_bridge failurl s.bridges;
  }

  -- One of the four rounds of the loop, with what it does for an entry of the failed broker.
  unfoldable pub copy_round :
      {A : Type 0}
      → (A → ObjectInfo ObjectId)
      → (A → List (Action ObjectId))
      → Str
      → List A
      → List (Action ObjectId)
  copy_round key act oldurl [] = []
  copy_round key act oldurl (x ∷ xs) =
      let rest = copy_round key act oldurl xs in
      if str_eq oldurl (key x).brokerurl then act x ++ rest else rest

module _ {ObjectId : Type 0} (id_eq : ObjectId → ObjectId → Bool) where
  -- `i == 2`: a binding whose exchange or queue is not known is left out.
  unfoldable pub binding_actions :
      List (ExchangeInfo ObjectId)
      → List (QueueInfo ObjectId)
      → BindingInfo ObjectId
      → List (Action ObjectId)
  binding_actions exchanges queues b =
      let (named, found) = set_binding_names id_eq exchanges queues b in
      if found then broker_call (copy_binding named) else []

  -- The link whose identifier a bridge names, getIndexByUrlObjectId.
  unfoldable pub find_link : Str → ObjectId → List (LinkInfo ObjectId) → Option (LinkInfo ObjectId)
  find_link url oid [] = none
  find_link url oid (l ∷ ls) = if has_key id_eq oid url l.info then some l else find_link url oid ls

-- `i == 3`: a link to a host that is down has its event sent first.
module _ {ObjectId : Type 0} where
  unfoldable pub link_actions : (Str → Bool) → Str → LinkInfo ObjectId → List (Action ObjectId)
  link_actions down newurl l =
      let linkdest = get_link_dest_url l in
      elim (url_to_ip_port linkdest) [
        | none ↦ []
        | some (dstip, dstport) ↦
            (if down dstip then link_down newurl linkdest false ∷ [] else [])
            ++ broker_call (copy_link l)
      ]

  -- The inner loop of copyBridges: the first link object from the broker to the target.
  unfoldable pub find_link_object : Str → Str → List (Object ObjectId) → Option (Object ObjectId)
  find_link_object newsrc target [] = none
  find_link_object newsrc target (o ∷ os) =
      if str_eq o.broker_url newsrc && str_eq (link_object_dest o) target
      then some o
      else find_link_object newsrc target os

  abbrev pub on_found : Option (Object ObjectId) → BridgeInfo ObjectId → List (Action ObjectId)
  on_found none b = []
  on_found (some o) b = link_call o (copy_bridge b)

-- The destination that is replaced, `changedst`, with the new one.
pub data Redirect : Type 0 where
  unchanged : Redirect
  redirect : Str → Str → Redirect

-- `changedst == true && olddst.compare(dst) != 0` leaves a bridge out: `none`. Else the target.
abbrev pub target_of : Redirect → Str → Option Str
target_of unchanged dst = some dst
target_of (redirect olddst newdst) dst = if str_eq olddst dst then some newdst else none

module _ {ObjectId : Type 0} (id_eq : ObjectId → ObjectId → Bool) where
  unfoldable pub bridge_actions :
      List (LinkInfo ObjectId)
      → List (Object ObjectId)
      → Str
      → Redirect
      → BridgeInfo ObjectId
      → List (Action ObjectId)
  bridge_actions links linkobjs newsrc r b =
      elim (find_link id_eq b.info.brokerurl b.linkid links) [
        | none ↦ []
        | some l ↦ elim (target_of r (get_link_dest_url l)) [
          | none ↦ []
          | some target ↦ on_found (find_link_object newsrc target linkobjs) b
        ]
      ]

  unfoldable pub copy_bridges :
      List (LinkInfo ObjectId)
      → List (BridgeInfo ObjectId)
      → List (Object ObjectId)
      → Str
      → Str
      → Redirect
      → List (Action ObjectId)
  copy_bridges links bridges linkobjs oldsrc newsrc r =
      copy_round (λ b. b.info) (bridge_actions links linkobjs newsrc r) oldsrc bridges

  abbrev pub single : {B : Type 0} → List (Object ObjectId) → B → Option B
  single [] b = none
  single (o ∷ []) b = some b
  single (o ∷ p ∷ os) b = none

  -- `none` where the backup broker does not show exactly one broker object.
  unfoldable pub copy_objects_thread :
      (Str → Bool)
      → List (Object ObjectId)
      → List (Object ObjectId)
      → BrokerAddress
      → BrokerAddress
      → Store ObjectId
      → Option (List (Action ObjectId))
  copy_objects_thread down brokerobjs linkobjs oldba newba args =
      let newurl = get_address newba in
      let oldurl = get_address oldba in
      single brokerobjs (
        copy_round (λ x. x.info) (λ x. broker_call (copy_exchange x)) oldurl args.exchanges
        ++ (copy_round (λ x. x.info) (λ x. broker_call (copy_queue x)) oldurl args.queues
            ++ (copy_round (λ x. x.info) (binding_actions id_eq args.exchanges args.queues) oldurl
                  args.bindings
                ++ (copy_round (λ x. x.info) (link_actions down newurl) oldurl args.links
                    ++ copy_bridges args.links args.bridges linkobjs oldurl newurl unchanged))))

  unfoldable pub copy_objects :
      (Str → Bool)
      → List (Object ObjectId)
      → List (Object ObjectId)
      → BrokerAddress
      → BrokerAddress
      → Store ObjectId
      → Option (List (Action ObjectId))
  copy_objects down brokerobjs linkobjs fail backup s =
      copy_objects_thread down brokerobjs linkobjs fail backup
        (copy_objects_args (ip_port_to_url fail.ip fail.port) s)

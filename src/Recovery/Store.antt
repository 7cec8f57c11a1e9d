-- ===== src/Recovery/Store.antt =====
-- The vectors of a RecoveryManager and addObjectInfo. Each vector has its own type here: the caller
-- makes the object for the type that it passes along.
pub mod Lookup
pub mod Names
use qpidrecovery.Base.{ℕ, Bool, true, false, List, [], ◌∷◌, if◌then◌else◌}
use qpidrecovery.Broker.Info.{
  ObjectInfo, BrokerInfo, LinkInfo, ExchangeInfo, QueueInfo, BindingInfo, BridgeInfo, AnyInfo,
  broker, link, exchange, queue, binding, bridge, info_eq,
}
use qpidrecovery.Recovery.Ignored.{is_ignored_name}

pub record Store (ObjectId : Type 0) : Type 0 where
  pub exchanges : List (ExchangeInfo ObjectId)
  pub queues : List (QueueInfo ObjectId)
  pub bindings : List (BindingInfo ObjectId)
  pub brokers : List (BrokerInfo ObjectId)
  pub links : List (LinkInfo ObjectId)
  pub bridges : List (BridgeInfo ObjectId)

module _ {ObjectId : Type 0} where
  unfoldable pub empty_store : Store ObjectId
  empty_store = record {
    exchanges = [];
    queues = [];
    bindings = [];
    brokers = [];
    links = [];
    bridges = [];
  }

module _ {ObjectId : Type 0} (id_eq : ObjectId → ObjectId → Bool) where
  -- The loop of addObjectInfo: replace the first entry of the same key, or push to the back.
  unfoldable pub put : {A : Type 0} → (A → ObjectInfo ObjectId) → A → List A → List A
  put key x [] = x ∷ []
  put key x (y ∷ ys) = if info_eq id_eq (key y) (key x) then x ∷ ys else y ∷ put key x ys

  -- The new vectors, and 1 if the object is ignored.
  unfoldable pub add_object_info : AnyInfo ObjectId → Store ObjectId → Store ObjectId × ℕ
  add_object_info (broker x) s = (record s { brokers = put (λ b. b.info) x s.brokers }, 0)
  add_object_info (exchange x) s =
      if is_ignored_name x.name
      then (s, 1)
      else (record s { exchanges = put (λ e. e.info) x s.exchanges }, 0)
  add_object_info (binding x) s = (record s { bindings = put (λ b. b.info) x s.bindings }, 0)
  add_object_info (queue x) s =
      if is_ignored_name x.name
      then (s, 1)
      else (record s { queues = put (λ q. q.info) x s.queues }, 0)
  add_object_info (bridge x) s = (record s { bridges = put (λ b. b.info) x s.bridges }, 0)
  add_object_info (link x) s = (record s { links = put (λ l. l.info) x s.links }, 0)

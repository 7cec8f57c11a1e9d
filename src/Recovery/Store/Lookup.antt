-- ===== src/Recovery/Store/Lookup.antt =====
-- What is recorded for a type, an identifier and a broker url.
use qpidrecovery.Base.{
  ◌≡◌, ◌↔◌, refl, Bool, true, false, not, ◌&&◌, Option, none, some, List, [], ◌∷◌, if◌then◌else◌,
  arith,
}
use qpidrecovery.Text.{Str, str_eq_iff}
use qpidrecovery.Broker.Types.{
  ObjectType, obj_broker, obj_link, obj_exchange, obj_queue, obj_binding, obj_bridge, type_eq,
}
use qpidrecovery.Broker.Info.{
  ObjectInfo, AnyInfo, broker, link, exchange, queue, binding, bridge, info_eq, has_key,
}
use qpidrecovery.Recovery.Ignored.{is_ignored_name}
use qpidrecovery.Recovery.Store.{Store, put, add_object_info}

module _ {ObjectId : Type 0} where
  abbrev pub kind_of : AnyInfo ObjectId → ObjectType
  kind_of (broker x) = obj_broker
  kind_of (link x) = obj_link
  kind_of (exchange x) = obj_exchange
  kind_of (queue x) = obj_queue
  kind_of (binding x) = obj_binding
  kind_of (bridge x) = obj_bridge

  abbrev pub info_of : AnyInfo ObjectId → ObjectInfo ObjectId
  info_of (broker x) = x.info
  info_of (link x) = x.info
  info_of (exchange x) = x.info
  info_of (queue x) = x.info
  info_of (binding x) = x.info
  info_of (bridge x) = x.info

  -- Objects of this name are not recorded.
  abbrev pub is_skipped : AnyInfo ObjectId → Bool
  is_skipped (exchange x) = is_ignored_name x.name
  is_skipped (queue x) = is_ignored_name x.name
  is_skipped _ = false

  abbrev pub lift : {A : Type 0} → (A → AnyInfo ObjectId) → Option A → Option (AnyInfo ObjectId)
  lift f none = none
  lift f (some x) = some (f x)

module _ {ObjectId : Type 0} (id_eq : ObjectId → ObjectId → Bool) where
  pub find : {A : Type 0} → (A → ObjectInfo ObjectId) → ObjectId → Str → List A → Option A
  find key oid url [] = none
  find key oid url (x ∷ xs) = if has_key id_eq oid url (key x) then some x else find key oid url xs

  unfoldable pub lookup : ObjectType → ObjectId → Str → Store ObjectId → Option (AnyInfo ObjectId)
  unfolding find
  lookup obj_broker oid url s = lift broker (find (λ x. x.info) oid url s.brokers)
  lookup obj_link oid url s = lift link (find (λ x. x.info) oid url s.links)
  lookup obj_exchange oid url s = lift exchange (find (λ x. x.info) oid url s.exchanges)
  lookup obj_queue oid url s = lift queue (find (λ x. x.info) oid url s.queues)
  lookup obj_binding oid url s = lift binding (find (λ x. x.info) oid url s.bindings)
  lookup obj_bridge oid url s = lift bridge (find (λ x. x.info) oid url s.bridges)
  lookup _ oid url s = none

module _ {ObjectId : Type 0} (id_eq : ObjectId → ObjectId → Bool)
    (id_eq_iff : (a b : ObjectId) → (id_eq a b ≡ true) ↔ (a ≡ b)) where
  has_key_of_eq :
      (oid : ObjectId) (url : Str) (a b : ObjectInfo ObjectId)
      → info_eq id_eq a b ≡ true
      → has_key id_eq oid url a ≡ has_key id_eq oid url b
  unfolding info_eq has_key
  has_key_of_eq oid url a b h =
      ground (arith, (id_eq_iff a.objectid b.objectid).0, (str_eq_iff a.brokerurl b.brokerurl).0)

  eq_of_has_key :
      (oid : ObjectId) (url : Str) (a b : ObjectInfo ObjectId)
      → has_key id_eq oid url a ≡ true
      → has_key id_eq oid url b ≡ true
      → info_eq id_eq a b ≡ true
  unfolding info_eq has_key
  eq_of_has_key oid url a b h k = ground (
    arith,
    (id_eq_iff a.objectid oid).0,
    (id_eq_iff b.objectid oid).0,
    (id_eq_iff a.objectid b.objectid).1,
    (str_eq_iff a.brokerurl url).0,
    (str_eq_iff b.brokerurl url).0,
    (str_eq_iff a.brokerurl b.brokerurl).1,
  )

  find-put :
      {A : Type 0} (key : A → ObjectInfo ObjectId) (oid : ObjectId) (url : Str) (x : A)
      (ys : List A)
      → find id_eq key oid url (put id_eq key x ys)
        ≡ (if has_key id_eq oid url (key x) then some x else find id_eq key oid url ys)
  unfolding find put
  find-put key oid url x [] = refl
  find-put key oid url x (y ∷ ys) = ground (
    arith,
    has_key_of_eq oid url (key y) (key x),
    eq_of_has_key oid url (key y) (key x),
    find-put key oid url x ys,
  )

  -- After addObjectInfo exactly the key of the new object has a new entry, unless its name is
  -- ignored; every other type, identifier and url keeps what was recorded. (operator== of the
  -- identifiers decides their equality.)
  pub lookup-add_object_info :
      (ty : ObjectType) (oid : ObjectId) (url : Str) (x : AnyInfo ObjectId) (s : Store ObjectId)
      → lookup id_eq ty oid url (add_object_info id_eq x s).0 ≡ (
          if not (is_skipped x) && (type_eq ty (kind_of x) && has_key id_eq oid url (info_of x))
          then some x
          else lookup id_eq ty oid url s)
  unfolding lookup add_object_info
  lookup-add_object_info ty oid url (broker x) s =
      ground (arith, find-put (λ y. y.info) oid url x s.brokers)
  lookup-add_object_info ty oid url (link x) s =
      ground (arith, find-put (λ y. y.info) oid url x s.links)
  lookup-add_object_info ty oid url (exchange x) s =
      ground (arith, find-put (λ y. y.info) oid url x s.exchanges)
  lookup-add_object_info ty oid url (queue x) s =
      ground (arith, find-put (λ y. y.info) oid url x s.queues)
  lookup-add_object_info ty oid url (binding x) s =
      ground (arith, find-put (λ y. y.info) oid url x s.bindings)
  lookup-add_object_info ty oid url (bridge x) s =
      ground (arith, find-put (λ y. y.info) oid url x s.bridges)

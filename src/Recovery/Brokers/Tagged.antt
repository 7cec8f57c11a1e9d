-- ===== src/Recovery/Brokers/Tagged.antt =====
-- The types of the events that wait in the pipe of a RecoveryManager, against the classes of their
-- objects: handleEvent and `main` of src/proposer.cpp cast an object by the type of its event.
pub mod History
use qpidrecovery.Recovery.Copy.{Action, on_broker, on_link, link_down}
use mathlib.Core.Path.{subst}
use qpidrecovery.Base.{
  ℕ, ◌≡◌, refl, sym, ap, ◌∙◌, Bool, true, false, Option, none, some, List, [], ◌∷◌, ◌++◌, All,
  arith, Option-cases, Bool-cases, inl, inr,
}
use qpidrecovery.Text.{Str, codes, str_eq}
use qpidrecovery.Address.{BrokerAddress, url_to_ip_port}
use qpidrecovery.Broker.Types.{
  ObjectType, obj_broker, obj_link, obj_exchange, obj_queue, obj_binding, obj_bridge,
  number_of_obj_types, obj_unknown, object_string_to_type, object_type_to_string, type_eq,
}
use qpidrecovery.Broker.Info.{
  Object, AnyInfo, LinkInfo, broker, link, exchange, queue, binding, bridge, class_type,
  new_object_info_by_type, duplicate,
}
use qpidrecovery.Recovery.Store.{add_object_info}
use qpidrecovery.Recovery.Brokers.{
  ListenerEvent, broker_disconnection, object_property, link_down_event, Manager, all_types,
  get_broker_index, new_manager, broker_disconnected, send_link_down_event, event, object_props,
  report_all, report_types, add_broker_thread, add_broker, delete_broker, record_event,
  handle_event, kept_after, send_copied, after_copy,
}

module _ {ObjectId : Type 0} where
  abbrev pub IsTagged : ListenerEvent ObjectId → Type 0
  IsTagged (object_property t x) = t ≡ class_type x
  IsTagged (broker_disconnection ip port) = Unit
  IsTagged (link_down_event sip sport dip dport fromqmf) = Unit

  pub All-append :
      (xs ys : List (ListenerEvent ObjectId))
      → All IsTagged xs
      → All IsTagged ys
      → All IsTagged (xs ++ ys)
  All-append [] ys h k = k
  All-append (x ∷ xs) ys h k = (h.0, All-append xs ys h.1 k)

  new_object_info_class :
      (o : Object ObjectId) (t : ObjectType) (x : AnyInfo ObjectId)
      → new_object_info_by_type o t ≡ some x
      → t ≡ class_type x
  unfolding new_object_info_by_type
  new_object_info_class o number_of_obj_types x h = absurd (ground arith)
  new_object_info_class o obj_unknown x h = absurd (ground arith)
  new_object_info_class o _ x h = ground arith

  pub object_props-IsTagged : (o : Object ObjectId) → All IsTagged (object_props o)
  unfolding object_props
  object_props-IsTagged o =
      elim (Option-cases (new_object_info_by_type o (object_string_to_type o.class_name))) [
        | inl e ↦ rw (e, object_props) tt
        | inr (x, e) ↦ rw (e, object_props) (new_object_info_class o _ x e, tt)
      ]

  report_all-IsTagged : (os : List (Object ObjectId)) → All IsTagged (report_all os)
  unfolding report_all
  report_all-IsTagged [] = tt
  report_all-IsTagged (o ∷ os) = All-append _ _ (object_props-IsTagged o) (report_all-IsTagged os)

  report_types-IsTagged :
      (answers : Str → List (Object ObjectId)) (ts : List ObjectType)
      → All IsTagged (report_types answers ts)
  unfolding report_types
  report_types-IsTagged answers [] = tt
  report_types-IsTagged answers (t ∷ ts) =
      All-append _ _ (report_all-IsTagged (answers (object_type_to_string t)))
        (report_types-IsTagged answers ts)

  pub add_broker-IsTagged :
      (pointer : ℕ) (answers : Str → List (Object ObjectId)) (ba : BrokerAddress)
      (m : Manager ObjectId)
      → All IsTagged m.pipe
      → All IsTagged (add_broker pointer answers ba m).pipe
  unfolding add_broker add_broker_thread
  add_broker-IsTagged pointer answers ba m h = elim (Option-cases (get_broker_index ba m.bavec)) [
    | inl e ↦
        rw (e, add_broker, add_broker_thread)
          (All-append m.pipe _ h (report_types-IsTagged answers all_types))
    | inr (i, e) ↦ rw (e, add_broker, add_broker_thread) h
  ]

  pub delete_broker-IsTagged :
      (ba : BrokerAddress) (m : Manager ObjectId)
      → All IsTagged m.pipe
      → All IsTagged (delete_broker ba m).pipe
  unfolding delete_broker
  delete_broker-IsTagged ba m h = elim (Option-cases (get_broker_index ba m.bavec)) [
    | inl e ↦ rw (e, delete_broker) h
    | inr (i, e) ↦ rw (e, delete_broker) h
  ]

  abbrev pub AfterTagged : Option (Manager ObjectId) → Type 0
  AfterTagged none = Unit
  AfterTagged (some m) = All IsTagged m.pipe

  pub broker_disconnected-IsTagged :
      (url : Str) (m : Manager ObjectId)
      → All IsTagged m.pipe
      → AfterTagged (broker_disconnected url m)
  unfolding broker_disconnected
  broker_disconnected-IsTagged url m h = elim (Option-cases (url_to_ip_port url)) [
    | inl e ↦ rw (e, broker_disconnected) tt
    | inr (u, e) ↦ rw (e, broker_disconnected) (All-append m.pipe _ h (tt, tt))
  ]

  pub send_link_down_event-IsTagged :
      (src dst : Str) (q : Bool) (m : Manager ObjectId)
      → All IsTagged m.pipe
      → AfterTagged (send_link_down_event src dst q m)
  unfolding send_link_down_event
  send_link_down_event-IsTagged src dst q m h = elim (Option-cases (url_to_ip_port src)) [
    | inl f ↦ rw (f, send_link_down_event) tt
    | inr (u, f) ↦ elim (Option-cases (url_to_ip_port dst)) [
      | inl g ↦ rw (f, g, send_link_down_event) tt
      | inr (v, g) ↦ rw (f, g, send_link_down_event) (All-append m.pipe _ h (tt, tt))
    ]
  ]

  kept_after-IsTagged :
      (m : Manager ObjectId) (o : Option (Manager ObjectId))
      → All IsTagged m.pipe
      → AfterTagged o
      → All IsTagged (kept_after m o).pipe
  kept_after-IsTagged m none h k = h
  kept_after-IsTagged m (some n) h k = k

  send_copied-IsTagged :
      (es : List (Action ObjectId)) (m : Manager ObjectId)
      → All IsTagged m.pipe
      → All IsTagged (send_copied es m).pipe
  unfolding send_copied
  send_copied-IsTagged [] m h = h
  send_copied-IsTagged (on_broker i ∷ es) m h = send_copied-IsTagged es m h
  send_copied-IsTagged (on_link o i ∷ es) m h = send_copied-IsTagged es m h
  send_copied-IsTagged (link_down src dst q ∷ es) m h = send_copied-IsTagged es _ (
      kept_after-IsTagged m (send_link_down_event src dst q m) h
        (send_link_down_event-IsTagged src dst q m h))

  pub after_copy-IsTagged :
      (calls : Option (List (Action ObjectId))) (m : Manager ObjectId)
      → All IsTagged m.pipe
      → All IsTagged (after_copy calls m).pipe
  after_copy-IsTagged none m h = h
  after_copy-IsTagged (some es) m h = send_copied-IsTagged es m h

  pub event-IsTagged :
      (c url rhost : Str) (m : Manager ObjectId)
      → All IsTagged m.pipe
      → AfterTagged (event c url rhost m)
  unfolding event
  event-IsTagged c url rhost m h = elim (Bool-cases (str_eq c (codes "brokerLinkDown"))) [
    | inr e ↦ rw (e, event) h
    | inl e ↦ rw (e, event) (send_link_down_event-IsTagged url rhost true m h)
  ]

module _ {ObjectId : Type 0} (id_eq : ObjectId → ObjectId → Bool) where
  type_eq_refl : (t : ObjectType) → type_eq t t ≡ true
  type_eq_refl t = ground arith

  pub tail-IsTagged :
      (m n : Manager ObjectId) (e : ListenerEvent ObjectId) (rest : List (ListenerEvent ObjectId))
      → n.pipe ≡ rest
      → m.pipe ≡ e ∷ rest
      → All IsTagged m.pipe
      → All IsTagged n.pipe
  tail-IsTagged m n e rest p q h = subst (All IsTagged) (sym p) (subst (All IsTagged) q h).1

  -- An event that waits, with the right type, is taken.
  pub handle_event-IsTagged :
      (m : Manager ObjectId) (e : ListenerEvent ObjectId) (rest : List (ListenerEvent ObjectId))
      → m.pipe ≡ e ∷ rest
      → IsTagged e
      → (n : Manager ObjectId) × (handle_event id_eq m ≡ some (e, n)) × (n.pipe ≡ rest)
  unfolding handle_event record_event
  handle_event-IsTagged m (object_property t x) rest p h = (
    record m { pipe = rest; store = (add_object_info id_eq (duplicate x) m.store).0 },
    rw (p, handle_event, record_event, ap (type_eq t) (sym h) ∙ type_eq_refl t) refl,
    refl,
  )
  handle_event-IsTagged m (broker_disconnection ip port) rest p h =
      (record m { pipe = rest }, rw (p, handle_event, record_event) refl, refl)
  handle_event-IsTagged m (link_down_event sip sport dip dport q) rest p h =
      (record m { pipe = rest }, rw (p, handle_event, record_event) refl, refl)

-- ===== src/Recovery/Brokers/Tagged/History.antt =====
-- The history of a RecoveryManager: the calls of its listener, and its own.
use qpidrecovery.Recovery.Copy.{copy_objects}
use mathlib.Core.Path.{subst}
use qpidrecovery.Base.{
  ℕ, ◌≡◌, refl, Bool, Option, none, some, List, [], ◌∷◌, ◌++◌, All, arith, Option-cases, inl, inr,
}
use qpidrecovery.Text.{Str}
use qpidrecovery.Address.{BrokerAddress}
use qpidrecovery.Broker.Types.{obj_link}
use qpidrecovery.Broker.Info.{Object, AnyInfo, LinkInfo, link, class_type}
use qpidrecovery.Recovery.Brokers.{
  ListenerEvent, object_property, Manager, new_manager, broker_disconnected, event, object_props,
  add_broker, delete_broker, handle_event, after_copy, reroute, send_link_down_event,
}
use qpidrecovery.Recovery.Brokers.Tagged.{
  IsTagged, All-append, object_props-IsTagged, add_broker-IsTagged, delete_broker-IsTagged,
  AfterTagged, broker_disconnected-IsTagged, event-IsTagged, tail-IsTagged, handle_event-IsTagged,
  after_copy-IsTagged, send_link_down_event-IsTagged,
}

-- A call of the listener by the broker library, or one of the recovery manager. (reroute calls
-- addBroker, and changes nothing else.)
pub data Call (ObjectId : Type 0) : Type 0 where
  disconnected : Str → Call ObjectId
  occurred : Str → Str → Str → Call ObjectId
  shown : Object ObjectId → Call ObjectId
  added : ℕ → (Str → List (Object ObjectId)) → BrokerAddress → Call ObjectId
  deleted : BrokerAddress → Call ObjectId
  rerouted :
      ℕ
      → (Str → List (Object ObjectId))
      → List (Object ObjectId)
      → List (Object ObjectId)
      → BrokerAddress
      → BrokerAddress
      → BrokerAddress
      → Call ObjectId
  copied :
      (Str → Bool)
      → List (Object ObjectId)
      → List (Object ObjectId)
      → BrokerAddress
      → BrokerAddress
      → Call ObjectId
  sent_down : Str → Str → Bool → Call ObjectId
  handled : Call ObjectId

module _ {ObjectId : Type 0} (id_eq : ObjectId → ObjectId → Bool) where
  -- `handled` is a turn of the loop of `main`, when an event waits.
  unfoldable pub call : Call ObjectId → Manager ObjectId → Option (Manager ObjectId)
  call (disconnected url) m = broker_disconnected url m
  call (occurred c url rhost) m = event c url rhost m
  call (shown o) m = some (record m { pipe = m.pipe ++ object_props o })
  call (added pointer answers ba) m = some (add_broker pointer answers ba m)
  call (deleted ba) m = some (delete_broker ba m)
  call (rerouted pointer answers brokerobjs linkobjs src old new) m =
      some (reroute id_eq pointer answers brokerobjs linkobjs src old new m).0
  call (copied down brokerobjs linkobjs fail backup) m =
      some (after_copy (copy_objects id_eq down brokerobjs linkobjs fail backup m.store) m)
  call (sent_down src dst fromqmf) m = send_link_down_event src dst fromqmf m
  call handled m = elim (handle_event id_eq m) [ none ↦ none | some (e, n) ↦ some n ]

  unfoldable pub run_calls : List (Call ObjectId) → Manager ObjectId → Option (Manager ObjectId)
  run_calls [] m = some m
  run_calls (c ∷ cs) m = elim (call c m) [ none ↦ none | some n ↦ run_calls cs n ]

  handled_tagged :
      (m : Manager ObjectId) (p : List (ListenerEvent ObjectId))
      → m.pipe ≡ p
      → All IsTagged m.pipe
      → AfterTagged (call handled m)
  unfolding call handle_event
  handled_tagged m [] q h = rw (q, call, handle_event) tt
  handled_tagged m (e ∷ rest) q h =
      let (n, k, l) = handle_event-IsTagged id_eq m e rest q (subst (All IsTagged) q h).0 in
      rw (k, call) (tail-IsTagged id_eq m n e rest l q h)

  call-IsTagged :
      (c : Call ObjectId) (m : Manager ObjectId) → All IsTagged m.pipe → AfterTagged (call c m)
  unfolding call
  call-IsTagged (disconnected url) m h = broker_disconnected-IsTagged url m h
  call-IsTagged (occurred c url rhost) m h = event-IsTagged c url rhost m h
  call-IsTagged (shown o) m h = All-append m.pipe _ h (object_props-IsTagged o)
  call-IsTagged (added pointer answers ba) m h = add_broker-IsTagged pointer answers ba m h
  call-IsTagged (deleted ba) m h = delete_broker-IsTagged ba m h
  call-IsTagged (rerouted pointer answers brokerobjs linkobjs src old new) m h =
      unfold reroute in add_broker-IsTagged pointer answers src m h
  call-IsTagged (copied down brokerobjs linkobjs fail backup) m h =
      after_copy-IsTagged (copy_objects id_eq down brokerobjs linkobjs fail backup m.store) m h
  call-IsTagged (sent_down src dst fromqmf) m h = send_link_down_event-IsTagged src dst fromqmf m h
  call-IsTagged handled m h = handled_tagged m m.pipe refl h

  run_calls-IsTagged :
      (cs : List (Call ObjectId)) (m : Manager ObjectId)
      → All IsTagged m.pipe
      → AfterTagged (run_calls cs m)
  unfolding run_calls
  run_calls-IsTagged [] m h = h
  run_calls-IsTagged (c ∷ cs) m h = elim (Option-cases (call c m)) [
    | inl e ↦ rw (e, run_calls) tt
    | inr (n, e) ↦
        rw (e, run_calls) (run_calls-IsTagged cs n (subst AfterTagged e (call-IsTagged c m h)))
  ]

  link_of_type :
      (x : AnyInfo ObjectId) → obj_link ≡ class_type x → (l : LinkInfo ObjectId) × (x ≡ link l)
  link_of_type (link l) h = (l, refl)
  link_of_type _ h = absurd (ground (arith, h))

  -- After any history of calls of the listener and of the recovery manager, from its constructor on,
  -- copyObjects and reroute with what they send and ask for included,
  -- handleEvent takes the event that waits first, without a wrong cast, and if this event has the type
  -- OBJ_LINK, its object is a LinkInfo, to which `main` of src/proposer.cpp casts it.
  pub handle_event-cast :
      (cs : List (Call ObjectId)) (m : Manager ObjectId) (e : ListenerEvent ObjectId)
      (rest : List (ListenerEvent ObjectId))
      → run_calls cs new_manager ≡ some m
      → m.pipe ≡ e ∷ rest
      → ((n : Manager ObjectId) × (handle_event id_eq m ≡ some (e, n)) × (n.pipe ≡ rest))
        × ((x : AnyInfo ObjectId)
            → e ≡ object_property obj_link x
            → (l : LinkInfo ObjectId) × (x ≡ link l))
  unfolding new_manager
  handle_event-cast cs m e rest h p =
      let k = subst AfterTagged h (run_calls-IsTagged cs new_manager tt) in
      let t : IsTagged e = (subst (All IsTagged) p k).0 in
      (handle_event-IsTagged id_eq m e rest p t, λ x q. link_of_type x (subst IsTagged q t))

-- ===== src/Recovery/Copy/Calls.antt =====
-- The copy against the recorded vectors themselves.
use qpidrecovery.Base.{
  ◌≡◌, refl, Bool, true, Option, none, some, List, [], ◌∷◌, ◌++◌, if◌then◌else◌, arith, Bool-cases,
  inl, inr,
}
use qpidrecovery.Text.{Str, str_eq, str_eq_iff}
use qpidrecovery.Address.{BrokerAddress, ip_port_to_url, get_address}
use qpidrecovery.Broker.Info.{
  Object, ObjectInfo, LinkInfo, ExchangeInfo, QueueInfo, BindingInfo, BridgeInfo, has_key,
  duplicate_exchange, duplicate_queue, duplicate_binding, duplicate_link, duplicate_bridge,
  set_binding_names, find_exchange, find_queue, both_found, name_queue, name_exchange,
}
use qpidrecovery.Broker.Operator.{copy_exchange, copy_queue, copy_binding}
use qpidrecovery.Recovery.Store.{Store}
use qpidrecovery.Recovery.Copy.{
  Action, broker_call, copy_vec, copy_objects_args, copy_round, binding_actions, find_link,
  link_actions, unchanged, bridge_actions, copy_bridges, copy_objects_thread, copy_objects,
}

module _ {ObjectId : Type 0} where
  -- Filtering first changes nothing, if a duplicate has its key and does the same.
  copy_round-copy_vec :
      {A : Type 0} (key : A → ObjectInfo ObjectId) (dup : A → A)
      (act act' : A → List (Action ObjectId)) (url : Str) (xs : List A)
      → ((x : A) → key (dup x) ≡ key x)
      → ((x : A) → str_eq url (key x).brokerurl ≡ true → act (dup x) ≡ act' x)
      → copy_round key act url (copy_vec key dup url xs) ≡ copy_round key act' url xs
  unfolding copy_round copy_vec
  copy_round-copy_vec key dup act act' url [] k h = refl
  copy_round-copy_vec key dup act act' url (x ∷ xs) k h =
      elim (Bool-cases (str_eq url (key x).brokerurl)) [
        | inl e ↦ ground (arith, k x, h x e, copy_round-copy_vec key dup act act' url xs k h)
        | inr e ↦ ground (arith, copy_round-copy_vec key dup act act' url xs k h)
      ]

module _ {ObjectId : Type 0} (id_eq : ObjectId → ObjectId → Bool) where
  find_exchange-copy_vec :
      (oid : ObjectId) (url : Str) (xs : List (ExchangeInfo ObjectId))
      → find_exchange id_eq oid url (copy_vec (λ x. x.info) duplicate_exchange url xs)
        ≡ find_exchange id_eq oid url xs
  unfolding find_exchange copy_vec duplicate_exchange has_key
  find_exchange-copy_vec oid url [] = refl
  find_exchange-copy_vec oid url (x ∷ xs) = ground (
    arith,
    (str_eq_iff url x.info.brokerurl).1,
    (str_eq_iff x.info.brokerurl url).0,
    find_exchange-copy_vec oid url xs,
  )

  find_link-copy_vec :
      (oid : ObjectId) (url : Str) (xs : List (LinkInfo ObjectId))
      → find_link id_eq url oid (copy_vec (λ x. x.info) duplicate_link url xs)
        ≡ find_link id_eq url oid xs
  unfolding find_link copy_vec duplicate_link has_key
  find_link-copy_vec oid url [] = refl
  find_link-copy_vec oid url (x ∷ xs) = ground (
    arith,
    (str_eq_iff url x.info.brokerurl).1,
    (str_eq_iff x.info.brokerurl url).0,
    find_link-copy_vec oid url xs,
  )

  abbrev fresh : Option (QueueInfo ObjectId) → Option (QueueInfo ObjectId)
  fresh none = none
  fresh (some q) = some (duplicate_queue q)

  find_queue-copy_vec :
      (oid : ObjectId) (url : Str) (xs : List (QueueInfo ObjectId))
      → find_queue id_eq oid url (copy_vec (λ x. x.info) duplicate_queue url xs)
        ≡ fresh (find_queue id_eq oid url xs)
  unfolding find_queue copy_vec duplicate_queue has_key
  find_queue-copy_vec oid url [] = refl
  find_queue-copy_vec oid url (x ∷ xs) = ground (
    arith,
    (str_eq_iff url x.info.brokerurl).1,
    (str_eq_iff x.info.brokerurl url).0,
    find_queue-copy_vec oid url xs,
  )

  fresh_call :
      (ex : Option (ExchangeInfo ObjectId)) (qu : Option (QueueInfo ObjectId))
      (b : BindingInfo ObjectId)
      → (if both_found id_eq ex (fresh qu)
          then broker_call {ObjectId = ObjectId}
              (copy_binding (name_queue id_eq (fresh qu) (name_exchange id_eq ex b)))
          else [])
        ≡ (if both_found id_eq ex qu
            then broker_call (copy_binding (name_queue id_eq qu (name_exchange id_eq ex b)))
            else [])
  unfolding duplicate_queue
  fresh_call none qu b = refl
  fresh_call (some e) none b = refl
  fresh_call (some e) (some q) b = refl

  own_binding :
      (exs : List (ExchangeInfo ObjectId)) (qus : List (QueueInfo ObjectId))
      (b : BindingInfo ObjectId)
      → binding_actions id_eq
          (copy_vec (λ x. x.info) duplicate_exchange b.info.brokerurl exs)
          (copy_vec (λ x. x.info) duplicate_queue b.info.brokerurl qus)
          (duplicate_binding b)
        ≡ binding_actions id_eq exs qus b
  unfolding binding_actions set_binding_names duplicate_binding
  own_binding exs qus b = rw (find_exchange-copy_vec b.exid b.info.brokerurl exs) (
      rw (find_queue-copy_vec b.quid b.info.brokerurl qus) (
        fresh_call (find_exchange id_eq b.exid b.info.brokerurl exs)
          (find_queue id_eq b.quid b.info.brokerurl qus) b))

  own_bridge :
      (links : List (LinkInfo ObjectId)) (os : List (Object ObjectId)) (newsrc : Str)
      (b : BridgeInfo ObjectId)
      → bridge_actions id_eq
          (copy_vec (λ x. x.info) duplicate_link b.info.brokerurl links)
          os
          newsrc
          unchanged
          (duplicate_bridge b)
        ≡ bridge_actions id_eq links os newsrc unchanged b
  unfolding bridge_actions duplicate_bridge
  own_bridge links os newsrc b =
      rw (find_link-copy_vec b.linkid b.info.brokerurl links, bridge_actions)

  own_bindings :
      (exs : List (ExchangeInfo ObjectId)) (qus : List (QueueInfo ObjectId)) (url : Str)
      (b : BindingInfo ObjectId)
      → str_eq url b.info.brokerurl ≡ true
      → binding_actions id_eq
          (copy_vec (λ x. x.info) duplicate_exchange url exs)
          (copy_vec (λ x. x.info) duplicate_queue url qus)
          (duplicate_binding b)
        ≡ binding_actions id_eq exs qus b
  own_bindings exs qus url b h = rw ((str_eq_iff url b.info.brokerurl).0 h) (own_binding exs qus b)

  own_bridges :
      (links : List (LinkInfo ObjectId)) (os : List (Object ObjectId)) (newsrc url : Str)
      (b : BridgeInfo ObjectId)
      → str_eq url b.info.brokerurl ≡ true
      → bridge_actions id_eq
          (copy_vec (λ x. x.info) duplicate_link url links)
          os
          newsrc
          unchanged
          (duplicate_bridge b)
        ≡ bridge_actions id_eq links os newsrc unchanged b
  own_bridges links os newsrc url b h =
      rw ((str_eq_iff url b.info.brokerurl).0 h) (own_bridge links os newsrc b)

  -- With one broker object on the backup, a recovery makes, in this order, one call for every
  -- recorded exchange of the failed broker, every queue, every binding whose exchange and queue are
  -- recorded, every link (after the event for a host that is down), and every bridge whose link is
  -- recorded and has been made on the backup; nothing is done for other brokers. That it works on
  -- filtered duplicates of the vectors, and filters these again, makes no difference.
  pub copy_objects_calls :
      (down : Str → Bool) (o : Object ObjectId) (linkobjs : List (Object ObjectId))
      (fail backup : BrokerAddress) (s : Store ObjectId)
      → let oldurl = get_address fail in
        let newurl = get_address backup in
        copy_objects id_eq down (o ∷ []) linkobjs fail backup s
        ≡ some (
            copy_round (λ x. x.info) (λ x. broker_call (copy_exchange x)) oldurl s.exchanges
            ++ (copy_round (λ x. x.info) (λ x. broker_call (copy_queue x)) oldurl s.queues
                ++ (copy_round
                      (λ x. x.info)
                      (binding_actions id_eq s.exchanges s.queues)
                      oldurl
                      s.bindings
                    ++ (copy_round (λ x. x.info) (link_actions down newurl) oldurl s.links
                        ++ copy_bridges id_eq s.links s.bridges linkobjs oldurl newurl unchanged))))
  unfolding copy_objects copy_objects_thread copy_objects_args copy_bridges ip_port_to_url
      get_address duplicate_exchange copy_exchange duplicate_queue copy_queue duplicate_link
      link_actions duplicate_binding duplicate_bridge
  copy_objects_calls down o linkobjs fail backup s =
      rw (exchanges, queues, bindings, links, bridges)
    where
      url : Str
      url = get_address fail

      newurl : Str
      newurl = get_address backup

      exchanges :
          copy_round
            (λ x. x.info)
            (λ x. broker_call {ObjectId = ObjectId} (copy_exchange x))
            url
            (copy_vec (λ x. x.info) duplicate_exchange url s.exchanges)
          ≡ copy_round (λ x. x.info) (λ x. broker_call (copy_exchange x)) url s.exchanges
      exchanges = copy_round-copy_vec _ _ _ _ url s.exchanges (λ x. refl) (λ x h. refl)

      queues :
          copy_round
            (λ x. x.info)
            (λ x. broker_call {ObjectId = ObjectId} (copy_queue x))
            url
            (copy_vec (λ x. x.info) duplicate_queue url s.queues)
          ≡ copy_round (λ x. x.info) (λ x. broker_call (copy_queue x)) url s.queues
      queues = copy_round-copy_vec _ _ _ _ url s.queues (λ x. refl) (λ x h. refl)

      bindings :
          copy_round
            (λ x. x.info)
            (binding_actions id_eq
              (copy_vec (λ x. x.info) duplicate_exchange url s.exchanges)
              (copy_vec (λ x. x.info) duplicate_queue url s.queues))
            url
            (copy_vec (λ x. x.info) duplicate_binding url s.bindings)
          ≡ copy_round (λ x. x.info) (binding_actions id_eq s.exchanges s.queues) url s.bindings
      bindings =
          copy_round-copy_vec _ _ _ _ url s.bindings (λ x. refl)
            (own_bindings s.exchanges s.queues url)

      links :
          copy_round
            (λ x. x.info)
            (link_actions down newurl)
            url
            (copy_vec (λ x. x.info) duplicate_link url s.links)
          ≡ copy_round (λ x. x.info) (link_actions down newurl) url s.links
      links = copy_round-copy_vec _ _ _ _ url s.links (λ x. refl) (λ x h. refl)

      bridges :
          copy_round
            (λ x. x.info)
            (bridge_actions id_eq
              (copy_vec (λ x. x.info) duplicate_link url s.links)
              linkobjs
              newurl
              unchanged)
            url
            (copy_vec (λ x. x.info) duplicate_bridge url s.bridges)
          ≡ copy_round
              (λ x. x.info)
              (bridge_actions id_eq s.links linkobjs newurl unchanged)
              url
              s.bridges
      bridges =
          copy_round-copy_vec _ _ _ _ url s.bridges (λ x. refl)
            (own_bridges s.links linkobjs newurl url)

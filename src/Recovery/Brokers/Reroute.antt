-- ===== src/Recovery/Brokers/Reroute.antt =====
-- What reroute asks the source broker to do.
use mathlib.Core.List.{Memᴰ}
use mathlib.Core.List.Memᴰ
use qpidrecovery.Base.{
  ℕ, ◌≡◌, ◌⊎◌, inl, inr, refl, sym, ap, ◌∙◌, Bool, ◌&&◌, some, List, [], ◌∷◌, ◌++◌, arith,
  Bool-cases, Option-cases,
}
use qpidrecovery.Text.{Str, str_eq, str_eq_iff}
use qpidrecovery.Address.{BrokerAddress, ip_port_to_url}
use qpidrecovery.Broker.Types.{obj_broker}
use qpidrecovery.Broker.Info.{
  Object, ObjectInfo, LinkInfo, BridgeInfo, get_link_dest_url, link_object_dest,
}
use qpidrecovery.Broker.Operator.{Invocation, add_link, copy_bridge, copy_to_new_dest}
use qpidrecovery.Recovery.Copy.{
  Action, on_broker, broker_call, link_call, copy_round, find_link, find_link_object, redirect,
  bridge_actions, copy_bridges,
}
use qpidrecovery.Recovery.Brokers.{
  Manager, when_any, get_broker_index, add_broker_thread, add_broker, find_route, reroute_calls,
  reroute,
}

mem_of_append : {A : Type 0} {c : A} (xs ys : List A) → Memᴰ c (xs ++ ys) → Memᴰ c xs ⊎ Memᴰ c ys
mem_of_append [] ys m = inr m
mem_of_append (x ∷ xs) ys m = elim (Memᴰ.cases_cons m) [
  | inl e ↦ inl (Memᴰ.head e)
  | inr n ↦ elim (mem_of_append xs ys n) [ inl k ↦ inl (Memᴰ.tail k) | inr k ↦ inr k ]
]

module _ {ObjectId : Type 0} where
  mem_of_copy_round :
      {A : Type 0} (key : A → ObjectInfo ObjectId) (act : A → List (Action ObjectId)) (url : Str)
      (xs : List A) (c : Action ObjectId)
      → Memᴰ c (copy_round key act url xs)
      → (x : A) × Memᴰ x xs × (url ≡ (key x).brokerurl) × Memᴰ c (act x)
  unfolding copy_round
  mem_of_copy_round key act url [] c m = absurd (Memᴰ.not-nil m)
  mem_of_copy_round key act url (x ∷ xs) c m = elim (Bool-cases (str_eq url (key x).brokerurl)) [
    | inl e ↦ elim (mem_of_append (act x) _ (rw e at m)) [
      | inl n ↦ (x, Memᴰ.head refl, (str_eq_iff url (key x).brokerurl).0 e, n)
      | inr n ↦ let (y, k, u, n') = mem_of_copy_round key act url xs c n in (y, Memᴰ.tail k, u, n')
    ]
    | inr e ↦
        let (y, k, u, n') = mem_of_copy_round key act url xs c (rw e at m) in
        (y, Memᴰ.tail k, u, n')
  ]

  link_of_find :
      (src target : Str) (os : List (Object ObjectId)) (o : Object ObjectId)
      → find_link_object src target os ≡ some o
      → (o.broker_url ≡ src) × (link_object_dest o ≡ target)
  unfolding find_link_object
  link_of_find src target [] o h = absurd (ground arith)
  link_of_find src target (x ∷ os) o h =
      elim (Bool-cases (str_eq x.broker_url src && str_eq (link_object_dest x) target)) [
        | inl e ↦
            let p : x ≡ o = ground arith in
            (
              sym (ap (λ z. z.broker_url) p) ∙ (str_eq_iff x.broker_url src).0 (ground arith),
              sym (ap link_object_dest p)
                  ∙ (str_eq_iff (link_object_dest x) target).0 (ground arith),
            )
        | inr e ↦ link_of_find src target os o (ground arith)
      ]

module _ {ObjectId : Type 0} (id_eq : ObjectId → ObjectId → Bool) where
  -- What a call of a rerouted bridge is: copyTo on a link object that leads from the source to the
  -- new destination, for a recorded bridge of the source whose link led to the old one.
  abbrev pub IsRerouted :
      Str
      → Str
      → Str
      → List (LinkInfo ObjectId)
      → List (BridgeInfo ObjectId)
      → Action ObjectId
      → Type 0
  IsRerouted srcurl oldurl newurl links bridges c =
      (b : BridgeInfo ObjectId) × (l : LinkInfo ObjectId) × (o : Object ObjectId) × Memᴰ b bridges
      × (b.info.brokerurl ≡ srcurl)
      × (find_link id_eq b.info.brokerurl b.linkid links ≡ some l)
      × (get_link_dest_url l ≡ oldurl)
      × (o.broker_url ≡ srcurl)
      × (link_object_dest o ≡ newurl)
      × Memᴰ c (link_call o (copy_bridge b))

  rerouted_bridge :
      (srcurl oldurl newurl : Str) (links : List (LinkInfo ObjectId))
      (linkobjs : List (Object ObjectId)) (b : BridgeInfo ObjectId) (c : Action ObjectId)
      → Memᴰ c (bridge_actions id_eq links linkobjs srcurl (redirect oldurl newurl) b)
      → (l : LinkInfo ObjectId) × (o : Object ObjectId) × (find_link id_eq b.info.brokerurl b.linkid
            links
          ≡ some l)
        × (get_link_dest_url l ≡ oldurl)
        × (o.broker_url ≡ srcurl)
        × (link_object_dest o ≡ newurl)
        × Memᴰ c (link_call o (copy_bridge b))
  unfolding bridge_actions
  rerouted_bridge srcurl oldurl newurl links linkobjs b c m =
      elim (Option-cases (find_link id_eq b.info.brokerurl b.linkid links)) [
        | inl e ↦ absurd (Memᴰ.not-nil (rw (e, bridge_actions) at m))
        | inr (l, e) ↦ elim (Bool-cases (str_eq oldurl (get_link_dest_url l))) [
          | inl f ↦ elim (Option-cases (find_link_object srcurl newurl linkobjs)) [
            | inl g ↦ absurd (Memᴰ.not-nil (rw g at (rw f at (rw (e, bridge_actions) at m))))
            | inr (o, g) ↦
                let (u, d) = link_of_find srcurl newurl linkobjs o g in
                (
                  l,
                  o,
                  e,
                  sym ((str_eq_iff oldurl (get_link_dest_url l)).0 f),
                  u,
                  d,
                  rw g at (rw f at (rw (e, bridge_actions) at m)),
                )
          ]
          | inr f ↦ absurd (Memᴰ.not-nil (rw f at (rw (e, bridge_actions) at m)))
        ]
      ]

  rerouted :
      (srcurl oldurl newurl : Str) (links : List (LinkInfo ObjectId))
      (bridges : List (BridgeInfo ObjectId)) (linkobjs : List (Object ObjectId))
      (c : Action ObjectId)
      → Memᴰ c (copy_bridges id_eq links bridges linkobjs srcurl srcurl (redirect oldurl newurl))
      → IsRerouted srcurl oldurl newurl links bridges c
  unfolding copy_bridges
  rerouted srcurl oldurl newurl links bridges linkobjs c m =
      let (b, mb, u, n) = mem_of_copy_round (λ x. x.info) _ srcurl bridges c m in
      let (l, o, e, d, v, w, k) = rerouted_bridge srcurl oldurl newurl links linkobjs b c n in
      (b, l, o, mb, sym u, e, d, v, w, k)

  store_of_add_broker :
      (pointer : ℕ) (answers : Str → List (Object ObjectId)) (ba : BrokerAddress)
      (m : Manager ObjectId)
      → (add_broker pointer answers ba m).store ≡ m.store
  unfolding add_broker add_broker_thread
  store_of_add_broker pointer answers ba m = elim (Option-cases (get_broker_index ba m.bavec)) [
    | inl e ↦ rw (e, add_broker) refl
    | inr (i, e) ↦ rw (e, add_broker) refl
  ]

  first_object :
      (os : List (Object ObjectId)) (x : List (Action ObjectId)) (acts : List (Action ObjectId))
      → when_any os x ≡ some acts
      → acts ≡ x
  first_object [] x acts h = absurd (ground arith)
  first_object (o ∷ os) x acts h = ground arith

  calls_of_reroute :
      (pointer : ℕ) (answers : Str → List (Object ObjectId))
      (brokerobjs linkobjs : List (Object ObjectId)) (src old new : BrokerAddress)
      (m : Manager ObjectId) (acts : List (Action ObjectId))
      → (reroute id_eq pointer answers brokerobjs linkobjs src old new m).1 ≡ some acts
      → (l : LinkInfo ObjectId) × (acts
          ≡ broker_call (copy_to_new_dest l new.ip new.port)
            ++ copy_bridges id_eq m.store.links m.store.bridges linkobjs
                (ip_port_to_url src.ip src.port)
                (ip_port_to_url src.ip src.port)
                (redirect (ip_port_to_url old.ip old.port) (ip_port_to_url new.ip new.port)))
  unfolding reroute reroute_calls
  calls_of_reroute pointer answers brokerobjs linkobjs src old new m acts h =
      elim (Option-cases (find_route srcurl oldurl n.store.links)) [
        | inl e ↦ absurd (ground (arith, rw (e, reroute) at h))
        | inr (l, e) ↦ elim (Option-cases (get_broker_index src n.bavec)) [
          | inl f ↦ absurd (ground (arith, rw f at (rw (e, reroute) at h)))
          | inr (i, f) ↦ (
            l,
            rw (sym (store_of_add_broker pointer answers src m))
                (first_object brokerobjs _ acts (rw f at (rw (e, reroute) at h))),
          )
        ]
      ]
    where
      n : Manager ObjectId
      n = add_broker pointer answers src m

      srcurl : Str
      srcurl = ip_port_to_url src.ip src.port

      oldurl : Str
      oldurl = ip_port_to_url old.ip old.port

  -- When reroute makes calls, they begin with addLink to the new destination, and every later one
  -- is copyTo of a recorded bridge of the source whose link led to the old destination, on a link
  -- object that leads from the source to the new one.
  pub reroute_lem :
      (pointer : ℕ) (answers : Str → List (Object ObjectId))
      (brokerobjs linkobjs : List (Object ObjectId)) (src old new : BrokerAddress)
      (m : Manager ObjectId) (acts : List (Action ObjectId))
      → (reroute id_eq pointer answers brokerobjs linkobjs src old new m).1 ≡ some acts
      → (i : Invocation) × (later : List (Action ObjectId)) × (add_link obj_broker new.ip new.port
          ≡ some i)
        × (acts ≡ on_broker i ∷ later)
        × ((c : Action ObjectId)
            → Memᴰ c later
            → IsRerouted
                (ip_port_to_url src.ip src.port)
                (ip_port_to_url old.ip old.port)
                (ip_port_to_url new.ip new.port)
                m.store.links
                m.store.bridges
                c)
  unfolding copy_to_new_dest add_link
  reroute_lem pointer answers brokerobjs linkobjs src old new m acts h =
      let (l, e) = calls_of_reroute pointer answers brokerobjs linkobjs src old new m acts h in
      (_, _, refl, e, λ c k. rerouted _ _ _ m.store.links m.store.bridges linkobjs c k)

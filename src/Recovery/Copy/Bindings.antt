-- ===== src/Recovery/Copy/Bindings.antt =====
-- What a recovered binding rests on.
use mathlib.Core.List.{Memᴰ, append_assoc}
use mathlib.Core.List.Memᴰ
use mathlib.Core.Path.{subst}
use qpidrecovery.Base.{
  ◌≡◌, refl, sym, ap, ◌∙◌, Bool, true, false, Option, some, List, [], ◌∷◌, ◌++◌, arith, Bool-cases,
  inl, inr, Option-cases,
}
use qpidrecovery.Text.{Str, str_eq, str_eq_iff}
use qpidrecovery.Address.{BrokerAddress, get_address}
use qpidrecovery.Broker.Info.{
  Object, ObjectInfo, ExchangeInfo, QueueInfo, BindingInfo, has_key, set_binding_names,
  find_exchange, find_queue,
}
use qpidrecovery.Broker.Operator.{
  Invocation, copy_exchange, copy_queue, copy_binding, add_binding, add_exchange, add_queue,
}
use qpidrecovery.Recovery.Ignored.{is_ignored_name}
use qpidrecovery.Recovery.Store.{Store}
use qpidrecovery.Recovery.Store.Names.{IsShown, All-mem}
use qpidrecovery.Recovery.Copy.{
  Action, on_broker, broker_call, copy_round, binding_actions, link_actions, unchanged,
  copy_bridges, copy_objects,
}
use qpidrecovery.Recovery.Copy.Calls.{copy_objects_calls}

-- The call is made, and is one of the actions.
abbrev pub Performs : {ObjectId : Type 0} → List (Action ObjectId) → Option Invocation → Type 0
Performs acts call = (i : Invocation) × (call ≡ some i) × Memᴰ (on_broker i) acts

module _ {ObjectId : Type 0} where
  mem-copy_round :
      {A : Type 0} (key : A → ObjectInfo ObjectId) (act : A → List (Action ObjectId)) (url : Str)
      (x : A) (a : Action ObjectId) (xs : List A)
      → Memᴰ x xs
      → (key x).brokerurl ≡ url
      → Memᴰ a (act x)
      → Memᴰ a (copy_round key act url xs)
  unfolding copy_round
  mem-copy_round key act url x a [] m e n = absurd (Memᴰ.not-nil m)
  mem-copy_round key act url x a (y ∷ ys) m e n = elim (Memᴰ.cases_cons m) [
    | inl p ↦
        rw
          ((str_eq_iff url (key y).brokerurl).1 (sym e ∙ ap (λ z. (key z).brokerurl) p), copy_round)
          (Memᴰ.append_left _ (subst (λ z. Memᴰ a (act z)) p n))
    | inr k ↦ elim (Bool-cases (str_eq url (key y).brokerurl)) [
      | inl p ↦
          rw (p, copy_round) (Memᴰ.append_right (act y) (mem-copy_round key act url x a ys k e n))
      | inr p ↦ rw (p, copy_round) (mem-copy_round key act url x a ys k e n)
    ]
  ]

module _ {ObjectId : Type 0} (id_eq : ObjectId → ObjectId → Bool) where
  url_of_key :
      (oid : ObjectId) (url : Str) (o : ObjectInfo ObjectId)
      → has_key id_eq oid url o ≡ true
      → o.brokerurl ≡ url
  unfolding has_key
  url_of_key oid url o h = ground (arith, (str_eq_iff o.brokerurl url).0)

  id_of_key :
      (oid : ObjectId) (url : Str) (o : ObjectInfo ObjectId)
      → has_key id_eq oid url o ≡ true
      → id_eq o.objectid oid ≡ true
  unfolding has_key
  id_of_key oid url o h = ground arith

  -- An object of the broker with this url and this identifier.
  abbrev pub IsObject : ObjectId → Str → ObjectInfo ObjectId → Type 0
  IsObject oid url o = (id_eq o.objectid oid ≡ true) × (o.brokerurl ≡ url)

  key-IsObject :
      (oid : ObjectId) (url : Str) (o : ObjectInfo ObjectId)
      → has_key id_eq oid url o ≡ true
      → IsObject oid url o
  key-IsObject oid url o h = (id_of_key oid url o h, url_of_key oid url o h)

  mem_of_find_exchange :
      (oid : ObjectId) (url : Str) (e : ExchangeInfo ObjectId) (xs : List (ExchangeInfo ObjectId))
      → find_exchange id_eq oid url xs ≡ some e
      → Memᴰ e xs × IsObject oid url e.info
  unfolding find_exchange
  mem_of_find_exchange oid url e [] h = absurd (ground arith)
  mem_of_find_exchange oid url e (x ∷ xs) h = elim (Bool-cases (has_key id_eq oid url x.info)) [
    | inl p ↦
        let q : x ≡ e = ground arith in
        (Memᴰ.head (sym q), subst (λ z. IsObject oid url z.info) q (key-IsObject oid url x.info p))
    | inr p ↦ (let (m, u) = mem_of_find_exchange oid url e xs (ground arith) in (Memᴰ.tail m, u))
  ]

  mem_of_find_queue :
      (oid : ObjectId) (url : Str) (q : QueueInfo ObjectId) (xs : List (QueueInfo ObjectId))
      → find_queue id_eq oid url xs ≡ some q
      → Memᴰ q xs × IsObject oid url q.info
  unfolding find_queue
  mem_of_find_queue oid url q [] h = absurd (ground arith)
  mem_of_find_queue oid url q (x ∷ xs) h = elim (Bool-cases (has_key id_eq oid url x.info)) [
    | inl p ↦
        let r : x ≡ q = ground arith in
        (Memᴰ.head (sym r), subst (λ z. IsObject oid url z.info) r (key-IsObject oid url x.info p))
    | inr p ↦ (let (m, u) = mem_of_find_queue oid url q xs (ground arith) in (Memᴰ.tail m, u))
  ]

  -- What was found for a binding that set_binding_names resolves.
  found_of_names :
      (exs : List (ExchangeInfo ObjectId)) (qus : List (QueueInfo ObjectId))
      (b named : BindingInfo ObjectId)
      → set_binding_names id_eq exs qus b ≡ (named, true)
      → (e : ExchangeInfo ObjectId) × (q : QueueInfo ObjectId) × (find_exchange id_eq b.exid
            b.info.brokerurl exs
          ≡ some e)
        × (find_queue id_eq b.quid b.info.brokerurl qus ≡ some q)
        × (named ≡ record b { exname = e.name; quname = q.name })
  unfolding set_binding_names
  found_of_names exs qus b named h =
      elim (Option-cases (find_exchange id_eq b.exid b.info.brokerurl exs)) [
        | inl x ↦ absurd (ground arith)
        | inr (e, x) ↦ elim (Option-cases (find_queue id_eq b.quid b.info.brokerurl qus)) [
          | inl y ↦ absurd (ground arith)
          | inr (q, y) ↦ (e, q, x, y, ground arith)
        ]
      ]

  exchange_performed :
      (e : ExchangeInfo ObjectId) (url : Str) (xs : List (ExchangeInfo ObjectId))
      → Memᴰ e xs
      → e.info.brokerurl ≡ url
      → Performs
          (copy_round
            (λ x. x.info)
            (λ x. broker_call {ObjectId = ObjectId} (copy_exchange x))
            url
            xs)
          (copy_exchange e)
  unfolding copy_exchange add_exchange
  exchange_performed e url xs m u =
      (_, refl, mem-copy_round (λ x. x.info) _ url e _ xs m u (Memᴰ.head refl))

  queue_performed :
      (q : QueueInfo ObjectId) (url : Str) (xs : List (QueueInfo ObjectId))
      → Memᴰ q xs
      → q.info.brokerurl ≡ url
      → Performs
          (copy_round (λ x. x.info) (λ x. broker_call {ObjectId = ObjectId} (copy_queue x)) url xs)
          (copy_queue q)
  unfolding copy_queue add_queue
  queue_performed q url xs m u =
      (_, refl, mem-copy_round (λ x. x.info) _ url q _ xs m u (Memᴰ.head refl))

  binding_performed :
      (exs : List (ExchangeInfo ObjectId)) (qus : List (QueueInfo ObjectId))
      (b named : BindingInfo ObjectId) (url : Str) (bs : List (BindingInfo ObjectId))
      → Memᴰ b bs
      → b.info.brokerurl ≡ url
      → set_binding_names id_eq exs qus b ≡ (named, true)
      → Performs
          (copy_round (λ x. x.info) (binding_actions id_eq exs qus) url bs)
          (copy_binding named)
  unfolding copy_binding add_binding binding_actions
  binding_performed exs qus b named url bs m u h =
      (_, refl, mem-copy_round (λ x. x.info) _ url b _ bs m u (rw h (Memᴰ.head refl)))

  Performs-append_left :
      (xs ys : List (Action ObjectId)) (c : Option Invocation)
      → Performs xs c
      → Performs (xs ++ ys) c
  Performs-append_left xs ys c (i, e, m) = (i, e, Memᴰ.append_left ys m)

  Performs-append_right :
      (xs ys : List (Action ObjectId)) (c : Option Invocation)
      → Performs ys c
      → Performs (xs ++ ys) c
  Performs-append_right xs ys c (i, e, m) = (i, e, Memᴰ.append_right xs m)

  -- A recovery makes the call for every recorded binding of the failed broker whose names can be
  -- resolved, with the names of a recorded exchange and a recorded queue of this broker that have the
  -- identifiers that the binding refers to, after the calls for these two; and neither of the names is
  -- ignored, so a binding to an exchange of an ignored name is never recovered. (There is
  -- one broker object on the backup, and no recorded name is ignored.)
  pub binding_recovered :
      (down : Str → Bool) (o : Object ObjectId) (linkobjs : List (Object ObjectId))
      (fail backup : BrokerAddress) (s : Store ObjectId) (b named : BindingInfo ObjectId)
      → IsShown s
      → Memᴰ b s.bindings
      → b.info.brokerurl ≡ get_address fail
      → set_binding_names id_eq s.exchanges s.queues b ≡ (named, true)
      → (pre : List (Action ObjectId)) × (post : List (Action ObjectId)) × (e : ExchangeInfo
          ObjectId)
        × (q : QueueInfo ObjectId) × (copy_objects id_eq down (o ∷ []) linkobjs fail backup s
            ≡ some (pre ++ post))
        × Memᴰ e s.exchanges
        × IsObject b.exid (get_address fail) e.info
        × Memᴰ q s.queues
        × IsObject b.quid (get_address fail) q.info
        × (named ≡ record b { exname = e.name; quname = q.name })
        × Performs pre (copy_exchange e)
        × Performs pre (copy_queue q)
        × Performs post (copy_binding named)
        × (is_ignored_name e.name ≡ false)
        × (is_ignored_name q.name ≡ false)
  binding_recovered down o linkobjs fail backup s b named shown m u h =
      let (e, q, x, y, n) = found_of_names s.exchanges s.queues b named h in
      let (me, ue) = mem_of_find_exchange b.exid b.info.brokerurl e s.exchanges x in
      let (mq, uq) = mem_of_find_queue b.quid b.info.brokerurl q s.queues y in
      (
        exs ++ qus,
        rest,
        e,
        q,
        copy_objects_calls id_eq down o linkobjs fail backup s
            ∙ ap some (sym (append_assoc exs qus rest)),
        me,
        (ue.0, ue.1 ∙ u),
        mq,
        (uq.0, uq.1 ∙ u),
        n,
        Performs-append_left exs qus (copy_exchange e)
            (exchange_performed e url s.exchanges me (ue.1 ∙ u)),
        Performs-append_right exs qus (copy_queue q) (queue_performed q url s.queues mq (uq.1 ∙ u)),
        Performs-append_left bis _ (copy_binding named)
            (binding_performed s.exchanges s.queues b named url s.bindings m u h),
        All-mem _ s.exchanges shown.exchanges me,
        All-mem _ s.queues shown.queues mq,
      )
    where
      url : Str
      url = get_address fail

      exs : List (Action ObjectId)
      exs = copy_round (λ x. x.info) (λ x. broker_call (copy_exchange x)) url s.exchanges

      qus : List (Action ObjectId)
      qus = copy_round (λ x. x.info) (λ x. broker_call (copy_queue x)) url s.queues

      bis : List (Action ObjectId)
      bis = copy_round (λ x. x.info) (binding_actions id_eq s.exchanges s.queues) url s.bindings

      rest : List (Action ObjectId)
      rest =
          bis
          ++ (copy_round (λ x. x.info) (link_actions down (get_address backup)) url s.links
              ++ copy_bridges id_eq s.links s.bridges linkobjs url (get_address backup) unchanged)

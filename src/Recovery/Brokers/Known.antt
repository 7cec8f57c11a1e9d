-- ===== src/Recovery/Brokers/Known.antt =====
-- The known brokers as a set of addresses.
use qpidrecovery.Base.{
  ℕ, ◌≡◌, refl, sym, ap, ◌∙◌, Bool, true, false, not, ◌&&◌, ◌||◌, Option, none, some, List, [], ◌∷◌,
  ◌++◌, if◌then◌else◌, arith, Bool-cases, Option-cases, inl, inr,
}
use qpidrecovery.Text.{Str}
use qpidrecovery.Address.{BrokerAddress, address_eq}
use qpidrecovery.Address.RoundTrip.{address_eq_iff}
use qpidrecovery.Broker.Info.{Object}
use qpidrecovery.Recovery.Brokers.{
  BrokerAddressPair, Manager, get_broker_index, erase, add_broker, add_broker_thread, delete_broker,
}

-- operator== of addresses, against equality.
eq_of_address_eq : (a b : BrokerAddress) → address_eq a b ≡ true → a ≡ b
eq_of_address_eq a b h =
    let (i, p) = (address_eq_iff a b).0 h in λ k. record { ip = i k; port = p k }

address_eq_refl : (a : BrokerAddress) → address_eq a a ≡ true
address_eq_refl a = (address_eq_iff a a).1 (refl, refl)

address_eq-sym : (a b : BrokerAddress) → address_eq a b ≡ address_eq b a
address_eq-sym a b = elim (Bool-cases (address_eq a b)) [
  | inl e ↦ ground (arith, eq_of_address_eq a b e, address_eq_refl a)
  | inr e ↦ elim (Bool-cases (address_eq b a)) [
    | inl f ↦ ground (arith, eq_of_address_eq b a f, address_eq_refl a)
    | inr f ↦ e ∙ sym f
  ]
]

abbrev pub is_some : Option ℕ → Bool
is_some none = false
is_some (some i) = true

-- getBrokerIndexByAddress finds it.
abbrev pub knows : BrokerAddress → List BrokerAddressPair → Bool
knows ba v = is_some (get_broker_index ba v)

abbrev pub Distinct : List BrokerAddressPair → Type 0
Distinct [] = Unit
Distinct (x ∷ xs) = (knows x.address xs ≡ false) × Distinct xs

-- The vector without the first entry of an address.
without : BrokerAddress → List BrokerAddressPair → List BrokerAddressPair
without ba [] = []
without ba (x ∷ xs) = if address_eq x.address ba then xs else x ∷ without ba xs

erase_at :
    (ba : BrokerAddress) (v : List BrokerAddressPair) (i : ℕ)
    → get_broker_index ba v ≡ some i
    → erase i v ≡ without ba v
unfolding get_broker_index erase without
erase_at ba [] i h = absurd (ground arith)
erase_at ba (x ∷ xs) i h = elim (Bool-cases (address_eq x.address ba)) [
  | inl e ↦ ground arith
  | inr e ↦ elim (Option-cases (get_broker_index ba xs)) [
    | inl f ↦ absurd (ground arith)
    | inr (j, f) ↦ ground (arith, erase_at ba xs j f)
  ]
]

knows-cons :
    (ba : BrokerAddress) (x : BrokerAddressPair) (xs : List BrokerAddressPair)
    → knows ba (x ∷ xs) ≡ (if address_eq x.address ba then true else knows ba xs)
unfolding get_broker_index
knows-cons ba x xs = ground arith

knows-append :
    (ba : BrokerAddress) (v : List BrokerAddressPair) (x : BrokerAddressPair)
    → knows ba (v ++ (x ∷ [])) ≡ (if knows ba v then true else address_eq x.address ba)
unfolding get_broker_index
knows-append ba [] x = ground arith
knows-append ba (y ∷ v) x = ground (arith, knows-append ba v x)

Distinct-append :
    (v : List BrokerAddressPair) (x : BrokerAddressPair)
    → Distinct v
    → knows x.address v ≡ false
    → Distinct (v ++ (x ∷ []))
unfolding get_broker_index
Distinct-append [] x h k = (refl, tt)
Distinct-append (y ∷ v) x h k = (
  ground (
    arith,
    knows-append y.address v x,
    knows-cons x.address y v,
    address_eq-sym x.address y.address,
    h.0,
  ),
  Distinct-append v x h.1 (ground (arith, knows-cons x.address y v)),
)

bavec_of_known :
    {ObjectId : Type 0} (pointer : ℕ) (answers : Str → List (Object ObjectId)) (ba : BrokerAddress)
    (m : Manager ObjectId) (i : ℕ)
    → get_broker_index ba m.bavec ≡ some i
    → (add_broker pointer answers ba m).bavec ≡ m.bavec
unfolding add_broker
bavec_of_known pointer answers ba m i e = rw (e, add_broker) refl

bavec_of_unknown :
    {ObjectId : Type 0} (pointer : ℕ) (answers : Str → List (Object ObjectId)) (ba : BrokerAddress)
    (m : Manager ObjectId)
    → get_broker_index ba m.bavec ≡ none
    → (add_broker pointer answers ba m).bavec
      ≡ m.bavec ++ (record { address = ba; pointer = pointer } ∷ [])
unfolding add_broker add_broker_thread
bavec_of_unknown pointer answers ba m e = rw (e, add_broker, add_broker_thread) refl

add_broker_lem :
    {ObjectId : Type 0} (pointer : ℕ) (answers : Str → List (Object ObjectId)) (ba : BrokerAddress)
    (m : Manager ObjectId)
    → Distinct m.bavec
    → Distinct (add_broker pointer answers ba m).bavec
      × ((b : BrokerAddress)
          → knows b (add_broker pointer answers ba m).bavec ≡ (knows b m.bavec || address_eq ba b))
add_broker_lem pointer answers ba m h = elim (Option-cases (get_broker_index ba m.bavec)) [
  | inl e ↦ rw (bavec_of_unknown pointer answers ba m e) (
    Distinct-append m.bavec _ h (ap is_some e),
    λ b. ground (arith, knows-append b m.bavec (record { address = ba; pointer = pointer })),
  )
  | inr (i, e) ↦ rw (bavec_of_known pointer answers ba m i e) (
    h,
    λ b. elim (Bool-cases (address_eq ba b)) [
      | inl f ↦ ground (arith, ap is_some e, ap (λ x. knows x m.bavec) (eq_of_address_eq ba b f))
      | inr f ↦ ground arith
    ],
  )
]

knows-without :
    (ba b : BrokerAddress) (v : List BrokerAddressPair)
    → Distinct v
    → knows b (without ba v) ≡ (knows b v && not (address_eq ba b))
unfolding without get_broker_index
knows-without ba b [] h = ground arith
knows-without ba b (x ∷ v) h = elim (Bool-cases (address_eq x.address ba)) [
  | inl e ↦
      let p = eq_of_address_eq x.address ba e in
      rw e (elim (Bool-cases (address_eq ba b)) [
        | inl f ↦ ground (arith, h.0, ap (λ z. knows z v) (p ∙ eq_of_address_eq ba b f))
        | inr f ↦ ground (arith, knows-cons b x v, ap (λ z. address_eq z b) p)
      ])
  | inr e ↦ rw e (elim (Bool-cases (address_eq x.address b)) [
    | inl f ↦ ground (
      arith,
      knows-cons b x v,
      knows-cons b x (without ba v),
      address_eq-sym x.address ba,
      ap (address_eq ba) (eq_of_address_eq x.address b f),
    )
    | inr f ↦
        ground (arith, knows-cons b x v, knows-cons b x (without ba v), knows-without ba b v h.1)
  ])
]

Distinct-without :
    (ba : BrokerAddress) (v : List BrokerAddressPair) → Distinct v → Distinct (without ba v)
unfolding without
Distinct-without ba [] h = tt
Distinct-without ba (x ∷ v) h = elim (Bool-cases (address_eq x.address ba)) [
  | inl e ↦ rw e h.1
  | inr e ↦ rw e (ground (arith, knows-without ba x.address v h.1, h.0), Distinct-without ba v h.1)
]

without_unknown :
    (ba : BrokerAddress) (v : List BrokerAddressPair) → knows ba v ≡ false → without ba v ≡ v
unfolding without
without_unknown ba [] h = refl
without_unknown ba (x ∷ v) h = ground (arith, knows-cons ba x v, without_unknown ba v)

delete_is_without :
    {ObjectId : Type 0} (ba : BrokerAddress) (m : Manager ObjectId)
    → (delete_broker ba m).bavec ≡ without ba m.bavec
unfolding delete_broker
delete_is_without ba m = elim (Option-cases (get_broker_index ba m.bavec)) [
  | inl e ↦ rw (e, delete_broker) (sym (without_unknown ba m.bavec (ap is_some e)))
  | inr (i, e) ↦ rw (e, delete_broker) (erase_at ba m.bavec i e)
]

delete_broker_lem :
    {ObjectId : Type 0} (ba : BrokerAddress) (m : Manager ObjectId)
    → Distinct m.bavec
    → Distinct (delete_broker ba m).bavec
      × ((b : BrokerAddress)
          → knows b (delete_broker ba m).bavec ≡ (knows b m.bavec && not (address_eq ba b)))
delete_broker_lem ba m h =
    rw (delete_is_without ba m) (Distinct-without ba m.bavec h, λ b. knows-without ba b m.bavec h)

-- If the known addresses are pairwise different, addBroker makes exactly the given address known, if
-- it was not, and deleteBroker makes exactly the given address unknown; both leave the known
-- addresses pairwise different.
pub brokers_known :
    {ObjectId : Type 0} (pointer : ℕ) (answers : Str → List (Object ObjectId)) (ba : BrokerAddress)
    (m : Manager ObjectId)
    → Distinct m.bavec
    → Distinct (add_broker pointer answers ba m).bavec
      × ((b : BrokerAddress)
          → knows b (add_broker pointer answers ba m).bavec ≡ (knows b m.bavec || address_eq ba b))
      × Distinct (delete_broker ba m).bavec
      × ((b : BrokerAddress)
          → knows b (delete_broker ba m).bavec ≡ (knows b m.bavec && not (address_eq ba b)))
brokers_known pointer answers ba m h =
    let (a, b) = add_broker_lem pointer answers ba m h in
    let (c, d) = delete_broker_lem ba m h in (a, b, c, d)

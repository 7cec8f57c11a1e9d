-- ===== src/Recovery/Store/Names.antt =====
-- The names of the recorded exchanges and queues.
use mathlib.Core.List.{Memᴰ}
use mathlib.Core.List.Memᴰ
use qpidrecovery.Base.{◌≡◌, Bool, false, List, [], ◌∷◌, All, Bool-cases, inl, inr}
use qpidrecovery.Broker.Info.{
  ObjectInfo, ExchangeInfo, QueueInfo, AnyInfo, exchange, queue, info_eq,
}
use qpidrecovery.Recovery.Ignored.{is_ignored_name}
use qpidrecovery.Recovery.Store.{Store, put, add_object_info}

-- No recorded exchange or queue has an ignored name.
pub record IsShown {ObjectId : Type 0} (s : Store ObjectId) : Type 0 where
  pub exchanges : All (λ (e : ExchangeInfo ObjectId). is_ignored_name e.name ≡ false) s.exchanges
  pub queues : All (λ (q : QueueInfo ObjectId). is_ignored_name q.name ≡ false) s.queues

pub All-mem : {A : Type 0} (P : A → Type 0) {x : A} (xs : List A) → All P xs → Memᴰ x xs → P x
All-mem P [] h m = absurd (Memᴰ.not-nil m)
All-mem P (y ∷ ys) h m = elim (Memᴰ.cases_cons m) [ inl e ↦ rw e h.0 | inr n ↦ All-mem P ys h.1 n ]

module _ {ObjectId : Type 0} (id_eq : ObjectId → ObjectId → Bool) where
  All-put :
      {A : Type 0} (P : A → Type 0) (key : A → ObjectInfo ObjectId) (x : A) (ys : List A)
      → P x
      → All P ys
      → All P (put id_eq key x ys)
  unfolding put
  All-put P key x [] h k = (h, tt)
  All-put P key x (y ∷ ys) h k = elim (Bool-cases (info_eq id_eq (key y) (key x))) [
    | inl e ↦ rw e (h, k.1)
    | inr e ↦ rw e (k.0, All-put P key x ys h k.1)
  ]

  -- addObjectInfo never records an exchange or a queue of an ignored name.
  add_object_info-IsShown :
      (x : AnyInfo ObjectId) (s : Store ObjectId)
      → IsShown s
      → IsShown (add_object_info id_eq x s).0
  unfolding add_object_info
  add_object_info-IsShown (exchange x) s h = elim (Bool-cases (is_ignored_name x.name)) [
    | inl e ↦ rw e h
    | inr e ↦ rw e (record {
      exchanges = All-put _ (λ y. y.info) x s.exchanges e h.exchanges;
      queues = h.queues;
    })
  ]
  add_object_info-IsShown (queue x) s h = elim (Bool-cases (is_ignored_name x.name)) [
    | inl e ↦ rw e h
    | inr e ↦
        rw e (record {
          exchanges = h.exchanges;
          queues = All-put _ (λ y. y.info) x s.queues e h.queues;
        })
  ]
  add_object_info-IsShown _ s h = record { exchanges = h.exchanges; queues = h.queues }

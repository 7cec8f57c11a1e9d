-- ===== src/LinkDst/Living.antt =====
-- The counts of the living connections, and the changes that are reported.
use mathlib.Core.List.{Memᴰ}
use qpidrecovery.Base.{
  ℕ, suc, false, ◌+◌, ◌-◌, ◌≤◌, ◌<◌, ◌≡◌, refl, true, ◌&&◌, Option, none, some, List, [], ◌∷◌, ◌==◌,
  u32, u32_mod, All, arith, Bool-cases, inl, inr,
}
use qpidrecovery.Text.{Str, str_eq_iff, str_eq}
use qpidrecovery.Common.{ReplyAddress}
use qpidrecovery.Paxos.Message.{Fd}
use qpidrecovery.LinkDst.{
  AddressChange, read_entry, living, listens, forget, close_slots, read_address_change, changed,
}

-- The count of an entry covers its open sockets, and fits an unsigned.
abbrev pub IsCounted : AddressChange → Type 0
IsCounted e = (living e.sfd ≤ e.livingcount) × (e.livingcount < u32_mod)

living-forget :
    (fd : ℕ) (xs : List Fd) → listens fd xs ≡ true → living xs ≡ suc (living (forget fd xs))
unfolding living listens forget
living-forget fd [] h = absurd (ground arith)
living-forget fd (none ∷ xs) h = ground (arith, living-forget fd xs)
living-forget fd (some n ∷ xs) h = ground (arith, living-forget fd xs)

living-close_slots : (xs : List Fd) → living (close_slots xs) ≡ 0
unfolding living close_slots
living-close_slots [] = refl
living-close_slots (x ∷ xs) = living-close_slots xs

-- One open socket less, without a wrap.
count_step : (n k : ℕ) → suc k ≤ n → n < u32_mod → u32 (n + (u32_mod - 1)) ≡ n - 1
count_step n k h l = omega arith

read_entry-IsCounted :
    (fd : ℕ) (got : Option ReplyAddress) (e : AddressChange)
    → listens fd e.sfd ≡ true
    → IsCounted e
    → IsCounted (read_entry fd got e).entry
unfolding read_entry
read_entry-IsCounted fd none e h (k, l) =
    let p = living-forget fd e.sfd h in
    let q = count_step e.livingcount (living (forget fd e.sfd)) (omega (arith, p, k)) l in
    (omega (arith, p, q, k), omega (arith, q, l))
read_entry-IsCounted fd (some ra) e h (k, l) = elim (Bool-cases (str_eq e.name ra.name)) [
  | inl f ↦ elim (Bool-cases (str_eq e.oldip ra.ip && (e.oldport == ra.port))) [
    | inl g ↦ rw f (rw g (k, l))
    | inr g ↦ rw f (rw g (omega (arith, living-close_slots e.sfd), l))
  ]
  | inr f ↦ rw f (k, l)
]

-- readAddressChange keeps every count at or above the number of open sockets, so that the unsigned
-- livingcount is never decreased below 0, on errors included.
pub read_address_change-IsCounted :
    (fd : ℕ) (got : Option ReplyAddress) (es : List AddressChange)
    → All IsCounted es
    → All IsCounted (read_address_change fd got es).0
unfolding read_address_change
read_address_change-IsCounted fd got [] h = tt
read_address_change-IsCounted fd got (e ∷ es) h = elim (Bool-cases (listens fd e.sfd)) [
  | inl f ↦ rw f (read_entry-IsCounted fd got e f h.0, h.1)
  | inr f ↦ rw f (h.0, read_address_change-IsCounted fd got es h.1)
]

read_entry-changed :
    (fd : ℕ) (got : Option ReplyAddress) (e : AddressChange) (sip oip nip : Str)
    (sport oport nport : ℕ)
    → (read_entry fd got e).reading ≡ changed sip sport oip oport nip nport
    → (ra : ReplyAddress) × (got ≡ some ra)
      × (ra.ip ≡ nip)
      × (ra.port ≡ nport)
      × (e.name ≡ ra.name)
      × (e.srcip ≡ sip)
      × (e.srcport ≡ sport)
      × (e.oldip ≡ oip)
      × (e.oldport ≡ oport)
      × ((str_eq oip nip && (oport == nport)) ≡ false)
unfolding read_entry
read_entry-changed fd none e sip oip nip sport oport nport h = absurd (ground arith)
read_entry-changed fd (some ra) e sip oip nip sport oport nport h = (
  ra,
  refl,
  ground arith,
  ground arith,
  ground (arith, (str_eq_iff e.name ra.name).0),
  ground arith,
  ground arith,
  ground arith,
  ground arith,
  ground arith,
)

-- readAddressChange reports a change only for an entry that listens on the descriptor, by a reply
-- for the service of this entry, whose address it reports, and only if this differs from the old one.
pub read_address_change-changed :
    (fd : ℕ) (got : Option ReplyAddress) (es : List AddressChange) (sip oip nip : Str)
    (sport oport nport : ℕ)
    → (read_address_change fd got es).1 ≡ changed sip sport oip oport nip nport
    → (e : AddressChange) × (ra : ReplyAddress) × Memᴰ e es
      × (listens fd e.sfd ≡ true)
      × (got ≡ some ra)
      × (ra.ip ≡ nip)
      × (ra.port ≡ nport)
      × (e.name ≡ ra.name)
      × (e.srcip ≡ sip)
      × (e.srcport ≡ sport)
      × (e.oldip ≡ oip)
      × (e.oldport ≡ oport)
      × ((str_eq oip nip && (oport == nport)) ≡ false)
unfolding read_address_change
read_address_change-changed fd got [] sip oip nip sport oport nport h = absurd (ground arith)
read_address_change-changed fd got (e ∷ es) sip oip nip sport oport nport h =
    elim (Bool-cases (listens fd e.sfd)) [
      | inl f ↦
          let (ra, a, b, c, d, i, j, k, l, n) =
            read_entry-changed fd got e sip oip nip sport oport nport
              (rw (f, read_address_change) at h) in
          (e, ra, Memᴰ.head refl, f, a, b, c, d, i, j, k, l, n)
      | inr f ↦
          let (e', ra, m, g, a, b, c, d, i, j, k, l, n) =
            read_address_change-changed fd got es sip oip nip sport oport nport
              (rw (f, read_address_change) at h) in
          (e', ra, Memᴰ.tail m, g, a, b, c, d, i, j, k, l, n)
    ]

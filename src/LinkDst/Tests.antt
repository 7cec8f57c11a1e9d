-- ===== src/LinkDst/Tests.antt =====
-- Witnesses for the listener of address changes.
use mathlib.Core.List.{Memᴰ}
use qpidrecovery.Base.{◌≡◌, refl, true, false, ◌&&◌, none, some, [], ◌∷◌, ◌==◌, All, arith}
use qpidrecovery.Text.{codes, str_eq, strcmp}
use qpidrecovery.Common.{ReplyAddress}
use qpidrecovery.LinkDst.{AddressChange, living, listens, read_entry, read_address_change}
use qpidrecovery.LinkDst.Living.{
  IsCounted, read_address_change-IsCounted, read_address_change-changed,
}

abbrev waiting : AddressChange
waiting = record {
  name = codes "orders";
  livingcount = 2;
  sfd = none ∷ some 6 ∷ some 7 ∷ [];
  srcip = codes "10.0.0.1";
  srcport = 5672;
  oldip = codes "10.0.0.2";
  oldport = 5672;
}

abbrev moved : ReplyAddress
moved = record { name = codes "orders"; ip = codes "10.0.0.3"; port = 5672 }

read_address_change-IsCounted_example : All IsCounted (read_address_change 7 none (waiting ∷ [])).0
unfolding living
read_address_change-IsCounted_example =
    read_address_change-IsCounted 7 none (waiting ∷ []) ((omega arith, omega arith), tt)

read_address_change-changed_example :
    (e : AddressChange) × (ra : ReplyAddress) × Memᴰ e (waiting ∷ [])
    × (listens 7 e.sfd ≡ true)
    × (some moved ≡ some ra)
    × (ra.ip ≡ codes "10.0.0.3")
    × (ra.port ≡ 5672)
    × (e.name ≡ ra.name)
    × (e.srcip ≡ codes "10.0.0.1")
    × (e.srcport ≡ 5672)
    × (e.oldip ≡ codes "10.0.0.2")
    × (e.oldport ≡ 5672)
    × ((str_eq (codes "10.0.0.2") (codes "10.0.0.3") && (5672 == 5672)) ≡ false)
unfolding read_address_change read_entry listens str_eq strcmp
read_address_change-changed_example =
    read_address_change-changed 7 (some moved) (waiting ∷ []) (codes "10.0.0.1") (codes "10.0.0.2")
      (codes "10.0.0.3") 5672 5672 5672 refl

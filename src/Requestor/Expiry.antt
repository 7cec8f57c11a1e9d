-- ===== src/Requestor/Expiry.antt =====
-- The loop of src/requestor.cpp that deletes the clients whose heartbeat has expired.
use qpidrecovery.Base.{
  ℕ, zero, suc, ◌+◌, ◌<◌, ◌≡◌, refl, ap, true, false, Option, none, some, List, [], ◌∷◌, ◌++◌,
  length, if◌then◌else◌, arith, Bool-cases, inl, inr,
}
use qpidrecovery.Paxos.Message.{Effect}
use qpidrecovery.Heartbeat.{HeartbeatClient, is_expired, drop_client, heartbeat_period}
use qpidrecovery.Requestor.{check_expired, next_index, delete_hbc, drop_expired}

-- The clients that stay, and what the end of the others does.
unfoldable pub unexpired : ℕ → List HeartbeatClient → List HeartbeatClient
unexpired now [] = []
unexpired now (c ∷ v) =
    if is_expired now (heartbeat_period + heartbeat_period) c
    then unexpired now v
    else c ∷ unexpired now v

unfoldable pub expiry_effects : ℕ → List HeartbeatClient → List Effect
expiry_effects now [] = []
expiry_effects now (c ∷ v) =
    if is_expired now (heartbeat_period + heartbeat_period) c
    then drop_client c ++ expiry_effects now v
    else expiry_effects now v

-- What a result of checkExpired says: no client has expired, or deleteHBC of it leaves one less and
-- the same unexpired ones.
abbrev IsFound : ℕ → List HeartbeatClient → Option ℕ → Type 0
IsFound now v none = (unexpired now v ≡ v) × (expiry_effects now v ≡ [])
IsFound now v (some r) =
    (unexpired now (delete_hbc r v).0 ≡ unexpired now v)
    × (expiry_effects now v ≡ (delete_hbc r v).1 ++ expiry_effects now (delete_hbc r v).0)
    × (length v ≡ suc (length (delete_hbc r v).0))

next-IsFound :
    (now : ℕ) (c : HeartbeatClient) (v : List HeartbeatClient) (o : Option ℕ)
    → is_expired now (heartbeat_period + heartbeat_period) c ≡ false
    → IsFound now v o
    → IsFound now (c ∷ v) (next_index o)
unfolding unexpired expiry_effects delete_hbc
next-IsFound now c v none e h = rw e (ap (λ u. c ∷ u) h.0, h.1)
next-IsFound now c v (some r) e h = rw e (ap (λ u. c ∷ u) h.0, h.1, ap suc h.2)

first-IsFound :
    (now : ℕ) (c : HeartbeatClient) (v : List HeartbeatClient)
    → is_expired now (heartbeat_period + heartbeat_period) c ≡ true
    → IsFound now (c ∷ v) (some 0)
unfolding unexpired expiry_effects delete_hbc
first-IsFound now c v e = rw e (refl, refl, refl)

check_expired-IsFound : (now : ℕ) (v : List HeartbeatClient) → IsFound now v (check_expired now v)
unfolding check_expired
check_expired-IsFound now [] = unfold unexpired expiry_effects in (refl, refl)
check_expired-IsFound now (c ∷ v) =
    elim (Bool-cases (is_expired now (heartbeat_period + heartbeat_period) c)) [
      | inl e ↦ rw (e, check_expired) (first-IsFound now c v e)
      | inr e ↦
          rw (e, check_expired)
            (next-IsFound now c v (check_expired now v) e (check_expired-IsFound now v))
    ]

pub drop_expired_fuel :
    (fuel now : ℕ) (v : List HeartbeatClient)
    → length v < fuel
    → drop_expired fuel now v ≡ some (unexpired now v, expiry_effects now v)
unfolding drop_expired
drop_expired_fuel zero now v h = absurd (omega arith)
drop_expired_fuel (suc fuel) now v h =
    by_found (drop_expired_fuel fuel now) (check_expired now v) refl (check_expired-IsFound now v)
  where
    by_found :
        ((u : List HeartbeatClient)
          → length u < fuel
          → drop_expired fuel now u ≡ some (unexpired now u, expiry_effects now u))
        → (o : Option ℕ) → check_expired now v ≡ o
        → IsFound now v o
        → drop_expired (suc fuel) now v ≡ some (unexpired now v, expiry_effects now v)
    by_found ih none e k = rw (e, drop_expired, k.0, k.1) refl
    by_found ih (some r) e k =
        rw (e, drop_expired, ih (delete_hbc r v).0 (omega (arith, k.2)), k.0, k.1) refl

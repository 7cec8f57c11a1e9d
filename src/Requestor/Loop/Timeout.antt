-- ===== src/Requestor/Loop/Timeout.antt =====
-- What a timeout of src/requestor.cpp does.
use qpidrecovery.Base.{
  ℕ, suc, ◌+◌, ◌≡◌, refl, false, List, [], ◌∷◌, ◌++◌, length, All, arith, Bool-cases, inl, inr,
}
use qpidrecovery.FileSelector.{reset_timeout}
use qpidrecovery.Heartbeat.{HeartbeatClient, is_expired, heartbeat_period}
use qpidrecovery.Requestor.{Requestor, World, acts_of}
use qpidrecovery.Requestor.Expiry.{unexpired, expiry_effects, drop_expired_fuel}
use qpidrecovery.Requestor.Loop.{turned, on_timeout}

abbrev pub Beats : ℕ → HeartbeatClient → Type 0
Beats now c = is_expired now (heartbeat_period + heartbeat_period) c ≡ false

unexpired-Beats : (now : ℕ) (v : List HeartbeatClient) → All (Beats now) (unexpired now v)
unfolding unexpired
unexpired-Beats now [] = tt
unexpired-Beats now (c ∷ v) =
    elim (Bool-cases (is_expired now (heartbeat_period + heartbeat_period) c)) [
      | inl e ↦ rw e (unexpired-Beats now v)
      | inr e ↦ rw e (e, unexpired-Beats now v)
    ]

-- At a timeout both loops of the requestor program end, each within one round more than it has
-- clients. Exactly the clients without a heartbeat for two periods are gone, in their order each left
-- the file selector and was closed, and the clients that stay have all been heard since.
pub on_timeout_lem :
    (w : World) (s : Requestor)
    → (on_timeout w s
        ≡ turned
            (record s {
              proposers = unexpired w.now s.proposers;
              acceptors = unexpired w.now s.acceptors;
              fs = reset_timeout 2 0 s.fs;
            })
            (acts_of (expiry_effects w.now s.proposers ++ expiry_effects w.now s.acceptors)))
      × All (Beats w.now) (unexpired w.now s.proposers)
      × All (Beats w.now) (unexpired w.now s.acceptors)
unfolding on_timeout
on_timeout_lem w s = (
  rw
      (
        drop_expired_fuel (suc (length s.proposers)) w.now s.proposers (omega arith),
        drop_expired_fuel (suc (length s.acceptors)) w.now s.acceptors (omega arith),
      )
      refl,
  unexpired-Beats w.now s.proposers,
  unexpired-Beats w.now s.acceptors,
)

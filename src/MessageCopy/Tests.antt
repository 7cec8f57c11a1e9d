-- ===== src/MessageCopy/Tests.antt =====
-- A witness for the copy of messages.
use qpidrecovery.Base.{ℕ, ◌≡◌, true, [], ◌∷◌, ltb}
use qpidrecovery.Text.{codes}
use qpidrecovery.MessageCopy.{Broker, send, send_all, receive, gather, receive_send}
use qpidrecovery.MessageCopy.Forwarded.{receive_send_lem}

-- The second send fails, and the third message comes too late.
abbrev broker : Broker ℕ
broker = record {
  sender = λ s. true;
  receiver = λ s. true;
  fetched = (7, 1000000) ∷ (8, 2000000) ∷ (9, 6000000) ∷ [];
  accepts = λ i. ltb i 1;
  closes = true;
  now = 1000000;
}

receive_send_lem_example :
    ((receive_send broker (codes "q") (codes "r")).1 ≡ 7 ∷ [])
    × ((receive_send broker (codes "q") (codes "r")).0 ≡ true)
unfolding send receive gather send_all
receive_send_lem_example = receive_send_lem broker (codes "q") (codes "r")

-- ===== src/MessageCopy/Forwarded.antt =====
-- receiveSend of src/messagecopy.cpp is receive and send in one loop.
use qpidrecovery.Base.{
  ℕ, ◌+◌, ◌≡◌, refl, ap, Bool, ◌&&◌, List, [], ◌∷◌, ltb, if◌then◌else◌, Bool-cases, inl, inr,
}
use qpidrecovery.Text.{Str}
use qpidrecovery.MessageCopy.{
  Broker, send_option, receive_option, send_all, send, gather, receive, forward, receive_send,
}

module _ {Message : Type 0} where
  forward_lem :
      (accepts : ℕ → Bool) (i start : ℕ) (fetched : List (Message × ℕ))
      → forward accepts i start fetched ≡ (send_all accepts i (gather start fetched)).1
  unfolding forward send_all gather
  forward_lem accepts i start [] = refl
  forward_lem accepts i start ((m, now) ∷ fetched) = elim (Bool-cases (ltb (start + 4000000) now)) [
    | inl e ↦ rw e refl
    | inr e ↦ elim (Bool-cases (accepts i)) [
      | inl f ↦ rw (e, f) (ap (λ ms. m ∷ ms) (forward_lem accepts (i + 1) start fetched))
      | inr f ↦ rw (e, f) refl
    ]
  ]

  -- What receiveSend sends is exactly what send would send of the messages that receive would put into
  -- its vector, if the receiver can be made, and nothing otherwise; it stops where either of them
  -- would. It returns 0 exactly if the sender and the receiver are made and closed, also when a send
  -- has failed.
  pub receive_send_lem :
      (b : Broker Message) (source target : Str)
      → ((receive_send b source target).1 ≡ (
          if b.receiver (receive_option source)
          then (send b target (receive b source).1).1
          else []))
        × ((receive_send b source target).0
            ≡ (b.sender (send_option target) && b.receiver (receive_option source) && b.closes))
  unfolding receive_send send receive
  receive_send_lem b source target = elim (Bool-cases (b.sender (send_option target))) [
    | inl e ↦ elim (Bool-cases (b.receiver (receive_option source))) [
      | inl f ↦ rw (e, f) (forward_lem b.accepts 0 b.now b.fetched, refl)
      | inr f ↦ rw (e, f) (refl, refl)
    ]
    | inr e ↦ elim (Bool-cases (b.receiver (receive_option source))) [
      | inl f ↦ rw (e, f) (refl, refl)
      | inr f ↦ rw (e, f) (refl, refl)
    ]
  ]

-- ===== src/Paxos/Wire/RoundTrip.antt =====
-- What is written is what is read, whatever follows it on the stream.
use qpidrecovery.Base.{
  ℕ, zero, suc, ◌-◌, ◌≡◌, ◌<◌, refl, u32_mod, Bool, true, false, Option, none, some, List, [], ◌∷◌,
  ◌++◌, length, replicate, length-append, length-replicate, All, arith,
}
use mathlib.Core.List.{append_assoc}
use qpidrecovery.Text.{Str}
use qpidrecovery.Paxos.Proposal.{
  Proposal, no_proposal, recovery, acceptor_change, max_acceptors, get_type, get_version,
  RecoveryProposal,
}
use qpidrecovery.Paxos.Message.{MessageType, unlisted, PaxosMessage, needs_proposal, HasBody}
use qpidrecovery.Paxos.Wire.{
  ◌>>=◌, service_name_length, ip_length, put_unsigned, get_unsigned, put_array, get_bytes, cut,
  get_array, put_slots, get_slots, put_content, send_proposal, get_recovery, get_acceptor_change,
  get_content, receive_proposal, message_type_code, message_type_of, put_header, send_message,
  body_bytes, get_body, receive,
}

-- A string that fits an array with its NUL.
pub record Fits (size : ℕ) (s : Str) : Type 0 where
  pub short : length s < size
  pub plain : All (λ (b : ℕ). 0 < b) s

get_unsigned-put :
    (n : ℕ) (rest : List ℕ) → n < u32_mod → get_unsigned (put_unsigned n ++ rest) ≡ some (n, rest)
unfolding get_unsigned put_unsigned
get_unsigned-put n rest h = ground arith

get_bytes-append :
    (n : ℕ) (bs rest : List ℕ) → length bs ≡ n → get_bytes n (bs ++ rest) ≡ some (bs, rest)
unfolding get_bytes
get_bytes-append zero [] rest h = refl
get_bytes-append zero (b ∷ bs) rest h = absurd (omega arith)
get_bytes-append (suc n) [] rest h = absurd (omega arith)
get_bytes-append (suc n) (b ∷ bs) rest h = rw (get_bytes-append n bs rest (omega arith))

cut-zeros : (n : ℕ) → cut (replicate n 0) ≡ []
unfolding cut
cut-zeros zero = refl
cut-zeros (suc n) = refl

cut-append : (s : Str) (n : ℕ) → All (λ (b : ℕ). 0 < b) s → cut (s ++ replicate n 0) ≡ s
unfolding cut
cut-append [] n h = cut-zeros n
cut-append (zero ∷ s) n h = absurd (omega arith)
cut-append (suc b ∷ s) n h = rw (cut-append s n h.1)

get_array-put :
    (size : ℕ) (s : Str) (rest : List ℕ)
    → Fits size s
    → get_array size (put_array size s ++ rest) ≡ some (s, rest)
unfolding get_array put_array
get_array-put size s rest h =
    rw (get_bytes-append size (s ++ replicate (size - length s) 0) rest full, ◌>>=◌)
      (rw (cut-append s (size - length s) h.plain))
  where
    full : length (s ++ replicate (size - length s) 0) ≡ size
    full = omega (
      arith,
      h.short,
      length-append s (replicate (size - length s) 0),
      length-replicate {A = ℕ} (size - length s) 0,
    )

get_unsigned-put' :
    (n : ℕ) (xs rest : List ℕ)
    → n < u32_mod
    → get_unsigned ((put_unsigned n ++ xs) ++ rest) ≡ some (n, xs ++ rest)
get_unsigned-put' n xs rest h = rw append_assoc (get_unsigned-put n (xs ++ rest) h)

get_array-put' :
    (size : ℕ) (s : Str) (xs rest : List ℕ)
    → Fits size s
    → get_array size ((put_array size s ++ xs) ++ rest) ≡ some (s, xs ++ rest)
get_array-put' size s xs rest h = rw append_assoc (get_array-put size s (xs ++ rest) h)

get_slots-put :
    (n : ℕ) (ss : List Str) (rest : List ℕ)
    → length ss ≡ n
    → All (Fits ip_length) ss
    → get_slots n (put_slots ss ++ rest) ≡ some (ss, rest)
unfolding get_slots put_slots
get_slots-put zero [] rest l h = refl
get_slots-put zero (s ∷ ss) rest l h = absurd (omega arith)
get_slots-put (suc n) [] rest l h = absurd (omega arith)
get_slots-put (suc n) (s ∷ ss) rest l h =
    rw (get_array-put' ip_length s (put_slots ss) rest h.0, ◌>>=◌)
      (rw (get_slots-put n ss rest (omega arith) h.1, ◌>>=◌))

-- What fits the structs of a proposal. A NoProposal is not sent for the other side to keep.
abbrev pub IsSendable : Proposal → Type 0
IsSendable no_proposal = ⊥
IsSendable (recovery r) =
    (r.newversion < u32_mod)
    × Fits ip_length r.failip
    × (r.failport < u32_mod)
    × Fits ip_length r.backupip
    × (r.backupport < u32_mod)
    × (r.score < u32_mod)
IsSendable (acceptor_change a) =
    (a.newversion < u32_mod)
    × (a.nacceptor < u32_mod)
    × (length a.acceptor ≡ max_acceptors)
    × All (Fits ip_length) a.acceptor

recovery_content :
    (r : RecoveryProposal) (rest : List ℕ)
    → IsSendable (recovery r)
    → get_recovery r.newversion (put_content (recovery r) ++ rest) ≡ some (recovery r, rest)
unfolding get_recovery put_content
recovery_content r rest h =
    rw (get_array-put' ip_length r.failip _ rest h.1, ◌>>=◌)
      (rw (get_unsigned-put' r.failport _ rest h.2, ◌>>=◌)
        (rw (get_array-put' ip_length r.backupip _ rest h.3, ◌>>=◌)
          (rw (get_unsigned-put' r.backupport _ rest h.4, ◌>>=◌)
            (rw (get_unsigned-put r.score rest h.5, ◌>>=◌)))))

-- A proposal that is sent is received unchanged.
pub receive_proposal-send :
    (p : Proposal) (rest : List ℕ)
    → IsSendable p
    → receive_proposal (send_proposal p ++ rest) ≡ some (p, rest)
unfolding receive_proposal send_proposal get_type get_version get_acceptor_change get_content
    put_content
receive_proposal-send no_proposal rest h = absurd h
receive_proposal-send (recovery r) rest h =
    rw (get_unsigned-put' 1000 _ rest (omega arith), ◌>>=◌)
      (rw (get_unsigned-put' r.newversion _ rest h.0, ◌>>=◌) (recovery_content r rest h))
receive_proposal-send (acceptor_change a) rest h =
    rw (get_unsigned-put' 1001 _ rest (omega arith), ◌>>=◌)
      (rw (get_unsigned-put' a.newversion _ rest h.0, ◌>>=◌)
        (rw (get_unsigned-put' a.nacceptor _ rest h.1, ◌>>=◌)
          (rw (get_slots-put max_acceptors a.acceptor rest h.2 h.3, ◌>>=◌))))

-- The types that the code sends.
abbrev pub IsListed : MessageType → Type 0
IsListed (unlisted n) = ⊥
IsListed _ = Unit

abbrev pub SendableBody : Option Proposal → Type 0
SendableBody none = Unit
SendableBody (some p) = IsSendable p

abbrev pub is_given : Option Proposal → Bool
is_given none = false
is_given (some p) = true

-- A message that fits its structs, with a proposal exactly where its type has one.
abbrev pub IsSendableMessage : PaxosMessage → Type 0
IsSendableMessage m =
    IsListed m.type
    × (m.version < u32_mod)
    × Fits service_name_length m.name
    × SendableBody m.proposal
    × (needs_proposal m.type ≡ is_given m.proposal)

message_type_of-code : (t : MessageType) → IsListed t → message_type_of (message_type_code t) ≡ t
message_type_of-code (unlisted n) h = absurd h
message_type_of-code _ h = refl

message_type_code-lt : (t : MessageType) → IsListed t → message_type_code t < u32_mod
message_type_code-lt (unlisted n) h = absurd h
message_type_code-lt _ h = omega arith

get_body-send :
    (t : MessageType) (v : ℕ) (m : Str) (p : Option Proposal) (rest : List ℕ)
    → SendableBody p
    → needs_proposal t ≡ is_given p
    → get_body t v m (body_bytes p ++ rest)
      ≡ some (record { type = t; version = v; name = m; proposal = p }, rest)
unfolding get_body
get_body-send t v m none rest h n = rw n
get_body-send t v m (some p) rest h n = rw n (rw (receive_proposal-send p rest h, ◌>>=◌))

-- A message that is sent is received unchanged, whatever follows it.
pub receive-send :
    (m : PaxosMessage) (rest : List ℕ)
    → IsSendableMessage m
    → receive (send_message m ++ rest) ≡ some (m, rest)
unfolding receive send_message put_header
receive-send m rest h =
    rw (append_assoc, append_assoc, append_assoc)
      (rw (get_unsigned-put (message_type_code m.type) _ (message_type_code-lt m.type h.0), ◌>>=◌)
        (rw (get_unsigned-put m.version _ h.1, ◌>>=◌)
          (rw (get_array-put service_name_length m.name _ h.2, ◌>>=◌)
            (rw (message_type_of-code m.type h.0)
              (get_body-send m.type m.version m.name m.proposal rest h.3 h.4)))))

-- A message that is received carries a proposal if its type has one.
pub receive-HasBody :
    (bs rest : List ℕ) (m : PaxosMessage) → receive bs ≡ some (m, rest) → HasBody m
unfolding receive get_body
receive-HasBody bs rest m h = λ n. ground arith

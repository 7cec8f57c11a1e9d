-- ===== src/Paxos/Wire.antt =====
-- The bytes of a message: rwType, sendProposal, receiveProposal, sendPaxosHeader, receivePaxosHeader
-- and PaxosMessage::receive of src/paxos. Integers and enumerations have four bytes, the lowest first, and no
-- struct has padding. What stands behind the NUL in a char array is written as 0. A write is the
-- list of bytes that it adds to the stream, all of it, and a read takes its bytes off the stream or
-- fails; after a failure every read of rwType fails.
pub mod RoundTrip
use qpidrecovery.Base.{
  ℕ, zero, suc, ◌+◌, ◌-◌, ◌*◌, ◌/◌, ◌%◌, ◌==◌, Option, none, some, List, [], ◌∷◌, ◌++◌, length,
  replicate, if◌then◌else◌,
}
use qpidrecovery.Text.{Str}
use qpidrecovery.Paxos.Proposal.{
  Proposal, no_proposal, recovery, acceptor_change, ProposalType, noproposal, recoveryproposal,
  acceptorchangeproposal, get_type, get_version, max_acceptors,
}
use qpidrecovery.Paxos.Message.{
  MessageType, phase1proposal, phase1ack, phase1nack, phase2request, phase2ack, phase2nack,
  phase3commit, unlisted, PaxosMessage, needs_proposal,
}

abbrev pub service_name_length : ℕ
service_name_length = 40

abbrev pub ip_length : ℕ
ip_length = 20

-- A read from a socket: the value and what is left, or a failure.
abbrev pub Reader : Type 0 → Type 0
Reader A = List ℕ → Option (A × List ℕ)

infixl 5 ◌>>=◌
abbrev pub ◌>>=◌ : {A B : Type 0} → Reader A → (A → Reader B) → Reader B
◌>>=◌ m f bs = elim (m bs) [ none ↦ none | some (a, rest) ↦ f a rest ]

abbrev pub return : {A : Type 0} → A → Reader A
return a bs = some (a, bs)

abbrev pub fail : {A : Type 0} → Reader A
fail bs = none

unfoldable pub put_unsigned : ℕ → List ℕ
put_unsigned n = (n % 256) ∷ (n / 256 % 256) ∷ (n / 65536 % 256) ∷ (n / 16777216 % 256) ∷ []

unfoldable pub get_unsigned : Reader ℕ
get_unsigned (a ∷ b ∷ c ∷ d ∷ rest) = some (a + 256 * b + 65536 * c + 16777216 * d, rest)
get_unsigned _ = none

unfoldable pub put_array : ℕ → Str → List ℕ
put_array size s = s ++ replicate (size - length s) 0

unfoldable pub get_bytes : ℕ → Reader (List ℕ)
get_bytes zero bs = some ([], bs)
get_bytes (suc n) [] = none
get_bytes (suc n) (b ∷ bs) = elim (get_bytes n bs) [
  | none ↦ none
  | some (xs, rest) ↦ some (b ∷ xs, rest)
]

-- The C string in an array.
unfoldable pub cut : List ℕ → Str
cut [] = []
cut (zero ∷ bs) = []
cut (suc b ∷ bs) = suc b ∷ cut bs

unfoldable pub get_array : ℕ → Reader Str
get_array size = do bs ← get_bytes size; return (cut bs)

-- `char acceptor[MAX_ACCEPTORS][IP_LENGTH]`.
unfoldable pub put_slots : List Str → List ℕ
put_slots [] = []
put_slots (s ∷ ss) = put_array ip_length s ++ put_slots ss

unfoldable pub get_slots : ℕ → Reader (List Str)
get_slots zero = return []
get_slots (suc n) = do s ← get_array ip_length; ss ← get_slots n; return (s ∷ ss)

abbrev pub proposal_type_code : ProposalType → ℕ
proposal_type_code noproposal = 999
proposal_type_code recoveryproposal = 1000
proposal_type_code acceptorchangeproposal = 1001

-- sendReceiveContent('w', sfd).
unfoldable pub put_content : Proposal → List ℕ
put_content no_proposal = []
put_content (recovery r) =
    put_array ip_length r.failip
    ++ (put_unsigned r.failport
        ++ (put_array ip_length r.backupip ++ (put_unsigned r.backupport ++ put_unsigned r.score)))
put_content (acceptor_change a) = put_unsigned a.nacceptor ++ put_slots a.acceptor

unfoldable pub send_proposal : Proposal → List ℕ
send_proposal p =
    put_unsigned (proposal_type_code (get_type p))
    ++ (put_unsigned (get_version p) ++ put_content p)

-- sendReceiveContent('r', sfd) on a proposal made for the version.
unfoldable pub get_recovery : ℕ → Reader Proposal
get_recovery version = do
  fip ← get_array ip_length
  fport ← get_unsigned
  bip ← get_array ip_length
  bport ← get_unsigned
  bscore ← get_unsigned
  return (
      recovery (record {
        newversion = version;
        failip = fip;
        failport = fport;
        backupip = bip;
        backupport = bport;
        score = bscore;
      }))

unfoldable pub get_acceptor_change : ℕ → Reader Proposal
get_acceptor_change version = do
  n ← get_unsigned
  slots ← get_slots max_acceptors
  return (acceptor_change (record { newversion = version; nacceptor = n; acceptor = slots }))

-- The switch of receiveProposal; NULL is a failure.
unfoldable pub get_content : ℕ → ℕ → Reader Proposal
get_content code version =
    if code == 1000
    then get_recovery version
    else if code == 1001
    then get_acceptor_change version
    else fail

unfoldable pub receive_proposal : Reader Proposal
receive_proposal = do code ← get_unsigned; version ← get_unsigned; get_content code version

abbrev pub message_type_code : MessageType → ℕ
message_type_code phase1proposal = 555
message_type_code phase1ack = 556
message_type_code phase1nack = 557
message_type_code phase2request = 558
message_type_code phase2ack = 559
message_type_code phase2nack = 560
message_type_code phase3commit = 561
message_type_code (unlisted n) = n

abbrev pub message_type_of : ℕ → MessageType
message_type_of n =
    if n == 555
    then phase1proposal
    else if n == 556
    then phase1ack
    else if n == 557
    then phase1nack
    else if n == 558
    then phase2request
    else if n == 559
    then phase2ack
    else if n == 560
    then phase2nack
    else if n == 561
    then phase3commit
    else unlisted n

-- sendPaxosHeader.
unfoldable pub put_header : MessageType → ℕ → Str → List ℕ
put_header t v m =
    put_unsigned (message_type_code t) ++ (put_unsigned v ++ put_array service_name_length m)

abbrev pub body_bytes : Option Proposal → List ℕ
body_bytes none = []
body_bytes (some p) = send_proposal p

-- sendHeaderProposal where there is a proposal, and sendPaxosHeader where there is none.
unfoldable pub send_message : PaxosMessage → List ℕ
send_message m = put_header m.type m.version m.name ++ body_bytes m.proposal

-- The switch of PaxosMessage::receive on the type in the header.
unfoldable pub get_body : MessageType → ℕ → Str → Reader PaxosMessage
get_body t v m =
    if needs_proposal t
    then (do
      p ← receive_proposal
      return (record { type = t; version = v; name = m; proposal = some p }))
    else return (record { type = t; version = v; name = m; proposal = none })

unfoldable pub receive : Reader PaxosMessage
receive = do
  code ← get_unsigned
  v ← get_unsigned
  m ← get_array service_name_length
  get_body (message_type_of code) v m

-- ===== src/Paxos/Message.antt =====
-- The messages of include/paxos.h, and what a state machine does to the outside.
-- The results of the writes are not used by the state machines, so a write is an effect that a
-- handler lists; so are the calls of FileSelector and of `close`, in the order of the source.
use qpidrecovery.Base.{◌≡◌, ◌≢◌, ℕ, Bool, true, false, Option, none, some, List}
use qpidrecovery.Text.{Str}
use qpidrecovery.Paxos.Proposal.{Proposal}

-- `unlisted` is any other value of the enumeration's int that can arrive.
pub data MessageType : Type 0 where
  phase1proposal phase1ack phase1nack phase2request phase2ack phase2nack phase3commit : MessageType
  unlisted : ℕ → MessageType

pub data PaxosState : Type 0 where
  initial phase1 phase2 phase3 : PaxosState

pub data PaxosResult : Type 0 where
  handled ignored committing_self committing_other : PaxosResult

-- The header and the proposal; `none` is the null pointer.
pub record PaxosMessage : Type 0 where
  pub type : MessageType
  pub version : ℕ
  pub name : Str
  pub proposal : Option Proposal

-- A descriptor that the code keeps is -1 (`none`) or that of an open socket.
abbrev pub Fd : Type 0
Fd = Option ℕ

pub data Effect : Type 0 where
  send : ℕ → PaxosMessage → Effect
  register_fd : Fd → Effect
  unregister_fd : Fd → Effect
  close_fd : Fd → Effect

-- sendPaxosHeader, for the messages with an empty body.
abbrev pub send_paxos_header : ℕ → MessageType → ℕ → Str → Effect
send_paxos_header sfd t v m = send sfd (record { type = t; version = v; name = m; proposal = none })

abbrev pub send_header_proposal : ℕ → MessageType → ℕ → Str → Proposal → Effect
send_header_proposal sfd t v m p =
    send sfd (record { type = t; version = v; name = m; proposal = some p })

-- What a handler leaves behind: the state machine, the result, and what it did on the way.
pub record Outcome (S : Type 0) : Type 0 where
  pub machine : S
  pub result : PaxosResult
  pub effects : List Effect

abbrev pub outcome : {S : Type 0} → S → PaxosResult → List Effect → Outcome S
outcome s r es = record { machine = s; result = r; effects = es }

abbrev pub needs_proposal : MessageType → Bool
needs_proposal phase1proposal = true
needs_proposal phase2request = true
needs_proposal phase3commit = true
needs_proposal _ = false

-- The types whose messages carry a proposal do so.
abbrev pub HasBody : PaxosMessage → Type 0
HasBody m = needs_proposal m.type ≡ true → m.proposal ≢ none

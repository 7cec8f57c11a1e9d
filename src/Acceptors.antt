-- ===== src/Acceptors.antt =====
-- src/acceptor.cpp: the acceptors of one process, by the names of their services. What acceptRead,
-- tcpaccept and PaxosMessage::receive bring is an argument; `none` there is an error. A null
-- proposal that a state machine would use, a full file selector, or more than MAX_ACCEPTORS acceptors
-- in a request, makes a call `none`.
pub mod Named
pub mod Hosted
pub mod Loop
mod Tests
use qpidrecovery.Base.{
  ℕ, Bool, true, false, Option, none, some, List, [], ◌∷◌, ◌++◌, ltb, if◌then◌else◌,
}
use qpidrecovery.Text.{Str, str_eq}
use qpidrecovery.Common.{ParticipateRequest}
use qpidrecovery.Paxos.Proposal.{acceptor_change, new_acceptor_change, max_acceptors}
use qpidrecovery.Paxos.Message.{
  PaxosMessage, PaxosResult, handled, Effect, Fd, register_fd, unregister_fd, close_fd,
}
use qpidrecovery.Paxos.Acceptor.{Acceptor, new_acceptor, handle_message, check_timeout}
use qpidrecovery.FileSelector.{
  FileSelector, ReadyFd, ready, ready_timeout, ready_error, ready_nothing, fd_eq, reset_timeout,
  apply_effects,
}

pub record AcceptorName : Type 0 where
  pub acc : Acceptor
  pub name : Str

-- The loop of createAcceptor, which erases the first entry of the name.
unfoldable pub erase_name : Str → List AcceptorName → List AcceptorName
erase_name name [] = []
erase_name name (x ∷ xs) = if str_eq name x.name then xs else x ∷ erase_name name xs

-- The new entry of createAcceptor, in place of the one that is erased.
unfoldable pub put_acceptor : ℕ → ParticipateRequest → List AcceptorName → List AcceptorName
put_acceptor now r accname =
    erase_name r.name accname
    ++ (record {
      acc =
          new_acceptor now r.name r.votingversion
            (acceptor_change (new_acceptor_change r.committedversion r.count r.acceptor));
      name = r.name;
    }
        ∷ [])

-- A request that counts more than MAX_ACCEPTORS acceptors would write past their array: `none`.
unfoldable pub create_acceptor :
    ℕ → ParticipateRequest → List AcceptorName → Option (List AcceptorName)
create_acceptor now r accname =
    if ltb max_acceptors r.count then none else some (put_acceptor now r accname)

abbrev pub is_handled : PaxosResult → Bool
is_handled handled = true
is_handled _ = false

-- What handlePaxosMessage leaves: the acceptors, whether it returns 0 (else -1), what it did.
abbrev pub Delivery : Type 0
Delivery = List AcceptorName × Bool × List Effect

abbrev pub after : AcceptorName → List Effect → Delivery → Delivery
after x es (xs, done, fs) = (x ∷ xs, done, es ++ fs)

-- The loop of handlePaxosMessage: an acceptor that does not handle the message leaves it to the next.
unfoldable pub deliver : ℕ → ℕ → PaxosMessage → List AcceptorName → Option Delivery
deliver now replysfd m [] = some ([], false, [])
deliver now replysfd m (x ∷ xs) =
    let rest = deliver now replysfd m xs in
    elim (handle_message now replysfd m x.acc) [
      | none ↦ none
      | some o ↦
          if is_handled o.result
          then some (record x { acc = o.machine } ∷ xs, true, o.effects)
          else (elim rest [
            | none ↦ none
            | some d ↦ some (after (record x { acc = o.machine }) o.effects d)
          ])
    ]

unfoldable pub handle_paxos_message :
    ℕ → ℕ → Option PaxosMessage → List AcceptorName → Option Delivery
handle_paxos_message now replysfd none accname = some (accname, false, [])
handle_paxos_message now replysfd (some m) accname = deliver now replysfd m accname

unfoldable pub check_timeouts : ℕ → ℕ → List AcceptorName → List AcceptorName
check_timeouts now timeout [] = []
check_timeouts now timeout (x ∷ xs) =
    record x { acc = (check_timeout now timeout x.acc).0 } ∷ check_timeouts now timeout xs

-- What `main` keeps, and what the calls of one turn of its loop bring.
pub record Server : Type 0 where
  pub requestsfd : Fd
  pub paxossfd : Fd
  pub fs : FileSelector
  pub accname : List AcceptorName

pub record Arrival : Type 0 where
  pub request : Option ParticipateRequest
  pub accepted : Fd
  pub received : Option PaxosMessage

abbrev pub with_selector :
    Server → List Effect → Option FileSelector → Option (Server × List Effect)
with_selector s es none = none
with_selector s es (some fs) = some (record s { fs = fs }, es)

-- The server does what the effects say to its file selector, and sends the messages among them.
unfoldable pub perform : Server → List Effect → Option (Server × List Effect)
perform s es = with_selector s es (apply_effects es s.fs)

-- `ready >= 0`, neither of the two listening sockets. Four seconds are 4000000 microseconds.
unfoldable pub on_message : ℕ → ℕ → Arrival → Server → Option (Server × List Effect)
on_message now fd a s = elim (handle_paxos_message now fd a.received s.accname) [
  | none ↦ none
  | some (accname, done, es) ↦
      perform (record s { accname = accname })
        (es ++ (if done then [] else unregister_fd (some fd) ∷ close_fd (some fd) ∷ []))
]

-- One turn of the loop in `main`, for what getReadReadyFD returns. The socket that a request came on
-- is closed at once, and is not shown.
unfoldable pub turn : ℕ → ReadyFd → Arrival → Server → Option (Server × List Effect)
turn now ready_error a s = some (s, [])
turn now ready_nothing a s = some (s, [])
turn now ready_timeout a s =
    some
      (record s { fs = reset_timeout 4 0 s.fs; accname = check_timeouts now 4000000 s.accname }, [])
turn now (ready none) a s = some (s, [])
turn now (ready (some fd)) a s =
    if fd_eq (some fd) s.requestsfd
    then (elim a.request [
      | none ↦ some (s, [])
      | some r ↦ elim (create_acceptor now r s.accname) [
        | none ↦ none
        | some accname ↦ some (record s { accname = accname }, [])
      ]
    ])
    else if fd_eq (some fd) s.paxossfd
    then perform s (register_fd a.accepted ∷ [])
    else on_message now fd a s

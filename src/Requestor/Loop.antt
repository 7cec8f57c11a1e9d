-- ===== src/Requestor/Loop.antt =====
-- One turn of the loop in `main` of src/requestor.cpp.
pub mod Start
pub mod Bounds
pub mod Timeout
pub mod Arrays
use qpidrecovery.Base.{
  ℕ, zero, suc, ◌+◌, ◌-◌, Bool, true, false, not, ◌&&◌, Option, none, some, List, [], ◌∷◌, ◌++◌,
  length, ltb, if◌then◌else◌, u32,
}
use qpidrecovery.Text.{Str}
use qpidrecovery.Paxos.Proposal.{Proposal, acceptor_change, new_acceptor_change}
use qpidrecovery.Paxos.Message.{PaxosMessage, Effect, Fd, unregister_fd}
use qpidrecovery.Paxos.Proposer.{new_proposal, head_fd}
use qpidrecovery.FileSelector.{
  FileSelector, ReadyFd, ready, ready_timeout, ready_error, ready_nothing, fd_eq, reset_timeout,
  apply_effects,
}
use qpidrecovery.Heartbeat.{
  HeartbeatClient, new_heartbeat_client, register_client, Heard, hb_not_found, hb_handled, hb_lost,
}
use qpidrecovery.Names.{VectorAndIndex, get_an_element}
use qpidrecovery.Requestor.{
  Requestor, Act, does, closed, World, acts_of, copy_ip_array, reply_proposer_list, send_request,
  receive_heartbeat, delete_hbc, drop_expired, request_proposer_port,
}
use qpidrecovery.Requestor.Commit.{Committed, after_outcome, handle_paxos_message}

-- What the calls of one turn bring besides a `World`: what getReadReadyFD returns, what tcpaccept
-- returns, whether a whole heartbeat is read, and the message that is received.
pub record Arrival : Type 0 where
  pub ready : ReadyFd
  pub accepted : Fd
  pub whole : Bool
  pub received : Option PaxosMessage

-- The program goes on, returns from `main`, or meets a fault.
pub data Turn : Type 0 where
  returned crashed : Turn
  turned : Requestor → List Act → Turn

abbrev pub with_name : Str → Option (List Str) × VectorAndIndex → Option (List Str) × VectorAndIndex
with_name ip (none, v) = (none, v)
with_name ip (some ips, v) = (some (ip ∷ ips), v)

-- The addresses of `n` further acceptors; `none` if the names are used up. (`str` is the first member
-- of its struct, so getAcceptorIP and getProposerIP then return the null pointer that they follow.)
unfoldable pub take_names : ℕ → VectorAndIndex → Option (List Str) × VectorAndIndex
take_names zero v = (some [], v)
take_names (suc n) v =
    let (name, rest) = get_an_element v in
    elim name [ none ↦ (none, rest) | some ip ↦ with_name ip (take_names n rest) ]

abbrev pub after_commit : Option Committed → Turn
after_commit none = crashed
after_commit (some c) = turned c.requestor c.acts

unfoldable pub propose_acceptors : World → Requestor → Option (List Str) × VectorAndIndex → Turn
propose_acceptors w s (none, rest) = returned
propose_acceptors w s (some ips, rest) =
    let p = acceptor_change (
      new_acceptor_change (u32 (s.currentversion + 1)) s.expected_acceptors
        (copy_ip_array s.acceptors ++ ips)) in
    after_commit (
      after_outcome w (new_proposal w.now p s.psm)
        (record s { needchangeacceptor = false; ischangingacceptor = true; acceptornames = rest }))

-- The proposal of a change of the acceptors. (There are never more acceptors than are expected; the
-- loop would not end otherwise.)
unfoldable pub propose_change : World → Requestor → Turn
propose_change w s =
    propose_acceptors w s (take_names (s.expected_acceptors - length s.acceptors) s.acceptornames)

-- The new list of proposers goes to the sockets that asked for it; those that fail are closed.
unfoldable pub inform_replies : World → Str → List HeartbeatClient → List ℕ → List ℕ × List Act
inform_replies w servicename proposers [] = ([], [])
inform_replies w servicename proposers (fd ∷ fds) =
    let (rest, es) = inform_replies w servicename proposers fds in
    let (ok, sent) = reply_proposer_list w fd servicename proposers in
    if ok then (fd ∷ rest, sent ++ es) else (rest, closed fd ∷ es)

unfoldable pub join_proposer : World → Str → List Act → Requestor → Turn
join_proposer w newip sent s =
    let hbc = new_heartbeat_client w.now newip (head_fd w.answers) in
    let proposers = s.proposers ++ (hbc ∷ []) in
    let (replies, told) = inform_replies w s.servicename proposers s.replysfd in
    turned (record s { proposers = proposers; replysfd = replies })
      (sent ++ (acts_of (register_client hbc) ++ told))

unfoldable pub ask_proposer : World → Requestor → Option Str × VectorAndIndex → Turn
ask_proposer w s (none, rest) = returned
ask_proposer w s (some newip, rest) =
    let (ok, sent) =
      send_request w s.servicename newip request_proposer_port s.brokerport s.currentversion
        s.acceptors in
    if ok
    then join_proposer w newip sent (record s { proposernames = rest })
    else turned (record s { proposernames = rest }) []

-- The request to a further proposer.
unfoldable pub add_proposer : World → Requestor → Turn
add_proposer w s = ask_proposer w s (get_an_element s.proposernames)

abbrev pub with_clients :
    Requestor
    → Option (List HeartbeatClient × List Effect)
    → Option (List HeartbeatClient × List Effect)
    → Turn
with_clients s none _ = crashed
with_clients s (some p) none = crashed
with_clients s (some (proposers, es)) (some (acceptors, fs)) =
    turned (record s { proposers = proposers; acceptors = acceptors }) (acts_of (es ++ fs))

-- A timeout: HEARTBEAT_PERIOD becomes 2 seconds. Each round deletes a client, and one more ends.
unfoldable pub on_timeout : World → Requestor → Turn
on_timeout w s =
    with_clients (record s { fs = reset_timeout 2 0 s.fs })
      (drop_expired (suc (length s.proposers)) w.now s.proposers)
      (drop_expired (suc (length s.acceptors)) w.now s.acceptors)

unfoldable pub on_query : World → Fd → Requestor → Turn
on_query w none s = turned s []
on_query w (some newsfd) s =
    let (ok, sent) = reply_proposer_list w newsfd s.servicename s.proposers in
    if ok
    then turned (record s { replysfd = s.replysfd ++ (newsfd ∷ []) }) sent
    else turned s (closed newsfd ∷ [])

unfoldable pub on_message : World → Arrival → ℕ → Requestor → Turn
on_message w a fd s = elim a.received [
  | none ↦ turned s (does (unregister_fd (some fd)) ∷ [])
  | some m ↦ after_commit (handle_paxos_message w fd m s)
]

-- A heartbeat of an acceptor; another one is needed if it is lost.
unfoldable pub on_acceptor : World → Arrival → ℕ → Requestor → List HeartbeatClient × Heard → Turn
on_acceptor w a fd s (v, hb_not_found) = on_message w a fd s
on_acceptor w a fd s (v, hb_handled) = turned (record s { acceptors = v }) []
on_acceptor w a fd s (v, hb_lost r) =
    let (rest, es) = delete_hbc r v in
    turned (record s { acceptors = rest; needchangeacceptor = true }) (acts_of es)

unfoldable pub on_proposer : World → Arrival → ℕ → Requestor → List HeartbeatClient × Heard → Turn
on_proposer w a fd s (v, hb_not_found) =
    on_acceptor w a fd s (receive_heartbeat w.now a.whole (some fd) s.acceptors)
on_proposer w a fd s (v, hb_handled) = turned (record s { proposers = v }) []
on_proposer w a fd s (v, hb_lost r) =
    let (rest, es) = delete_hbc r v in turned (record s { proposers = rest }) (acts_of es)

unfoldable pub on_ready : World → Arrival → ReadyFd → Requestor → Turn
on_ready w a ready_timeout s = on_timeout w s
on_ready w a ready_error s = turned s []
on_ready w a ready_nothing s = turned s []
on_ready w a (ready none) s = turned s []
on_ready w a (ready (some fd)) s =
    if fd_eq (some fd) s.querysfd
    then on_query w a.accepted s
    else on_proposer w a fd s (receive_heartbeat w.now a.whole (some fd) s.proposers)

unfoldable pub selector_effects : List Act → List Effect
selector_effects [] = []
selector_effects (does e ∷ es) = e ∷ selector_effects es
selector_effects (Act.requested ip port r ∷ es) = selector_effects es
selector_effects (Act.listed fd r ∷ es) = selector_effects es
selector_effects (closed fd ∷ es) = selector_effects es

-- The registrations of a turn; one past the capacity is a fault.
abbrev pub with_selector : Requestor → List Act → Option FileSelector → Turn
with_selector s es none = crashed
with_selector s es (some fs) = turned (record s { fs = fs }) es

unfoldable pub perform : Turn → Turn
perform returned = returned
perform crashed = crashed
perform (turned s es) = with_selector s es (apply_effects (selector_effects es) s.fs)

unfoldable pub turn : World → Arrival → Requestor → Turn
turn w a s =
    if not s.ischangingacceptor && s.needchangeacceptor
    then perform (propose_change w s)
    else if ltb (length s.proposers) s.expected_proposers
    then perform (add_proposer w s)
    else perform (on_ready w a a.ready s)

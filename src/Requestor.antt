-- ===== src/Requestor.antt =====
-- src/requestor.cpp: the program beside a broker, which asks the proposers to monitor it and changes
-- its acceptors through a state machine of its own. What tcpconnect and the writes give during one
-- call is a `World`, with one reading of the clock.
pub mod Expiry
pub mod Commit
pub mod Loop
pub mod Arguments
mod Tests
use qpidrecovery.Base.{
  ℕ, zero, suc, ◌+◌, Bool, true, false, Option, none, some, List, [], ◌∷◌, ◌++◌, map, length, ltb,
  if◌then◌else◌, u32,
}
use qpidrecovery.Text.{Str}
use qpidrecovery.Common.{ParticipateRequest, ReplyProposer}
use qpidrecovery.Paxos.Proposal.{
  Proposal, no_proposal, recovery, acceptor_change, AcceptorChangeProposal, new_acceptor_change,
  get_version, head_slot, tail_slots,
}
use qpidrecovery.Paxos.Proposal.Content.{first_slots}
use qpidrecovery.Paxos.Message.{
  PaxosMessage, PaxosResult, handled, ignored, committing_self, committing_other, Effect, Fd,
  register_fd, Outcome,
}
use qpidrecovery.Paxos.Proposer.{
  Proposer, new_proposer, disconnect_acceptors, get_committing_proposal, send_commitment,
  handle_message, head_fd, tail_fds,
}
use qpidrecovery.FileSelector.{FileSelector, fd_eq}
use qpidrecovery.Heartbeat.{
  HeartbeatClient, new_heartbeat_client, read_message, is_expired, drop_client, heartbeat_period,
  Heard, hb_not_found, hb_handled, hb_lost, next_heard,
}
use qpidrecovery.Names.{VectorAndIndex}

-- What `main` keeps, and the lists of names that getProposerIP and getAcceptorIP take from.
pub record Requestor : Type 0 where
  pub servicename : Str
  pub brokerport : ℕ
  pub expected_proposers : ℕ
  pub expected_acceptors : ℕ
  pub needchangeacceptor : Bool
  pub ischangingacceptor : Bool
  pub proposers : List HeartbeatClient
  pub acceptors : List HeartbeatClient
  pub querysfd : Fd
  pub replysfd : List ℕ
  pub fs : FileSelector
  pub currentversion : ℕ
  pub psm : Proposer
  pub proposernames : VectorAndIndex
  pub acceptornames : VectorAndIndex

-- What a call does: an effect of a state machine or a client, a request to the port of an address,
-- the list of proposers that is written to a socket, and the close of a socket.
pub data Act : Type 0 where
  does : Effect → Act
  requested : Str → ℕ → ParticipateRequest → Act
  listed : ℕ → ReplyProposer → Act
  closed : ℕ → Act

-- getSecond, what tcpconnect returns to the heartbeat clients and the state machine, whether the
-- request to a port of an address is written, and whether the write to a socket succeeds.
pub record World : Type 0 where
  pub now : ℕ
  pub answers : List Fd
  pub sends : Str → ℕ → Bool
  pub writable : ℕ → Bool

abbrev pub request_proposer_port : ℕ
request_proposer_port = 5610

abbrev pub request_acceptor_port : ℕ
request_acceptor_port = 5620

abbrev pub acts_of : List Effect → List Act
acts_of es = map does es

-- copyIPArray, with the count that it returns beside the addresses.
unfoldable pub copy_ip_array : List HeartbeatClient → List Str
copy_ip_array [] = []
copy_ip_array (c ∷ v) = c.ip ∷ copy_ip_array v

unfoldable pub proposer_list : Str → List HeartbeatClient → ReplyProposer
proposer_list servicename proposers = record {
  name = servicename;
  count = length proposers;
  ip = copy_ip_array proposers;
}

-- replyProposerList, with whether it returns 0.
unfoldable pub reply_proposer_list : World → ℕ → Str → List HeartbeatClient → Bool × List Act
reply_proposer_list w fd servicename proposers =
    if w.writable fd
    then (true, listed fd (proposer_list servicename proposers) ∷ [])
    else (false, [])

unfoldable pub participate_request : Str → ℕ → ℕ → List HeartbeatClient → ParticipateRequest
participate_request servicename brokerport currentversion acceptors = record {
  name = servicename;
  brokerip = [];
  brokerport = brokerport;
  votingversion = u32 (currentversion + 1);
  committedversion = currentversion;
  count = length acceptors;
  acceptor = copy_ip_array acceptors;
}

-- sendRequest, with whether it returns 0.
unfoldable pub send_request : World → Str → Str → ℕ → ℕ → ℕ → List HeartbeatClient → Bool × List Act
send_request w servicename ip port brokerport currentversion acceptors =
    if w.sends ip port
    then (
      true,
      requested ip port (participate_request servicename brokerport currentversion acceptors) ∷ [],
    )
    else (false, [])

abbrev pub heard_first :
    HeartbeatClient × Bool → List HeartbeatClient → List HeartbeatClient × Heard
heard_first (c, failed) v = (c ∷ v, if failed then hb_lost 0 else hb_handled)

abbrev pub heard_later :
    HeartbeatClient → List HeartbeatClient × Heard → List HeartbeatClient × Heard
heard_later c (v, h) = (c ∷ v, next_heard h)

unfoldable pub receive_heartbeat :
    ℕ → Bool → Fd → List HeartbeatClient → List HeartbeatClient × Heard
receive_heartbeat now whole sfd [] = ([], hb_not_found)
receive_heartbeat now whole sfd (c ∷ v) =
    let rest = receive_heartbeat now whole sfd v in
    if fd_eq c.sfd sfd then heard_first (read_message now whole c) v else heard_later c rest

abbrev pub next_index : Option ℕ → Option ℕ
next_index none = none
next_index (some i) = some (suc i)

-- checkExpired; `none` is its -1.
unfoldable pub check_expired : ℕ → List HeartbeatClient → Option ℕ
check_expired now [] = none
check_expired now (c ∷ v) =
    let rest = check_expired now v in
    if is_expired now (heartbeat_period + heartbeat_period) c then some 0 else next_index rest

abbrev pub behind_client :
    HeartbeatClient → List HeartbeatClient × List Effect → List HeartbeatClient × List Effect
behind_client c (v, es) = (c ∷ v, es)

-- deleteHBC. Its index is always one that checkExpired or receiveHeartbeat has found.
unfoldable pub delete_hbc : ℕ → List HeartbeatClient → List HeartbeatClient × List Effect
delete_hbc i [] = ([], [])
delete_hbc zero (c ∷ v) = (v, drop_client c)
delete_hbc (suc i) (c ∷ v) = behind_client c (delete_hbc i v)

abbrev pub dropped :
    List Effect
    → Option (List HeartbeatClient × List Effect)
    → Option (List HeartbeatClient × List Effect)
dropped es none = none
dropped es (some (v, fs)) = some (v, es ++ fs)

-- `while((r = checkExpired(v)) >= 0) deleteHBC(r, v, fs)`, with fuel for the rounds; `none` is the
-- end of the fuel.
unfoldable pub drop_expired :
    ℕ → ℕ → List HeartbeatClient → Option (List HeartbeatClient × List Effect)
drop_expired zero now v = none
drop_expired (suc fuel) now v = elim (check_expired now v) [
  | none ↦ some (v, [])
  | some r ↦ let (rest, es) = delete_hbc r v in dropped es (drop_expired fuel now rest)
]

-- changeAcceptor: the clients that it deletes.
unfoldable pub drop_clients : List HeartbeatClient → List Effect
drop_clients [] = []
drop_clients (c ∷ v) = drop_client c ++ drop_clients v

-- The clients of the first `nacc` addresses.
unfoldable pub new_clients : ℕ → ℕ → List Str → List Fd → List HeartbeatClient
new_clients now zero acc answers = []
new_clients now (suc nacc) acc answers =
    new_heartbeat_client now (head_slot acc) (head_fd answers)
    ∷ new_clients now nacc (tail_slots acc) (tail_fds answers)

-- What tcpconnect returns behind the first `nacc` calls.
unfoldable pub skip_answers : ℕ → List Fd → List Fd
skip_answers zero answers = answers
skip_answers (suc nacc) answers = skip_answers nacc (tail_fds answers)

-- They are registered whether they are connected or not.
unfoldable pub register_clients : List HeartbeatClient → List Effect
register_clients [] = []
register_clients (c ∷ v) = register_fd c.sfd ∷ register_clients v

-- A request to the port of each address; an error is only printed.
unfoldable pub request_all : World → Str → ℕ → ℕ → ℕ → List HeartbeatClient → List Str → List Act
request_all w servicename port brokerport currentversion acceptors [] = []
request_all w servicename port brokerport currentversion acceptors (ip ∷ ips) =
    (send_request w servicename ip port brokerport currentversion acceptors).1
    ++ request_all w servicename port brokerport currentversion acceptors ips

-- changeAcceptor: the clients of the new acceptors, and what is done.
unfoldable pub change_acceptor :
    World
    → List HeartbeatClient
    → List HeartbeatClient
    → Str
    → ℕ
    → ℕ
    → ℕ
    → List Str
    → List HeartbeatClient × List Act
change_acceptor w acceptors proposers servicename brokerport currentversion nacc acc =
    let new = new_clients w.now nacc acc w.answers in
    (
      new,
      acts_of (drop_clients acceptors ++ register_clients new)
          ++ (request_all w servicename request_acceptor_port brokerport currentversion new
                (first_slots nacc acc)
              ++ request_all w servicename request_proposer_port brokerport currentversion new
                  (copy_ip_array proposers)),
    )

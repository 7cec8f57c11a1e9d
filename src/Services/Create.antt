-- ===== src/Services/Create.antt =====
-- createProposer, searchServiceByName and receiveHeartbeat of src/proposer.cpp.
use qpidrecovery.Base.{ℕ, Bool, false, Option, none, some, List, [], ◌∷◌, ◌++◌, ltb, if◌then◌else◌}
use qpidrecovery.Text.{Str, str_eq}
use qpidrecovery.Common.{ParticipateRequest}
use qpidrecovery.Paxos.Proposal.{new_acceptor_change, max_acceptors}
use qpidrecovery.Paxos.Message.{Effect, Fd}
use qpidrecovery.Paxos.Proposer.{new_proposer, disconnect_acceptors, head_fd, tail_fds}
use qpidrecovery.FileSelector.{fd_eq}
use qpidrecovery.Heartbeat.{
  HeartbeatClient, new_heartbeat_client, drop_client, register_client, read_message, Heard,
  hb_not_found, hb_handled, hb_lost, next_heard,
}
use qpidrecovery.Services.{Monitored}

unfoldable pub erase_service : Str → List Monitored → List Monitored
erase_service name [] = []
erase_service name (x ∷ xs) = if str_eq x.name name then xs else x ∷ erase_service name xs

-- What the end of the erased service does: `delete psm`, and that of its heartbeat client.
unfoldable pub end_service : Monitored → List Effect
end_service x = (disconnect_acceptors x.psm).1 ++ elim x.hbc [ none ↦ [] | some c ↦ drop_client c ]

unfoldable pub erase_effects : Str → List Monitored → List Effect
erase_effects name [] = []
erase_effects name (x ∷ xs) = if str_eq x.name name then end_service x else erase_effects name xs

-- The new entry of createProposer, in place of the one that is erased.
-- `answers` are what tcpconnect returns: first for the heartbeat client, then for the acceptors.
unfoldable pub put_proposer :
    ℕ → List Fd → ParticipateRequest → Str → List Monitored → List Monitored × List Effect
put_proposer now answers r from monitor =
    let hbc = new_heartbeat_client now from (head_fd answers) in
    let (psm, connected) =
      new_proposer now r.name r.votingversion
        (new_acceptor_change r.committedversion r.count r.acceptor) (tail_fds answers) in
    (
      erase_service r.name monitor
          ++ (record {
            psm = psm;
            hbc = some hbc;
            name = r.name;
            ip = from;
            port = r.brokerport;
            informlist = [];
          }
              ∷ []),
      erase_effects r.name monitor ++ (register_client hbc ++ connected),
    )

-- A request that counts more than MAX_ACCEPTORS acceptors would write past two arrays: `none`.
unfoldable pub create_proposer :
    ℕ → List Fd → ParticipateRequest → Str → List Monitored → Option (List Monitored × List Effect)
create_proposer now answers r from monitor =
    if ltb max_acceptors r.count then none else some (put_proposer now answers r from monitor)

-- `(*i).hbc != NULL`, and its descriptor is the one that is ready.
abbrev pub beats_on : Fd → Option HeartbeatClient → Bool
beats_on fd none = false
beats_on fd (some c) = fd_eq c.sfd fd

-- What readMessage of the client does to the service, and whether it fails.
abbrev pub with_client : Monitored → HeartbeatClient × Bool → Monitored × Bool
with_client x (c, failed) = (record x { hbc = some c }, failed)

unfoldable pub hear : ℕ → Bool → Monitored → Monitored × Bool
hear now whole x = elim x.hbc [
  | none ↦ (x, false)
  | some c ↦ with_client x (read_message now whole c)
]

abbrev pub heard_first : Monitored × Bool → List Monitored → List Monitored × Heard
heard_first (x, failed) xs = (x ∷ xs, if failed then hb_lost 0 else hb_handled)

abbrev pub heard_later : Monitored → List Monitored × Heard → List Monitored × Heard
heard_later x (xs, h) = (x ∷ xs, next_heard h)

-- receiveHeartbeat, for the first service whose heartbeat client has the descriptor.
unfoldable pub receive_heartbeat : ℕ → Bool → Fd → List Monitored → List Monitored × Heard
receive_heartbeat now whole fd [] = ([], hb_not_found)
receive_heartbeat now whole fd (x ∷ xs) =
    let rest = receive_heartbeat now whole fd xs in
    if beats_on fd x.hbc then heard_first (hear now whole x) xs else heard_later x rest

-- ===== src/Heartbeat.antt =====
-- HeartbeatClient of src/heartbeat/heartbeat_lib.cpp, and the server of src/heartbeat_server.cpp. The
-- descriptor that tcpconnect returns, whether a whole heartbeat is read, and which sockets take a
-- write are arguments. HEARTBEAT_PERIOD is 2.5 seconds, here in microseconds.
use qpidrecovery.Base.{
  ℕ, suc, ◌+◌, Bool, true, false, Option, none, some, List, [], ◌∷◌, ◌++◌, ltb, if◌then◌else◌,
}
use qpidrecovery.Text.{Str}
use qpidrecovery.Paxos.Message.{Fd, Effect, register_fd, unregister_fd, close_fd}
use qpidrecovery.FileSelector.{
  FileSelector, ReadyFd, ready, ready_timeout, ready_error, ready_nothing, fd_eq, reset_timeout,
}

abbrev pub heartbeat_period : ℕ
heartbeat_period = 2500000

pub record HeartbeatClient : Type 0 where
  pub ip : Str
  pub sfd : Fd
  pub timestamp : ℕ

unfoldable pub new_heartbeat_client : ℕ → Str → Fd → HeartbeatClient
new_heartbeat_client now ip fd = record { ip = ip; sfd = fd; timestamp = now }

-- readMessage: the client, and whether it returns -1.
unfoldable pub read_message : ℕ → Bool → HeartbeatClient → HeartbeatClient × Bool
read_message now whole c = elim c.sfd [
  | none ↦ (c, true)
  | some fd ↦ if whole then (record c { timestamp = now }, false) else (c, true)
]

unfoldable pub is_expired : ℕ → ℕ → HeartbeatClient → Bool
is_expired now t c = ltb (c.timestamp + t) now

-- What the destructor closes.
abbrev pub close_client : HeartbeatClient → List Effect
close_client c = elim c.sfd [ none ↦ [] | some fd ↦ close_fd (some fd) ∷ [] ]

-- The end of a heartbeat client: it leaves the file selector, and its socket is closed.
abbrev pub drop_client : HeartbeatClient → List Effect
drop_client c = unregister_fd c.sfd ∷ close_client c

-- `if(hbc->getFD() >= 0) fs.registerFD(hbc->getFD());`
abbrev pub register_client : HeartbeatClient → List Effect
register_client c = elim c.sfd [ none ↦ [] | some fd ↦ register_fd (some fd) ∷ [] ]

-- What receiveHeartbeat of the programs returns: HB_NOT_FOUND, HB_HANDLED, and the index of the client whose heartbeat is lost.
pub data Heard : Type 0 where
  hb_not_found hb_handled : Heard
  hb_lost : ℕ → Heard

abbrev pub next_heard : Heard → Heard
next_heard hb_not_found = hb_not_found
next_heard hb_handled = hb_handled
next_heard (hb_lost i) = hb_lost (suc i)

-- The server: sendHeartbeat, with the clients that stay and those that are closed.
unfoldable pub send_heartbeat : (Fd → Bool) → List Fd → List Fd
send_heartbeat writable [] = []
send_heartbeat writable (fd ∷ sfdvec) =
    let rest = send_heartbeat writable sfdvec in if writable fd then fd ∷ rest else rest

unfoldable pub close_unwritable : (Fd → Bool) → List Fd → List Effect
close_unwritable writable [] = []
close_unwritable writable (fd ∷ sfdvec) =
    let rest = close_unwritable writable sfdvec in if writable fd then rest else close_fd fd ∷ rest

pub record HeartbeatServer : Type 0 where
  pub sfd : Fd
  pub sfdvec : List Fd
  pub fs : FileSelector

-- One turn of the loop in `main`, with the descriptor that tcpaccept returns. `none` is the return
-- at an error of select.
unfoldable pub serve :
    (Fd → Bool) → Fd → ReadyFd → HeartbeatServer → Option (HeartbeatServer × List Effect)
serve writable accepted ready_error s = none
serve writable accepted ready_nothing s = some (s, [])
serve writable accepted ready_timeout s = some (
  record s { sfdvec = send_heartbeat writable s.sfdvec; fs = reset_timeout 2 0 s.fs },
  close_unwritable writable s.sfdvec,
)
serve writable accepted (ready fd) s =
    if fd_eq fd s.sfd
    then some (record s { sfdvec = s.sfdvec ++ (accepted ∷ []) }, [])
    else some (s, [])

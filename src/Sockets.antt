-- ===== src/Sockets.antt =====
-- src/common/socketlib.cpp, acceptRead of include/common.h, and what opens a connection and closes it. What the system calls return in one
-- call of these functions is an `Answers`; what is opened and closed is listed.
pub mod Leaks
mod Tests
use qpidrecovery.Base.{
  ℕ, Bool, true, false, not, ◌&&◌, ◌||◌, Option, none, some, List, [], ◌∷◌, ◌++◌, ◌==◌,
  if◌then◌else◌,
}
use qpidrecovery.Text.{Str}
use qpidrecovery.Paxos.Message.{Fd}
use qpidrecovery.MessageCopy.{CopyMessageRequest}

-- Whether inet_pton reads an address, the descriptors that socket and accept return, whether bind,
-- listen, connect, inet_ntop and recvfrom succeed, what sendto returns (`none` is -1), and
-- whether read or write takes a whole message.
pub record Answers : Type 0 where
  pub pton : Str → Bool
  pub socket : Fd
  pub accept : Fd
  pub bind : Bool
  pub listen : Bool
  pub connect : Bool
  pub ntop : Bool
  pub recvfrom : Bool
  pub sent : Option ℕ
  pub whole : Bool

pub data Act : Type 0 where
  opened closed : ℕ → Act

-- fillsockaddr_in, with whether it returns 0; a null address is INADDR_ANY.
unfoldable pub fill_sockaddr_in : Answers → Option Str → Bool
fill_sockaddr_in a none = true
fill_sockaddr_in a (some ipaddr) = a.pton ipaddr

-- A socket that is opened, and closed again if the next call on it fails.
unfoldable pub open_and : Bool → Fd → Fd × List Act
open_and ok none = (none, [])
open_and ok (some sfd) =
    if ok then (some sfd, opened sfd ∷ []) else (none, opened sfd ∷ closed sfd ∷ [])

unfoldable pub create_socket : Answers → Fd × List Act
create_socket a = if fill_sockaddr_in a none then open_and a.bind a.socket else (none, [])

unfoldable pub udp_socket : Answers → Fd × List Act
udp_socket a = create_socket a

-- Whether udpreceivefrom returns 0.
unfoldable pub udp_receive_from : Answers → Bool
udp_receive_from a = a.recvfrom && a.ntop

-- Whether udpsendto returns 0.
unfoldable pub udp_send_to : Answers → Str → ℕ → Bool
udp_send_to a ipaddress bufsize =
    fill_sockaddr_in a (some ipaddress) && elim a.sent [ none ↦ false | some n ↦ n == bufsize ]

abbrev pub listening : Bool → Fd × List Act → Fd × List Act
listening ok (none, es) = (none, es)
listening ok (some sfd, es) = (if ok then some sfd else none, es)

unfoldable pub tcp_server_socket : Answers → Fd × List Act
tcp_server_socket a = listening a.listen (create_socket a)

-- `wanted` is whether the caller asks for the address of the other end.
unfoldable pub tcp_accept : Answers → Bool → Fd × List Act
tcp_accept a wanted = open_and (not wanted || a.ntop) a.accept

unfoldable pub tcp_connect : Answers → Str → Fd × List Act
tcp_connect a ipaddr =
    if fill_sockaddr_in a (some ipaddr) then open_and a.connect a.socket else (none, [])

abbrev pub reading : Bool → Fd × List Act → Fd × List Act
reading ok (none, es) = (none, es)
reading ok (some newsfd, es) = if ok then (some newsfd, es) else (none, es ++ (closed newsfd ∷ []))

unfoldable pub accept_read : Answers → Fd × List Act
accept_read a = reading a.whole (tcp_accept a true)

-- checkFailure of src/setting/namelist.cpp: whether the host fails.
abbrev pub failing : Fd × List Act → Bool × List Act
failing (none, es) = (true, es)
failing (some sfd, es) = (false, es ++ (closed sfd ∷ []))

unfoldable pub check_failure : Answers → Str → Bool × List Act
check_failure a checkip = failing (tcp_connect a checkip)

-- sendCopyMessageRequest of src/proposer.cpp: the request that is written; `none` is -1.
abbrev pub requested :
    Bool → CopyMessageRequest → Fd × List Act → Option CopyMessageRequest × List Act
requested written cmr (none, es) = (none, es)
requested written cmr (some sfd, es) = (if written then some cmr else none, es ++ (closed sfd ∷ []))

unfoldable pub send_copy_message_request :
    Answers → Str → ℕ → Str → ℕ → Str → Str → Option CopyMessageRequest × List Act
send_copy_message_request a srcip srcport newip newport srcobjname newobjname =
    requested a.whole
      (record {
        sourceip = srcip;
        sourceport = srcport;
        targetip = newip;
        targetport = newport;
        sourcename = srcobjname;
        targetname = newobjname;
      })
      (tcp_connect a srcip)

-- The functions that return a descriptor, and the two that close the one they open.
pub data Call : Type 0 where
  udp_call server_call read_call : Call
  accept_call : Bool → Call
  connect_call check_call : Str → Call
  request_call : CopyMessageRequest → Call

unfoldable pub run : Answers → Call → Fd × List Act
run a udp_call = udp_socket a
run a server_call = tcp_server_socket a
run a read_call = accept_read a
run a (accept_call wanted) = tcp_accept a wanted
run a (connect_call ipaddr) = tcp_connect a ipaddr
run a (check_call checkip) = (none, (check_failure a checkip).1)
run a (request_call r) = (
  none,
  (send_copy_message_request a r.sourceip r.sourceport r.targetip r.targetport r.sourcename
      r.targetname).1,
)

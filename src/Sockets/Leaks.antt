-- ===== src/Sockets/Leaks.antt =====
-- Which descriptors the functions of src/common/socketlib.cpp leave open.
use qpidrecovery.Base.{
  ℕ, ◌≡◌, ◌≢◌, refl, Bool, true, false, not, ◌&&◌, ◌||◌, none, some, List, [], ◌∷◌, ◌==◌, ==_refl,
  if◌then◌else◌, Bool-cases, inl, inr,
}
use qpidrecovery.Paxos.Message.{Fd}
use qpidrecovery.MessageCopy.{CopyMessageRequest}
use qpidrecovery.Sockets.{
  Answers, Act, opened, closed, fill_sockaddr_in, open_and, create_socket, udp_socket, listening,
  tcp_server_socket, tcp_accept, tcp_connect, reading, accept_read, Call, udp_call, server_call,
  read_call, accept_call, connect_call, check_call, request_call, failing, requested, check_failure,
  send_copy_message_request, run,
}

-- The open descriptors: a new one in front, and a closed one taken out.
unfoldable pub close_one : ℕ → List ℕ → List ℕ
close_one fd [] = []
close_one fd (x ∷ xs) = if x == fd then xs else x ∷ close_one fd xs

unfoldable pub open_after : List Act → List ℕ → List ℕ
unfolding close_one
open_after [] fds = fds
open_after (opened fd ∷ es) fds = open_after es (fd ∷ fds)
open_after (closed fd ∷ es) fds = open_after es (close_one fd fds)

abbrev pub with_fd : Fd → List ℕ → List ℕ
with_fd none fds = fds
with_fd (some fd) fds = fd ∷ fds

-- The socket that listen fails on.
abbrev pub lost_fd : Answers → Call → Fd
lost_fd a server_call = if a.bind && not a.listen then a.socket else none
lost_fd a udp_call = none
lost_fd a read_call = none
lost_fd a (accept_call wanted) = none
lost_fd a (connect_call ipaddr) = none
lost_fd a (check_call checkip) = none
lost_fd a (request_call r) = none

open_and_lem :
    (ok : Bool) (fd : Fd) (fds : List ℕ)
    → open_after (open_and ok fd).1 fds ≡ with_fd (open_and ok fd).0 fds
unfolding open_after open_and close_one
open_and_lem ok none fds = refl
open_and_lem true (some fd) fds = refl
open_and_lem false (some fd) fds = rw (==_refl fd) refl

listening_lem :
    (bind listen : Bool) (fd : Fd) (fds : List ℕ)
    → open_after (listening listen (open_and bind fd)).1 fds
      ≡ with_fd
          (listening listen (open_and bind fd)).0
          (with_fd (if bind && not listen then fd else none) fds)
unfolding open_after open_and close_one
listening_lem true true none fds = refl
listening_lem true false none fds = refl
listening_lem false listen none fds = refl
listening_lem true true (some fd) fds = refl
listening_lem true false (some fd) fds = refl
listening_lem false listen (some fd) fds = rw (==_refl fd) refl

listening_lost :
    (bind listen : Bool) (fd : Fd)
    → (if bind && not listen then fd else none) ≢ none
    → (listening listen (open_and bind fd)).0 ≡ none
unfolding open_and
listening_lost true true fd h = absurd (h refl)
listening_lost true false none h = refl
listening_lost true false (some fd) h = refl
listening_lost false listen fd h = absurd (h refl)

reading_lem :
    (whole ok : Bool) (fd : Fd) (fds : List ℕ)
    → open_after (reading whole (open_and ok fd)).1 fds
      ≡ with_fd (reading whole (open_and ok fd)).0 fds
unfolding open_after open_and close_one
reading_lem whole ok none fds = refl
reading_lem true true (some fd) fds = refl
reading_lem false true (some fd) fds = rw (==_refl fd) refl
reading_lem whole false (some fd) fds = rw (==_refl fd) refl

-- A connection that is closed behind its use.
connected_lem :
    (ok : Bool) (fd : Fd) (fds : List ℕ)
    → (open_after (failing (open_and ok fd)).1 fds ≡ fds)
      × ((written : Bool) (r : CopyMessageRequest)
          → open_after (requested written r (open_and ok fd)).1 fds ≡ fds)
unfolding open_after open_and close_one
connected_lem ok none fds = (refl, λ written r. refl)
connected_lem true (some fd) fds = rw (==_refl fd) (refl, λ written r. refl)
connected_lem false (some fd) fds = rw (==_refl fd) (refl, λ written r. refl)

-- Every function that returns a descriptor leaves exactly this one open beside those that were open,
-- and none when it returns -1; the only exception is tcpserversocket when listen fails, which returns
-- -1 and leaves the socket that it bound open. checkFailure and sendCopyMessageRequest leave nothing
-- open.
pub open_after-run :
    (a : Answers) (c : Call) (fds : List ℕ)
    → (open_after (run a c).1 fds ≡ with_fd (run a c).0 (with_fd (lost_fd a c) fds))
      × (lost_fd a c ≢ none → (run a c).0 ≡ none)
unfolding run udp_socket create_socket fill_sockaddr_in tcp_server_socket accept_read tcp_accept
    tcp_connect open_after check_failure send_copy_message_request
open_after-run a udp_call fds = (open_and_lem a.bind a.socket fds, λ h. absurd (h refl))
open_after-run a server_call fds =
    (listening_lem a.bind a.listen a.socket fds, listening_lost a.bind a.listen a.socket)
open_after-run a read_call fds = (reading_lem a.whole a.ntop a.accept fds, λ h. absurd (h refl))
open_after-run a (accept_call wanted) fds =
    (open_and_lem (not wanted || a.ntop) a.accept fds, λ h. absurd (h refl))
open_after-run a (connect_call ipaddr) fds = elim (Bool-cases (a.pton ipaddr)) [
  | inl e ↦ rw e (open_and_lem a.connect a.socket fds, λ h. absurd (h refl))
  | inr e ↦ rw e (refl, λ h. absurd (h refl))
]
open_after-run a (check_call checkip) fds = elim (Bool-cases (a.pton checkip)) [
  | inl e ↦ rw e ((connected_lem a.connect a.socket fds).0, λ h. absurd (h refl))
  | inr e ↦ rw e (refl, λ h. absurd (h refl))
]
open_after-run a (request_call r) fds = elim (Bool-cases (a.pton r.sourceip)) [
  | inl e ↦ rw e ((connected_lem a.connect a.socket fds).1 a.whole r, λ h. absurd (h refl))
  | inr e ↦ rw e (refl, λ h. absurd (h refl))
]

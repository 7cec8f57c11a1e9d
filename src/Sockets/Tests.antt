-- ===== src/Sockets/Tests.antt =====
-- A witness for the sockets.
use qpidrecovery.Base.{◌≡◌, ◌≢◌, true, false, none, some, [], ◌∷◌}
use qpidrecovery.Sockets.{
  Answers, server_call, run, tcp_server_socket, create_socket, fill_sockaddr_in, open_and,
}
use qpidrecovery.Sockets.Leaks.{open_after, lost_fd, open_after-run}

abbrev answers : Answers
answers = record {
  pton = λ ip. true;
  socket = some 7;
  accept = none;
  bind = true;
  listen = false;
  connect = false;
  ntop = true;
  recvfrom = false;
  sent = none;
  whole = false;
}

open_after-run_example :
    (open_after (run answers server_call).1 (3 ∷ []) ≡ 7 ∷ 3 ∷ [])
    × (lost_fd answers server_call ≢ none → (run answers server_call).0 ≡ none)
unfolding run tcp_server_socket create_socket fill_sockaddr_in open_and
open_after-run_example = open_after-run answers server_call (3 ∷ [])

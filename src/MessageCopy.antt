-- ===== src/MessageCopy.antt =====
-- QpidClient of src/messagecopy.cpp, and the server of src/messagecopy_server.cpp. The messages and
-- what the calls of the broker library give are arguments.
pub mod Forwarded
mod Tests
use qpidrecovery.Base.{
  ℕ, zero, suc, ◌+◌, ◌-◌, ◌%◌, Bool, true, false, ◌&&◌, Option, none, some, List, [], ◌∷◌, ◌++◌,
  replicate, ltb, if◌then◌else◌,
}
use qpidrecovery.Text.{Str, codes}
use qpidrecovery.Address.{ip_port_to_url}
use qpidrecovery.Paxos.Message.{Fd}
use qpidrecovery.FileSelector.{
  FileSelector, ReadyFd, ready, ready_timeout, ready_error, ready_nothing, fd_eq, reset_timeout,
}

-- Whether createSender and createReceiver succeed for an address, the messages that fetch returns
-- with the time behind each, up to its first exception, whether a numbered send succeeds, whether the
-- calls of close do, and the time at which the loop starts.
pub record Broker (Message : Type 0) : Type 0 where
  pub sender : Str → Bool
  pub receiver : Str → Bool
  pub fetched : List (Message × ℕ)
  pub accepts : ℕ → Bool
  pub closes : Bool
  pub now : ℕ

unfoldable pub send_option : Str → Str
send_option targetname = targetname ++ codes "; {create:never}"

unfoldable pub receive_option : Str → Str
receive_option queuename = queuename ++ codes "; {create:never, mode:browse}"

-- randomString: 'a' + i % 26, for the first `n` indices from `i`.
unfoldable pub letters : ℕ → ℕ → Str
letters zero i = []
letters (suc n) i = (b'a' + i % 26) ∷ letters n (i + 1)

abbrev pub random_string_length : ℕ
random_string_length = 10000

unfoldable pub random_string : ℕ → Str
random_string n = letters (if ltb random_string_length n then random_string_length else n) 0

module _ {Message : Type 0} where
  abbrev pub sent_first : Message → Bool × List Message → Bool × List Message
  sent_first m (ok, ms) = (ok, m ∷ ms)

  -- The loop of send, from the send of number `i`: whether no exception ends it, and what is sent.
  unfoldable pub send_all : (ℕ → Bool) → ℕ → List Message → Bool × List Message
  send_all accepts i [] = (true, [])
  send_all accepts i (m ∷ msgvec) =
      let rest = send_all accepts (i + 1) msgvec in
      if accepts i then sent_first m rest else (false, [])

  abbrev pub then_closed : Bool → Bool × List Message → Bool × List Message
  then_closed closes (ok, ms) = (ok && closes, ms)

  -- send, with whether it returns 0, and what is sent.
  unfoldable pub send : Broker Message → Str → List Message → Bool × List Message
  send b targetname msgvec =
      if b.sender (send_option targetname)
      then then_closed b.closes (send_all b.accepts 0 msgvec)
      else (false, [])

  -- The loop of receive: it ends 4 seconds after its start, or at an exception.
  unfoldable pub gather : ℕ → List (Message × ℕ) → List Message
  gather start [] = []
  gather start ((m, now) ∷ fetched) =
      let rest = gather start fetched in if ltb (start + 4000000) now then [] else m ∷ rest

  -- receive, with whether it returns 0, and what is put into `msgvec`.
  unfoldable pub receive : Broker Message → Str → Bool × List Message
  receive b queuename =
      if b.receiver (receive_option queuename)
      then (b.closes, gather b.now b.fetched)
      else (false, [])

  -- The loop of receiveSend: what is sent.
  unfoldable pub forward : (ℕ → Bool) → ℕ → ℕ → List (Message × ℕ) → List Message
  forward accepts i start [] = []
  forward accepts i start ((m, now) ∷ fetched) =
      let rest = forward accepts (i + 1) start fetched in
      if ltb (start + 4000000) now then [] else if accepts i then m ∷ rest else []

  unfoldable pub receive_send : Broker Message → Str → Str → Bool × List Message
  receive_send b sourcename targetname =
      if b.sender (send_option targetname) && b.receiver (receive_option sourcename)
      then (b.closes, forward b.accepts 0 b.now b.fetched)
      else (false, [])

  -- sendRandomString: `random` is what rand returns, and `message` the constructor of Message.
  unfoldable pub send_random_string :
      Broker Message → (Str → Message) → ℕ → Str → Bool × List Message
  send_random_string b message random targetname =
      send b targetname (replicate (120 - random % 100) (message (random_string 2048)))

pub record CopyMessageRequest : Type 0 where
  pub sourceip : Str
  pub sourceport : ℕ
  pub targetip : Str
  pub targetport : ℕ
  pub sourcename : Str
  pub targetname : Str

-- copyThread, for the client of the two urls.
unfoldable pub copy_thread :
    {Message : Type 0} → (Str → Str → Broker Message) → CopyMessageRequest → Bool × List Message
copy_thread client cmr =
    receive_send
      (client (ip_port_to_url cmr.sourceip cmr.sourceport)
        (ip_port_to_url cmr.targetip cmr.targetport))
      cmr.sourcename cmr.targetname

-- One turn of the loop in `main`: the selector, and the request that a thread is started for. It is
-- started after a failed acceptRead too, with what that has read.
unfoldable pub serve_copy :
    Fd → CopyMessageRequest → ReadyFd → FileSelector → FileSelector × Option CopyMessageRequest
serve_copy cmsfd p ready_timeout fs = (reset_timeout 1000 0 fs, none)
serve_copy cmsfd p ready_error fs = (fs, none)
serve_copy cmsfd p ready_nothing fs = (fs, none)
serve_copy cmsfd p (ready fd) fs = if fd_eq fd cmsfd then (fs, some p) else (fs, none)

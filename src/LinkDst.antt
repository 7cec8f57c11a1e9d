-- ===== src/LinkDst.antt =====
-- LinkDstListener of include/proposer_link.h and src/proposer_link.cpp: the sockets on which a
-- proposer waits for the new address of a link's destination. What tcpconnect and read bring is an
-- argument; the results of the writes are only printed. An entry keeps its first `count` sockets.
pub mod Living
mod Tests
use qpidrecovery.Paxos.Proposal.{max_proposers}
use qpidrecovery.Base.{
  ℕ, zero, suc, ◌+◌, ◌-◌, Bool, true, false, ◌&&◌, Option, none, some, List, [], ◌∷◌, ◌++◌, ◌==◌,
  if◌then◌else◌, u32, u32_mod, ltb, length,
}
use qpidrecovery.Text.{Str, str_eq}
use qpidrecovery.Common.{ReplyAddress}
use qpidrecovery.Paxos.Message.{Fd}

pub record AddressChange : Type 0 where
  pub name : Str
  pub livingcount : ℕ
  pub sfd : List Fd
  pub srcip : Str
  pub srcport : ℕ
  pub oldip : Str
  pub oldport : ℕ

-- The query that is written to a proposer, and the calls on the file selector and the socket.
pub data LinkEffect : Type 0 where
  query : ℕ → Str → LinkEffect
  registered : ℕ → LinkEffect
  unregistered : ℕ → LinkEffect
  closed : ℕ → LinkEffect

unfoldable pub living : List Fd → ℕ
living [] = 0
living (none ∷ fds) = living fds
living (some fd ∷ fds) = suc (living fds)

unfoldable pub connect_effects : Str → List Fd → List LinkEffect
connect_effects name [] = []
connect_effects name (none ∷ fds) = connect_effects name fds
connect_effects name (some fd ∷ fds) = query fd name ∷ registered fd ∷ connect_effects name fds

-- listenAddressChange: the entries, whether it returns 0 (else -1), and what it did. `answers` are
-- the descriptors that the proposers of the list are connected by; more than MAX_PROPOSERS of them
-- would be written past two arrays: `none`.
unfoldable pub listen_address_change :
    Str
    → List Fd
    → Str
    → ℕ
    → Str
    → ℕ
    → List AddressChange
    → Option (List AddressChange × Bool × List LinkEffect)
listen_address_change name answers sip sport oip oport listening =
    let es = connect_effects name answers in
    if ltb max_proposers (length answers)
    then none
    else some (
        if living answers == 0 then (listening, false, es) else (
          listening
              ++ (record {
                name = name;
                livingcount = living answers;
                sfd = answers;
                srcip = sip;
                srcport = sport;
                oldip = oip;
                oldport = oport;
              }
                  ∷ []),
          true,
          es,
        ))

abbrev pub is_fd : ℕ → Fd → Bool
is_fd fd none = false
is_fd fd (some n) = n == fd

unfoldable pub listens : ℕ → List Fd → Bool
listens fd [] = false
listens fd (x ∷ xs) = if is_fd fd x then true else listens fd xs

-- `sfd[j] = -1` for the first `j` that holds the descriptor.
unfoldable pub forget : ℕ → List Fd → List Fd
forget fd [] = []
forget fd (x ∷ xs) = if is_fd fd x then none ∷ xs else x ∷ forget fd xs

unfoldable pub close_effects : List Fd → List LinkEffect
close_effects [] = []
close_effects (none ∷ fds) = close_effects fds
close_effects (some fd ∷ fds) = unregistered fd ∷ closed fd ∷ close_effects fds

unfoldable pub close_slots : List Fd → List Fd
close_slots [] = []
close_slots (fd ∷ fds) = none ∷ close_slots fds

-- 0, -1, 2, and 1 with the source, the old and the new address.
pub data Reading : Type 0 where
  not_found read_error no_change : Reading
  changed : Str → ℕ → Str → ℕ → Str → ℕ → Reading

pub record Turn : Type 0 where
  pub entry : AddressChange
  pub reading : Reading
  pub effects : List LinkEffect

-- What readAddressChange does with the entry that listens on the descriptor.
unfoldable pub read_entry : ℕ → Option ReplyAddress → AddressChange → Turn
read_entry fd none e = record {
  entry = record e { sfd = forget fd e.sfd; livingcount = u32 (e.livingcount + (u32_mod - 1)) };
  reading = read_error;
  effects = unregistered fd ∷ closed fd ∷ [];
}
read_entry fd (some ra) e =
    if str_eq e.name ra.name
    then (if str_eq e.oldip ra.ip && (e.oldport == ra.port)
        then record { entry = e; reading = no_change; effects = [] }
        else record {
          entry = record e { sfd = close_slots e.sfd };
          reading = changed e.srcip e.srcport e.oldip e.oldport ra.ip ra.port;
          effects = close_effects e.sfd;
        })
    else record { entry = e; reading = read_error; effects = [] }

abbrev pub behind :
    AddressChange
    → List AddressChange × Reading × List LinkEffect
    → List AddressChange × Reading × List LinkEffect
behind e (es, r, fs) = (e ∷ es, r, fs)

unfoldable pub read_address_change :
    ℕ → Option ReplyAddress → List AddressChange → List AddressChange × Reading × List LinkEffect
read_address_change fd got [] = ([], not_found, [])
read_address_change fd got (e ∷ es) =
    let rest = read_address_change fd got es in
    if listens fd e.sfd
    then (let t = read_entry fd got e in (t.entry ∷ es, t.reading, t.effects))
    else behind e rest

-- ===== src/Requestor/Loop/Start.antt =====
-- What `main` of src/requestor.cpp does before its loop, and any number of its turns.
use qpidrecovery.Base.{
  ℕ, ◌+◌, not, ◌||◌, Option, none, some, List, [], ◌∷◌, ltb, ◌==◌, if◌then◌else◌, u32, false,
}
use qpidrecovery.Text.{Str}
use qpidrecovery.Paxos.Proposal.{new_acceptor_change, max_proposers, max_acceptors}
use qpidrecovery.Paxos.Message.{Fd, register_fd}
use qpidrecovery.Paxos.Proposer.{new_proposer, head_fd}
use qpidrecovery.FileSelector.{new_file_selector}
use qpidrecovery.Heartbeat.{new_heartbeat_client}
use qpidrecovery.Names.{VectorAndIndex}
use qpidrecovery.Requestor.{Requestor, does, World}
use qpidrecovery.Requestor.Loop.{Arrival, Turn, returned, crashed, turned, perform, turn}

-- The arguments of the program, with the names that are read from its two files.
pub record Arguments : Type 0 where
  pub servicename : Str
  pub brokerport : ℕ
  pub expected_proposers : ℕ
  pub expected_acceptors : ℕ
  pub landmarkip : Option Str
  pub proposernames : VectorAndIndex
  pub acceptornames : VectorAndIndex

-- Beside a landmark no others are expected.
abbrev pub expected_of : Option Str → ℕ → ℕ
expected_of none n = n
expected_of (some ip) n = 0

unfoldable pub new_requestor : World → Fd → Arguments → Requestor
new_requestor w querysfd o = record {
  servicename = o.servicename;
  brokerport = o.brokerport;
  expected_proposers = expected_of o.landmarkip o.expected_proposers;
  expected_acceptors = expected_of o.landmarkip o.expected_acceptors;
  needchangeacceptor = not (expected_of o.landmarkip o.expected_acceptors == 0);
  ischangingacceptor = false;
  proposers = [];
  acceptors = [];
  querysfd = querysfd;
  replysfd = [];
  fs = new_file_selector 0 0;
  currentversion = 0;
  psm = (new_proposer w.now o.servicename (u32 (0 + 1)) (new_acceptor_change 0 0 []) []).0;
  proposernames = o.proposernames;
  acceptornames = o.acceptornames;
}

-- The landmark is the one proposer; the program returns if it cannot be reached.
unfoldable pub with_landmark : World → Option Str → Requestor → Turn
with_landmark w none s = turned s (does (register_fd s.querysfd) ∷ [])
with_landmark w (some ip) s = elim (head_fd w.answers) [
  | none ↦ returned
  | some fd ↦
      turned (record s { proposers = new_heartbeat_client w.now ip (some fd) ∷ [] })
        (does (register_fd s.querysfd) ∷ does (register_fd (some fd)) ∷ [])
]

unfoldable pub start : World → Fd → Arguments → Turn
start w querysfd o =
    if ltb max_acceptors (expected_of o.landmarkip o.expected_acceptors)
      || ltb max_proposers (expected_of o.landmarkip o.expected_proposers)
    then returned
    else perform (with_landmark w o.landmarkip (new_requestor w querysfd o))

-- The turns of the loop, each with what it gets.
unfoldable pub run : Turn → List (World × Arrival) → Turn
run t [] = t
run returned ((w, a) ∷ steps) = returned
run crashed ((w, a) ∷ steps) = crashed
run (turned s es) ((w, a) ∷ steps) = run (turn w a s) steps

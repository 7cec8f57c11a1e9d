-- ===== src/Paxos/Acceptor.antt =====
-- AcceptorStateMachine of src/paxos/paxos.cpp. `now` is what getSecond returns during the call, and
-- times are in microseconds: `a - b <= t` on doubles is `a <= b + t` here. `delete` and the prints
-- have no counterpart. A null proposal that a handler would dereference or store makes the call
-- `none`.
pub mod Phases
pub mod Votes
use qpidrecovery.Base.{
  ℕ, ◌+◌, ◌≤◌, ◌++◌, ◌||◌, Bool, true, false, Option, none, some, List, [], ◌∷◌, Ordering, ltb, leb,
  if◌then◌else◌, ◌≡◌,
}
use qpidrecovery.Text.{Str, str_eq}
use qpidrecovery.Paxos.Proposal.{Proposal, no_proposal, get_version, compare_proposal}
use qpidrecovery.Paxos.Message.{
  MessageType, phase1proposal, phase1ack, phase1nack, phase2request, phase2ack, phase2nack,
  phase3commit, PaxosState, PaxosResult, handled, ignored, PaxosMessage, Effect, send, Outcome,
  outcome, send_paxos_header, send_header_proposal,
}

pub record Acceptor : Type 0 where
  pub name : Str
  pub version : ℕ
  pub lastcommit : Proposal
  pub state : PaxosState
  pub timestamp : ℕ
  pub promise : Proposal

unfoldable pub new_acceptor : ℕ → Str → ℕ → Proposal → Acceptor
new_acceptor now m v last = record {
  name = m;
  version = v;
  lastcommit = last;
  state = PaxosState.phase1;
  timestamp = now;
  promise = no_proposal;
}

unfoldable pub check_timeout : ℕ → ℕ → Acceptor → Acceptor × PaxosResult
check_timeout now timeout a =
    if leb now (a.timestamp + timeout) then (a, ignored) else (elim a.state [
      | PaxosState.initial ↦ (a, ignored)
      | PaxosState.phase3 ↦ (a, ignored)
      | _ ↦ (record a { promise = no_proposal; state = PaxosState.phase1 }, handled)
    ])

abbrev pub is_gt : Ordering → Bool
is_gt Ordering.gt = true
is_gt Ordering.eq = false
is_gt Ordering.lt = false

abbrev pub is_ne : Ordering → Bool
is_ne Ordering.eq = false
is_ne Ordering.lt = true
is_ne Ordering.gt = true

unfoldable pub handle_phase1_message : ℕ → ℕ → Proposal → ℕ → Acceptor → Outcome Acceptor
handle_phase1_message now replysfd p v a = elim a.state [
  | PaxosState.phase3 ↦
      outcome a handled (send_header_proposal replysfd phase3commit v a.name a.lastcommit ∷ [])
  | PaxosState.phase1 ↦
      if is_gt (compare_proposal a.promise p)
      then outcome a handled (send_paxos_header replysfd phase1nack v a.name ∷ [])
      else outcome (record a { promise = p; timestamp = now }) handled
          (send_paxos_header replysfd phase1ack v a.name ∷ [])
  | _ ↦ outcome a handled []
]

unfoldable pub handle_phase2_message : ℕ → ℕ → Proposal → ℕ → Acceptor → Outcome Acceptor
handle_phase2_message now replysfd p v a = elim a.state [
  | PaxosState.phase3 ↦
      outcome a handled (send_header_proposal replysfd phase3commit v a.name a.lastcommit ∷ [])
  | PaxosState.phase1 ↦
      if is_ne (compare_proposal a.promise p)
      then outcome a handled (send_paxos_header replysfd phase2nack v a.name ∷ [])
      else outcome (record a { timestamp = now; state = PaxosState.phase2 }) handled
          (send_paxos_header replysfd phase2ack v a.name ∷ [])
  | _ ↦ outcome a handled []
]

unfoldable pub handle_phase3_message : ℕ → Proposal → Acceptor → Outcome Acceptor
handle_phase3_message now p a = elim a.state [
  | PaxosState.phase3 ↦ outcome a handled []
  | _ ↦ outcome (record a { lastcommit = p; state = PaxosState.phase3; timestamp = now }) handled []
]

-- The proposal that the message still owns, getProposalPtr, goes to the handler.
abbrev pub with_proposal :
    {S : Type 0} → Option Proposal → (Proposal → Outcome S) → Option (Outcome S)
with_proposal none f = none
with_proposal (some p) f = some (f p)

-- The `switch` of handleMessage, at the acceptor's own version.
unfoldable pub dispatch : ℕ → ℕ → PaxosMessage → Acceptor → Option (Outcome Acceptor)
unfolding handle_phase1_message handle_phase2_message handle_phase3_message
dispatch now replysfd m a = elim m.type [
  | phase1proposal ↦ with_proposal m.proposal λ p. handle_phase1_message now replysfd p m.version a
  | phase2request ↦ with_proposal m.proposal λ p. handle_phase2_message now replysfd p m.version a
  | phase3commit ↦ with_proposal m.proposal λ p. handle_phase3_message now p a
  | _ ↦ some (outcome a handled [])
]

-- The answer to a proposer of an older version.
unfoldable pub answer_outdated : ℕ → ℕ → Acceptor → Outcome Acceptor
answer_outdated replysfd v a = outcome a handled (
    if leb v (get_version a.lastcommit)
    then send_header_proposal replysfd phase3commit v a.name a.lastcommit ∷ []
    else [])

unfoldable pub handle_message : ℕ → ℕ → PaxosMessage → Acceptor → Option (Outcome Acceptor)
unfolding answer_outdated
handle_message now replysfd m a =
    if str_eq m.name a.name
    then (if ltb a.version m.version
        then some (outcome a handled [])
        else if ltb m.version a.version
        then some (answer_outdated replysfd m.version a)
        else dispatch now replysfd m a)
    else some (outcome a ignored [])

-- What happens to an acceptor: a message that `acceptor.cpp` hands on, or a timeout check.
pub data Event : Type 0 where
  message : ℕ → ℕ → PaxosMessage → Event
  tick : ℕ → ℕ → Event

unfoldable pub step : Acceptor → Event → Option (Outcome Acceptor)
step a (message now fd m) = handle_message now fd m a
step a (tick now timeout) = let (b, r) = check_timeout now timeout a in some (outcome b r [])

unfoldable pub run : Acceptor → List Event → Option Acceptor
run a [] = some a
run a (e ∷ es) = elim (step a e) [ none ↦ none | some o ↦ run o.machine es ]

-- No timeout check of the history finds the timeout passed.
abbrev pub Calm : Acceptor → Event → Type 0
Calm a (message now fd m) = Unit
Calm a (tick now timeout) = now ≤ a.timestamp + timeout

abbrev pub Quiet : Acceptor → List Event → Type 0
Quiet a [] = Unit
Quiet a (e ∷ es) = Calm a e × elim (step a e) [ none ↦ Unit {0} | some o ↦ Quiet o.machine es ]

-- The proposal whose PHASE2REQUEST the step answers by PHASE2ACK: a vote.
abbrev pub is_ack : Effect → Bool
is_ack (send fd m) = elim m.type [ phase2ack ↦ true | _ ↦ false ]
is_ack _ = false

abbrev pub has_ack : List Effect → Bool
has_ack [] = false
has_ack (x ∷ xs) = is_ack x || has_ack xs

abbrev pub listed : Option Proposal → List Proposal
listed none = []
listed (some p) = p ∷ []

unfoldable pub vote : Acceptor → Event → List Proposal
vote a (tick now timeout) = []
vote a (message now fd m) = elim (handle_message now fd m a) [
  | none ↦ []
  | some o ↦ if has_ack o.effects then listed m.proposal else []
]

unfoldable pub votes : Acceptor → List Event → List Proposal
votes a [] = []
votes a (e ∷ es) = vote a e ++ elim (step a e) [ none ↦ [] | some o ↦ votes o.machine es ]

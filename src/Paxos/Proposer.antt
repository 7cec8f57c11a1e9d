-- ===== src/Paxos/Proposer.antt =====
-- ProposerStateMachine of src/paxos/paxos.cpp. `now` is what getSecond returns during the call, and
-- `answers` is what tcpconnect returns for each slot in turn. The source writes past accsfd for more
-- than MAX_ACCEPTORS acceptors: the programs that make a proposer are `none` for such a number, or, as
-- the requestor, never have one, so that the slots behind the last of the list are not reached.
pub mod Commit
pub mod Count
use qpidrecovery.Base.{
  ℕ, zero, suc, ◌+◌, ◌*◌, Bool, true, false, not, ◌&&◌, ◌||◌, Option, none, some, List, [], ◌∷◌,
  ◌++◌, map, ltb, leb, ◌==◌, if◌then◌else◌, u32, replicate,
}
use qpidrecovery.Text.{Str, str_eq}
use qpidrecovery.Paxos.Proposal.{
  Proposal, no_proposal, acceptor_change, AcceptorChangeProposal, max_acceptors,
}
use qpidrecovery.Paxos.Message.{
  MessageType, phase1proposal, phase1ack, phase1nack, phase2request, phase2ack, phase2nack,
  phase3commit, PaxosState, PaxosResult, handled, ignored, committing_self, committing_other,
  PaxosMessage, Fd, Effect, register_fd, unregister_fd, close_fd, Outcome, outcome,
  send_header_proposal,
}

pub record Proposer : Type 0 where
  pub name : Str
  pub version : ℕ
  pub lastcommit : Proposal
  pub state : PaxosState
  pub timestamp : ℕ
  pub proposal : Proposal
  pub phase1acks : ℕ
  pub phase1nacks : ℕ
  pub phase2acks : ℕ
  pub phase2nacks : ℕ
  pub nacceptor : ℕ
  pub accsfd : List Fd

unfoldable pub initial_state : ℕ → Proposer → Proposer
initial_state now s = record s {
  phase1acks = 0;
  phase1nacks = 0;
  phase2acks = 0;
  phase2nacks = 0;
  state = PaxosState.initial;
  timestamp = now;
}

abbrev pub is_open : Fd → Bool
is_open none = false
is_open (some fd) = true

abbrev pub head_fd : List Fd → Fd
head_fd [] = none
head_fd (fd ∷ fds) = fd

abbrev pub tail_fds : List Fd → List Fd
tail_fds [] = []
tail_fds (fd ∷ fds) = fds

-- The loop over the first `n` slots: the new slots.
unfoldable pub connect_slots : ℕ → List Fd → List Fd → List Fd
connect_slots zero answers slots = slots
connect_slots (suc n) answers [] = []
connect_slots (suc n) answers (fd ∷ slots) =
    head_fd answers ∷ connect_slots n (tail_fds answers) slots

-- The same loop: what it registers.
unfoldable pub connect_effects : ℕ → List Fd → List Fd → List Effect
connect_effects zero answers slots = []
connect_effects (suc n) answers [] = []
connect_effects (suc n) answers (fd ∷ slots) =
    (if is_open (head_fd answers) then register_fd (head_fd answers) ∷ [] else [])
    ++ connect_effects n (tail_fds answers) slots

unfoldable pub new_proposer :
    ℕ → Str → ℕ → AcceptorChangeProposal → List Fd → Proposer × List Effect
unfolding connect_slots connect_effects
new_proposer now m v last answers =
    let slots = replicate max_acceptors none in
    (
      record {
        name = m;
        version = v;
        lastcommit = acceptor_change last;
        state = PaxosState.initial;
        timestamp = now;
        proposal = no_proposal;
        phase1acks = 0;
        phase1nacks = 0;
        phase2acks = 0;
        phase2nacks = 0;
        nacceptor = last.nacceptor;
        accsfd = connect_slots last.nacceptor answers slots;
      },
      connect_effects last.nacceptor answers slots,
    )

unfoldable pub disconnect_effects : List Fd → List Effect
disconnect_effects [] = []
disconnect_effects (none ∷ slots) = disconnect_effects slots
disconnect_effects (some fd ∷ slots) =
    unregister_fd (some fd) ∷ close_fd (some fd) ∷ disconnect_effects slots

unfoldable pub disconnect_acceptors : Proposer → Proposer × List Effect
disconnect_acceptors s =
    (record s { accsfd = map (λ fd. none) s.accsfd }, disconnect_effects s.accsfd)

-- `for(i = 0; i != nacceptor; i++)` over the open slots.
unfoldable pub broadcast : ℕ → List Fd → MessageType → ℕ → Str → Proposal → List Effect
broadcast zero slots t v m p = []
broadcast (suc n) [] t v m p = []
broadcast (suc n) (none ∷ slots) t v m p = broadcast n slots t v m p
broadcast (suc n) (some fd ∷ slots) t v m p =
    send_header_proposal fd t v m p ∷ broadcast n slots t v m p

abbrev pub to_acceptors : Proposer → MessageType → Proposal → List Effect
to_acceptors s t p = broadcast s.nacceptor s.accsfd t s.version s.name p

unfoldable pub new_proposal : ℕ → Proposal → Proposer → Outcome Proposer
new_proposal now p s =
    let sent = to_acceptors s phase1proposal p in
    let t = record s { proposal = p; timestamp = now } in
    if s.nacceptor == 0
    then outcome (record t { state = PaxosState.phase2 }) committing_self sent
    else outcome (record t { state = PaxosState.phase1 }) handled sent

unfoldable pub check_timeout : ℕ → ℕ → Proposer → Proposer × PaxosResult
unfolding initial_state
check_timeout now timeout s =
    if leb now (s.timestamp + timeout) then (s, ignored) else (elim s.state [
      | PaxosState.initial ↦ (s, ignored)
      | PaxosState.phase3 ↦ (s, ignored)
      | _ ↦ (initial_state now s, handled)
    ])

-- The test behind the counting in handlePhase1Message, and the move to phase 2.
unfoldable pub after_phase1_reply : ℕ → Proposer → Outcome Proposer
after_phase1_reply now s =
    if leb (u32 (s.phase1acks * 2)) s.nacceptor && not (s.nacceptor == 0)
    then outcome s handled []
    else outcome (record s { state = PaxosState.phase2; timestamp = now }) handled
        (to_acceptors s phase2request s.proposal)

unfoldable pub handle_phase1_message : ℕ → ℕ → MessageType → Proposer → Outcome Proposer
unfolding after_phase1_reply
handle_phase1_message now replysfd t s = elim s.state [
  | PaxosState.phase3 ↦
      outcome s handled
        (send_header_proposal replysfd phase3commit s.version s.name s.lastcommit ∷ [])
  | PaxosState.phase1 ↦ elim t [
    | phase1ack ↦ after_phase1_reply now (record s { phase1acks = u32 (s.phase1acks + 1) })
    | phase1nack ↦ after_phase1_reply now (record s { phase1nacks = u32 (s.phase1nacks + 1) })
    | _ ↦ outcome s handled []
  ]
  | _ ↦ outcome s handled []
]

abbrev pub is_phase2 : PaxosState → Bool
is_phase2 PaxosState.phase2 = true
is_phase2 _ = false

unfoldable pub is_ready_to_commit : Proposer → Bool
is_ready_to_commit s =
    is_phase2 s.state && (ltb s.nacceptor (u32 (s.phase2acks * 2)) || s.nacceptor == 0)

unfoldable pub after_phase2_reply : Proposer → Outcome Proposer
unfolding is_ready_to_commit
after_phase2_reply s =
    if is_ready_to_commit s then outcome s committing_self [] else outcome s handled []

unfoldable pub handle_phase2_message : ℕ → MessageType → Proposer → Outcome Proposer
unfolding after_phase2_reply
handle_phase2_message replysfd t s = elim s.state [
  | PaxosState.phase3 ↦
      outcome s handled
        (send_header_proposal replysfd phase3commit s.version s.name s.lastcommit ∷ [])
  | PaxosState.phase2 ↦ elim t [
    | phase2ack ↦ after_phase2_reply (record s { phase2acks = u32 (s.phase2acks + 1) })
    | phase2nack ↦ after_phase2_reply (record s { phase2nacks = u32 (s.phase2nacks + 1) })
    | _ ↦ outcome s handled []
  ]
  | _ ↦ outcome s handled []
]

-- `none` is the null pointer that is returned with an error message.
unfoldable pub get_committing_proposal : Proposer → Option Proposal
unfolding is_ready_to_commit
get_committing_proposal s =
    if is_ready_to_commit s
    then some s.proposal
    else (elim s.state [ PaxosState.phase3 ↦ some s.lastcommit | _ ↦ none ])

unfoldable pub commit : ℕ → Proposal → Proposer → Proposer × List Effect
unfolding disconnect_acceptors
commit now p s =
    let (t, es) = disconnect_acceptors s in
    (record t { state = PaxosState.phase3; timestamp = now; lastcommit = p }, es)

unfoldable pub send_commitment : ℕ → Proposer → Proposer × List Effect
unfolding is_ready_to_commit commit
send_commitment now s =
    if is_ready_to_commit s
    then (let (t, es) = commit now s.proposal (record s { proposal = no_proposal }) in
        (t, to_acceptors s phase3commit s.proposal ++ es))
    else (s, [])

unfoldable pub handle_phase3_message : ℕ → Proposal → Proposer → Outcome Proposer
unfolding commit
handle_phase3_message now p s = elim s.state [
  | PaxosState.phase3 ↦ outcome s handled []
  | _ ↦ let (t, es) = commit now p s in outcome t committing_other es
]

-- The `switch` of handleMessage. A null proposal would be stored by PHASE3COMMIT: `none`.
unfoldable pub dispatch : ℕ → ℕ → PaxosMessage → Proposer → Option (Outcome Proposer)
unfolding handle_phase1_message handle_phase2_message handle_phase3_message
dispatch now replysfd m s = elim m.type [
  | phase1ack ↦ some (handle_phase1_message now replysfd phase1ack s)
  | phase1nack ↦ some (handle_phase1_message now replysfd phase1nack s)
  | phase2ack ↦ some (handle_phase2_message replysfd phase2ack s)
  | phase2nack ↦ some (handle_phase2_message replysfd phase2nack s)
  | phase3commit ↦ elim m.proposal [ none ↦ none | some p ↦ some (handle_phase3_message now p s) ]
  | _ ↦ some (outcome s ignored [])
]

unfoldable pub handle_message : ℕ → ℕ → PaxosMessage → Proposer → Option (Outcome Proposer)
handle_message now replysfd m s =
    if str_eq m.name s.name
    then (if ltb s.version m.version
        then some (outcome s handled [])
        else if ltb m.version s.version
        then some (
            outcome s handled
              (send_header_proposal replysfd phase3commit m.version s.name s.lastcommit ∷ []))
        else dispatch now replysfd m s)
    else some (outcome s ignored [])

-- What happens to a proposer: a message, a timeout check, or a proposal of its own.
pub data Event : Type 0 where
  message : ℕ → ℕ → PaxosMessage → Event
  tick : ℕ → ℕ → Event
  propose : ℕ → Proposal → Event

unfoldable pub step : Proposer → Event → Option (Outcome Proposer)
step s (message now fd m) = handle_message now fd m s
step s (tick now timeout) = let (t, r) = check_timeout now timeout s in some (outcome t r [])
step s (propose now p) = some (new_proposal now p s)

unfoldable pub run : Proposer → List Event → Option Proposer
run s [] = some s
run s (e ∷ es) = elim (step s e) [ none ↦ none | some o ↦ run o.machine es ]

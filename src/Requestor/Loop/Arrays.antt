-- ===== src/Requestor/Loop/Arrays.antt =====
-- The lists that src/requestor.cpp copies into the arrays of a message fit, in every turn of its loop.
use mathlib.Core.Path.{subst}
use qpidrecovery.Base.{
  ℕ, ◌≤◌, ◌<◌, ◌-◌, ◌≡◌, refl, true, not, ◌&&◌, ◌||◌, Option, none, some, List, [], ◌∷◌, ◌++◌,
  length, length-append, ltb, arith, Bool-cases, Option-cases, inl, inr,
}
use qpidrecovery.Text.{Str}
use qpidrecovery.Paxos.Proposal.{max_proposers, max_acceptors, new_acceptor_change}
use qpidrecovery.Paxos.Proposer.{head_fd, new_proposer}
use qpidrecovery.Paxos.Message.{Fd}
use qpidrecovery.FileSelector.{
  ReadyFd, ready, ready_timeout, ready_error, ready_nothing, fd_eq, apply_effects,
}
use qpidrecovery.Heartbeat.{HeartbeatClient, Heard, hb_not_found, hb_handled, hb_lost}
use qpidrecovery.Names.{VectorAndIndex, get_an_element}
use qpidrecovery.Requestor.{
  Requestor, Act, World, receive_heartbeat, delete_hbc, send_request, request_proposer_port,
  reply_proposer_list,
}
use qpidrecovery.Requestor.Loop.{
  Arrival, Turn, returned, crashed, turned, take_names, propose_change, join_proposer, ask_proposer,
  add_proposer, on_timeout, on_query, on_message, on_acceptor, on_proposer, on_ready,
  selector_effects, perform, turn,
}
use qpidrecovery.Requestor.Commit.{handle_paxos_message}
use qpidrecovery.Requestor.Loop.Start.{
  Arguments, expected_of, new_requestor, with_landmark, start, run,
}
use qpidrecovery.Requestor.Loop.Timeout.{on_timeout_lem}
use qpidrecovery.Requestor.Loop.Bounds.{
  IsBounded, IsBounded-same, TurnIsBounded, length-receive_heartbeat, length-delete_hbc,
  length-unexpired, after_commit_bounded, handle_paxos_message_bounded, propose_acceptors_bounded,
}

perform_bounded : (t : Turn) → TurnIsBounded t → TurnIsBounded (perform t)
unfolding perform
perform_bounded returned h = tt
perform_bounded crashed h = tt
perform_bounded (turned s es) h = elim (Option-cases (apply_effects (selector_effects es) s.fs)) [
  | inl e ↦ rw (e, perform) tt
  | inr (fs, e) ↦
      rw (e, perform)
        (IsBounded-same s (record s { fs = fs }) (omega arith) (omega arith) refl refl refl h)
]

propose_change_bounded :
    (w : World) (s : Requestor) → IsBounded s → TurnIsBounded (propose_change w s)
unfolding propose_change
propose_change_bounded w s h =
    let (ips, rest) = take_names (s.expected_acceptors - length s.acceptors) s.acceptornames in
    propose_acceptors_bounded w s ips rest h

join_proposer_bounded :
    (w : World) (ip : Str) (sent : List Act) (s : Requestor)
    → length s.proposers < s.expected_proposers
    → IsBounded s
    → TurnIsBounded (join_proposer w ip sent s)
unfolding join_proposer
join_proposer_bounded w ip sent s l h = record {
  proposers = omega (arith, h.wanted, length-append {0} s.proposers (_ ∷ []));
  acceptors = h.acceptors;
  wanted = h.wanted;
  expected = h.expected;
  machine = h.machine;
}

ask_proposer_bounded :
    (w : World) (s : Requestor) (o : Option Str) (rest : VectorAndIndex)
    → length s.proposers < s.expected_proposers
    → IsBounded s
    → TurnIsBounded (ask_proposer w s (o, rest))
unfolding ask_proposer
ask_proposer_bounded w s none rest l h = tt
ask_proposer_bounded w s (some ip) rest l h =
    let (ok, sent) =
      send_request w s.servicename ip request_proposer_port s.brokerport s.currentversion
        s.acceptors in
    let t = record s { proposernames = rest } in
    let k : IsBounded t = IsBounded-same s t (omega arith) (omega arith) refl refl refl h in
    elim (Bool-cases ok) [
      | inl e ↦ rw (e, ask_proposer) (join_proposer_bounded w ip sent t l k)
      | inr e ↦ rw (e, ask_proposer) k
    ]

on_timeout_bounded : (w : World) (s : Requestor) → IsBounded s → TurnIsBounded (on_timeout w s)
on_timeout_bounded w s h = rw ((on_timeout_lem w s).0) (
    IsBounded-same s _ (length-unexpired w.now s.proposers) (length-unexpired w.now s.acceptors)
      refl refl refl h)

on_query_bounded :
    (w : World) (fd : Fd) (s : Requestor) → IsBounded s → TurnIsBounded (on_query w fd s)
unfolding on_query
on_query_bounded w none s h = h
on_query_bounded w (some fd) s h =
    let (ok, sent) = reply_proposer_list w fd s.servicename s.proposers in
    elim (Bool-cases ok) [
      | inl e ↦
          rw (e, on_query)
            (IsBounded-same s (record s { replysfd = s.replysfd ++ (fd ∷ []) }) (omega arith)
              (omega arith) refl refl refl h)
      | inr e ↦ rw (e, on_query) h
    ]

on_message_bounded :
    (w : World) (a : Arrival) (fd : ℕ) (s : Requestor)
    → IsBounded s
    → TurnIsBounded (on_message w a fd s)
unfolding on_message
on_message_bounded w a fd s h = elim (Option-cases a.received) [
  | inl e ↦ rw (e, on_message) h
  | inr (m, e) ↦
      rw (e, on_message)
        (after_commit_bounded (handle_paxos_message w fd m s)
          (handle_paxos_message_bounded w fd m s h))
]

on_acceptor_bounded :
    (w : World) (a : Arrival) (fd : ℕ) (s : Requestor) (v : List HeartbeatClient) (r : Heard)
    → length v ≡ length s.acceptors
    → IsBounded s
    → TurnIsBounded (on_acceptor w a fd s (v, r))
unfolding on_acceptor
on_acceptor_bounded w a fd s v hb_not_found l h = on_message_bounded w a fd s h
on_acceptor_bounded w a fd s v hb_handled l h =
    IsBounded-same s (record s { acceptors = v }) (omega arith) (omega arith) refl refl refl h
on_acceptor_bounded w a fd s v (hb_lost i) l h =
    IsBounded-same s (record s { acceptors = (delete_hbc i v).0; needchangeacceptor = true })
      (omega arith) (omega (arith, length-delete_hbc i v)) refl refl refl h

on_proposer_bounded :
    (w : World) (a : Arrival) (fd : ℕ) (s : Requestor) (v : List HeartbeatClient) (r : Heard)
    → length v ≡ length s.proposers
    → IsBounded s
    → TurnIsBounded (on_proposer w a fd s (v, r))
unfolding on_proposer
on_proposer_bounded w a fd s v hb_not_found l h =
    let (u, r) = receive_heartbeat w.now a.whole (some fd) s.acceptors in
    on_acceptor_bounded w a fd s u r (length-receive_heartbeat w.now a.whole (some fd) s.acceptors)
      h
on_proposer_bounded w a fd s v hb_handled l h =
    IsBounded-same s (record s { proposers = v }) (omega arith) (omega arith) refl refl refl h
on_proposer_bounded w a fd s v (hb_lost i) l h =
    IsBounded-same s (record s { proposers = (delete_hbc i v).0 })
      (omega (arith, length-delete_hbc i v)) (omega arith) refl refl refl h

on_ready_bounded :
    (w : World) (a : Arrival) (r : ReadyFd) (s : Requestor)
    → IsBounded s
    → TurnIsBounded (on_ready w a r s)
unfolding on_ready
on_ready_bounded w a ready_timeout s h = on_timeout_bounded w s h
on_ready_bounded w a ready_error s h = h
on_ready_bounded w a ready_nothing s h = h
on_ready_bounded w a (ready none) s h = h
on_ready_bounded w a (ready (some fd)) s h = elim (Bool-cases (fd_eq (some fd) s.querysfd)) [
  | inl e ↦ rw (e, on_ready) (on_query_bounded w a.accepted s h)
  | inr e ↦
      let (u, r) = receive_heartbeat w.now a.whole (some fd) s.proposers in
      rw (e, on_ready)
        (on_proposer_bounded w a fd s u r
          (length-receive_heartbeat w.now a.whole (some fd) s.proposers) h)
]

turn_bounded : (w : World) (a : Arrival) (s : Requestor) → IsBounded s → TurnIsBounded (turn w a s)
unfolding turn
turn_bounded w a s h = elim (Bool-cases (not s.ischangingacceptor && s.needchangeacceptor)) [
  | inl e ↦ rw (e, turn) (perform_bounded _ (propose_change_bounded w s h))
  | inr e ↦ elim (Bool-cases (ltb (length s.proposers) s.expected_proposers)) [
    | inl f ↦
        let (o, rest) = get_an_element s.proposernames in
        rw (e, f, turn)
          (perform_bounded _
            (unfold add_proposer in (ask_proposer_bounded w s o rest (ground arith) h)))
    | inr f ↦ rw (e, f, turn) (perform_bounded _ (on_ready_bounded w a a.ready s h))
  ]
]

with_landmark_bounded :
    (w : World) (landmarkip : Option Str) (s : Requestor)
    → length s.proposers ≡ 0
    → IsBounded s
    → TurnIsBounded (with_landmark w landmarkip s)
unfolding with_landmark
with_landmark_bounded w none s l h = h
with_landmark_bounded w (some ip) s l h = elim (Option-cases (head_fd w.answers)) [
  | inl e ↦ rw (e, with_landmark) tt
  | inr (fd, e) ↦
      rw (e, with_landmark)
        (record {
          proposers = omega arith;
          acceptors = h.acceptors;
          wanted = h.wanted;
          expected = h.expected;
          machine = h.machine;
        })
]

new_requestor-IsBounded :
    (w : World) (querysfd : Fd) (o : Arguments)
    → expected_of o.landmarkip o.expected_proposers ≤ max_proposers
    → expected_of o.landmarkip o.expected_acceptors ≤ max_acceptors
    → IsBounded (new_requestor w querysfd o)
unfolding new_requestor new_proposer new_acceptor_change
new_requestor-IsBounded w querysfd o p a = record {
  proposers = omega arith;
  acceptors = omega arith;
  wanted = p;
  expected = a;
  machine = (tt, omega arith);
}

start_bounded : (w : World) (querysfd : Fd) (o : Arguments) → TurnIsBounded (start w querysfd o)
unfolding start new_requestor
start_bounded w querysfd o =
    let a = expected_of o.landmarkip o.expected_acceptors in
    let p = expected_of o.landmarkip o.expected_proposers in
    elim (Bool-cases (ltb max_acceptors a || ltb max_proposers p)) [
      | inl e ↦ rw (e, start) tt
      | inr e ↦
          rw (e, start)
            (perform_bounded _ (
              with_landmark_bounded w o.landmarkip (new_requestor w querysfd o) refl
                (new_requestor-IsBounded w querysfd o (ground arith) (ground arith))))
    ]

run_bounded :
    (t : Turn) (steps : List (World × Arrival)) → TurnIsBounded t → TurnIsBounded (run t steps)
unfolding run
run_bounded t [] h = h
run_bounded returned ((w, a) ∷ steps) h = tt
run_bounded crashed ((w, a) ∷ steps) h = tt
run_bounded (turned s es) ((w, a) ∷ steps) h = run_bounded (turn w a s) steps (turn_bounded w a s h)

-- Whatever its arguments are and whatever the turns of its loop get, the requestor program never has
-- more proposers than MAX_PROPOSERS, nor more acceptors than it expects, which are at most
-- MAX_ACCEPTORS, and its state machine has and proposes no more: the addresses that copyIPArray
-- copies fit into the arrays of the messages.
pub run-IsBounded :
    (w : World) (querysfd : Fd) (o : Arguments) (steps : List (World × Arrival)) (t : Requestor)
    (es : List Act)
    → run (start w querysfd o) steps ≡ turned t es
    → IsBounded t
run-IsBounded w querysfd o steps t es e =
    subst TurnIsBounded e (run_bounded (start w querysfd o) steps (start_bounded w querysfd o))

-- ===== src/Paxos/Acceptor/Phases.antt =====
-- What a message and a history of messages do to an acceptor.
use mathlib.Core.Path.{subst}
use qpidrecovery.Base.{
  ℕ, ◌≡◌, ◌≢◌, inl, inr, refl, Ordering, some, none, Option, List, [], ◌∷◌, All, arith,
  Option-cases,
}
use qpidrecovery.Paxos.Proposal.{Proposal, IsScored, compare_proposal}
use qpidrecovery.Paxos.Proposal.Order.{compare_proposal_trans}
use qpidrecovery.Paxos.Proposal.Content.{compare_proposal_self}
use qpidrecovery.Paxos.Message.{PaxosState, PaxosMessage, HasBody, Outcome}
use qpidrecovery.Paxos.Acceptor.{
  Acceptor, Event, message, tick, handle_message, dispatch, check_timeout, step, run, Calm, Quiet,
}

-- No message that carries its proposal makes the handler touch a null pointer.
pub handle_message_total :
    (now fd : ℕ) (m : PaxosMessage) (a : Acceptor)
    → HasBody m
    → (o : Outcome Acceptor) × (handle_message now fd m a ≡ some o)
unfolding handle_message dispatch
handle_message_total now fd m a h = elim (Option-cases (handle_message now fd m a)) [
  | inl e ↦ absurd (ground arith)
  | inr (o, e) ↦ (o, e)
]

-- A message never changes the service or the version that an acceptor votes on.
pub handle_message_identity :
    (now fd : ℕ) (m : PaxosMessage) (a : Acceptor) (o : Outcome Acceptor)
    → handle_message now fd m a ≡ some o
    → (o.machine.name ≡ a.name) × (o.machine.version ≡ a.version)
unfolding handle_message dispatch
handle_message_identity now fd m a o h = ground arith

-- A message never lowers the promise.
pub handle_message-promise :
    (now fd : ℕ) (m : PaxosMessage) (a : Acceptor) (o : Outcome Acceptor)
    → handle_message now fd m a ≡ some o
    → compare_proposal a.promise o.machine.promise ≢ Ordering.gt
unfolding handle_message dispatch
handle_message-promise now fd m a o h = ground (arith, compare_proposal_self a.promise)

-- A committed acceptor keeps its state whatever comes.
step_committed :
    (a : Acceptor) (e : Event) (o : Outcome Acceptor)
    → a.state ≡ PaxosState.phase3
    → step a e ≡ some o
    → o.machine ≡ a
unfolding step handle_message dispatch check_timeout
step_committed a (message now fd m) o c h = ground arith
step_committed a (tick now timeout) o c h = ground arith

run_committed :
    (a b : Acceptor) (es : List Event) → a.state ≡ PaxosState.phase3 → run a es ≡ some b → b ≡ a
unfolding run
run_committed a b [] c h = ground arith
run_committed a b (e ∷ es) c h = elim (Option-cases (step a e)) [
  | inl f ↦ absurd (ground arith)
  | inr (o, f) ↦ ground (arith, step_committed a e o c f, run_committed o.machine b es)
]

abbrev IsServed : Event → Type 0
IsServed (message now fd m) = HasBody m
IsServed (tick now timeout) = Unit

step_total : (a : Acceptor) (e : Event) → IsServed e → (o : Outcome Acceptor) × (step a e ≡ some o)
unfolding step
step_total a (message now fd m) h = handle_message_total now fd m a h
step_total a (tick now timeout) h = (_, refl)

-- No history of received messages and timeout checks makes an acceptor touch a null pointer.
run_total :
    (a : Acceptor) (es : List Event) → All IsServed es → (b : Acceptor) × (run a es ≡ some b)
unfolding run
run_total a [] h = (a, refl)
run_total a (e ∷ es) h =
    let (o, p) = step_total a e h.0 in let (b, q) = run_total o.machine es h.1 in (b, rw (p, run) q)

abbrev pub IsScoredBody : Option Proposal → Type 0
IsScoredBody none = Unit
IsScoredBody (some p) = IsScored p

abbrev pub IsScoredEvent : Event → Type 0
IsScoredEvent (message now fd m) = IsScoredBody m.proposal
IsScoredEvent (tick now timeout) = Unit

scored : (x : Option Proposal) (p : Proposal) → x ≡ some p → IsScoredBody x → IsScored p
scored x p e k = subst IsScoredBody e k

step-IsScored :
    (a : Acceptor) (e : Event) (o : Outcome Acceptor)
    → IsScored a.promise
    → IsScoredEvent e
    → step a e ≡ some o
    → IsScored o.machine.promise
unfolding step handle_message dispatch check_timeout
step-IsScored a (message now fd m) o s k h = elim (Option-cases m.proposal) [
  | inl e ↦ ground arith
  | inr (p, e) ↦ ground (arith, scored m.proposal p e k)
]
step-IsScored a (tick now timeout) o s k h = ground arith

run-IsScored :
    (a b : Acceptor) (es : List Event)
    → IsScored a.promise
    → All IsScoredEvent es
    → run a es ≡ some b
    → IsScored b.promise
unfolding run
run-IsScored a b [] s k h = ground arith
run-IsScored a b (e ∷ es) s k h = elim (Option-cases (step a e)) [
  | inl f ↦ absurd (ground arith)
  | inr (o, f) ↦ run-IsScored o.machine b es (step-IsScored a e o s k.0 f) k.1 (ground arith)
]

step-promise :
    (a : Acceptor) (e : Event) (o : Outcome Acceptor)
    → Calm a e
    → step a e ≡ some o
    → compare_proposal a.promise o.machine.promise ≢ Ordering.gt
unfolding step check_timeout
step-promise a (message now fd m) o c h = handle_message-promise now fd m a o h
step-promise a (tick now timeout) o c h = ground (arith, compare_proposal_self a.promise)

-- Nor does any history in which no timeout passes, while the scores fit an int.
pub run-promise :
    (a b : Acceptor) (es : List Event)
    → IsScored a.promise
    → All IsScoredEvent es
    → Quiet a es
    → run a es ≡ some b
    → compare_proposal a.promise b.promise ≢ Ordering.gt
unfolding run
run-promise a b [] s k q h = ground (arith, compare_proposal_self a.promise)
run-promise a b (e ∷ es) s k q h = elim (Option-cases (step a e)) [
  | inl f ↦ absurd (ground arith)
  | inr (o, f) ↦
      let t = step-IsScored a e o s k.0 f in
      let rest : run o.machine es ≡ some b = ground arith in
      let quiet : Quiet o.machine es = rw f at (q.1) in
      compare_proposal_trans a.promise o.machine.promise b.promise s t
        (run-IsScored o.machine b es t k.1 rest) (step-promise a e o q.0 f)
        (run-promise o.machine b es t k.1 quiet rest)
]

-- ===== src/Acceptors/Loop.antt =====
-- The turns of the loop of src/acceptor.cpp.
use qpidrecovery.Paxos.Proposal.{max_acceptors}
use mathlib.Core.Path.{subst}
use qpidrecovery.Base.{
  ℕ, ◌≡◌, refl, ◌∙◌, true, false, Option, none, some, List, [], ◌∷◌, arith, Bool-cases,
  Option-cases, inl, inr, ltb, if◌then◌else◌,
}
use qpidrecovery.Text.{Str, str_eq}
use qpidrecovery.Paxos.Message.{PaxosMessage, HasBody, Effect}
use qpidrecovery.Paxos.Acceptor.{Acceptor, check_timeout}
use qpidrecovery.Paxos.Acceptor.Phases.{handle_message_total}
use qpidrecovery.FileSelector.{
  ReadyFd, ready, ready_timeout, ready_error, ready_nothing, fd_eq, apply_effects,
}
use qpidrecovery.Acceptors.{
  AcceptorName, Server, Arrival, Delivery, check_timeouts, handle_paxos_message, perform,
  on_message, turn, create_acceptor,
}
use qpidrecovery.Acceptors.Named.{
  IsNamed, find_acceptor, put_acceptor_lem, deliver_lem, deliver_unknown,
}

-- A message that was received carries its proposal.
abbrev pub IsReceived : Option PaxosMessage → Type 0
IsReceived none = Unit
IsReceived (some m) = HasBody m

check_timeout_name : (now t : ℕ) (a : Acceptor) → (check_timeout now t a).0.name ≡ a.name
unfolding check_timeout
check_timeout_name now t a = ground arith

-- A service has a state machine.
abbrev pub Hosts : Str → List AcceptorName → Type 0
Hosts n xs = (a : Acceptor) × (find_acceptor n xs ≡ some a)

-- No service loses its state machine.
abbrev pub KeepsNames : List AcceptorName → List AcceptorName → Type 0
KeepsNames xs ys = (n : Str) → Hosts n xs → Hosts n ys

KeepsNames-refl : (xs : List AcceptorName) → KeepsNames xs xs
KeepsNames-refl xs n h = h

KeepsNames-check_timeouts :
    (now t : ℕ) (xs : List AcceptorName) → KeepsNames xs (check_timeouts now t xs)
unfolding find_acceptor check_timeouts
KeepsNames-check_timeouts now t [] n h = h
KeepsNames-check_timeouts now t (x ∷ xs) n (a, h) = elim (Bool-cases (str_eq n x.name)) [
  | inl e ↦ rw (e, check_timeouts, find_acceptor) ((check_timeout now t x.acc).0, refl)
  | inr e ↦
      rw (e, check_timeouts, find_acceptor)
        (KeepsNames-check_timeouts now t xs n (a, rw (e, find_acceptor) at h))
]

-- One name gets a state machine, and the others keep theirs.
KeepsNames-put :
    (xs ys : List AcceptorName) (m : Str) (b : Acceptor)
    → ((n : Str) → find_acceptor n ys ≡ (if str_eq n m then some b else find_acceptor n xs))
    → KeepsNames xs ys
KeepsNames-put xs ys m b f n (a, h) = elim (Bool-cases (str_eq n m)) [
  | inl e ↦ (b, f n ∙ rw e refl)
  | inr e ↦ (a, f n ∙ rw e h)
]

find-check_timeouts :
    (now t : ℕ) (n : Str) (xs : List AcceptorName)
    → find_acceptor n xs ≡ none
    → find_acceptor n (check_timeouts now t xs) ≡ none
unfolding find_acceptor check_timeouts
find-check_timeouts now t n [] h = refl
find-check_timeouts now t n (x ∷ xs) h = ground (arith, find-check_timeouts now t n xs)

IsNamed-check_timeouts :
    (now t : ℕ) (xs : List AcceptorName) → IsNamed xs → IsNamed (check_timeouts now t xs)
unfolding check_timeouts
IsNamed-check_timeouts now t [] h = tt
IsNamed-check_timeouts now t (x ∷ xs) h = (
  check_timeout_name now t x.acc ∙ h.0,
  find-check_timeouts now t x.name xs h.1,
  IsNamed-check_timeouts now t xs h.2,
)

-- A message that was received is always delivered or refused, and the names stay.
handle_paxos_message_named :
    (now fd : ℕ) (o : Option PaxosMessage) (xs : List AcceptorName)
    → IsNamed xs
    → IsReceived o
    → (d : Delivery) × (handle_paxos_message now fd o xs ≡ some d) × IsNamed d.0 × KeepsNames xs d.0
unfolding handle_paxos_message
handle_paxos_message_named now fd none xs h b = ((xs, false, []), refl, h, KeepsNames-refl xs)
handle_paxos_message_named now fd (some m) xs h b = elim (Option-cases (find_acceptor m.name xs)) [
  | inl e ↦ ((xs, false, []), deliver_unknown now fd m xs h e, h, KeepsNames-refl xs)
  | inr (a, e) ↦
      let (o, k) = handle_message_total now fd m a b in
      let (ys, d, v, f) = deliver_lem now fd m xs a o h e k in
      ((ys, true, o.effects), d, v, KeepsNames-put xs ys m.name o.machine f)
]

perform_accname :
    (s t : Server) (es fs : List Effect) → perform s es ≡ some (t, fs) → t.accname ≡ s.accname
unfolding perform
perform_accname s t es fs h = elim (Option-cases (apply_effects es s.fs)) [
  | inl e ↦ absurd (ground arith)
  | inr (g, e) ↦ ground arith
]

on_message_named :
    (now fd : ℕ) (a : Arrival) (s t : Server) (es : List Effect)
    → IsNamed s.accname
    → IsReceived a.received
    → on_message now fd a s ≡ some (t, es)
    → IsNamed t.accname × KeepsNames s.accname t.accname
unfolding on_message
on_message_named now fd a s t es h b k =
    let (d, e, v, n) = handle_paxos_message_named now fd a.received s.accname h b in
    rw (perform_accname (record s { accname = d.0 }) t _ es (rw (e, on_message) at k)) (v, n)

kept :
    (s t : Server) (es fs : List Effect)
    → ◌≡◌ {A = Option (Server × List Effect)} (some (s, es)) (some (t, fs))
    → (xs : List AcceptorName) → IsNamed s.accname × KeepsNames xs s.accname
    → IsNamed t.accname × KeepsNames xs t.accname
kept s t es fs e xs h =
    let p : s.accname ≡ t.accname = ground arith in subst (λ ys. IsNamed ys × KeepsNames xs ys) p h

-- After every turn of the loop that is not a fault, whatever it gets, each name is listed once, with
-- a state machine of this name, and every service that had a state machine before has one. (A
-- received message carries the proposal that its type calls for.)
pub turn-IsNamed :
    (now : ℕ) (r : ReadyFd) (a : Arrival) (s t : Server) (es : List Effect)
    → IsNamed s.accname
    → IsReceived a.received
    → turn now r a s ≡ some (t, es)
    → IsNamed t.accname × KeepsNames s.accname t.accname
unfolding turn create_acceptor
turn-IsNamed now ready_error a s t es h b k =
    kept s t [] es k s.accname (h, KeepsNames-refl s.accname)
turn-IsNamed now ready_nothing a s t es h b k =
    kept s t [] es k s.accname (h, KeepsNames-refl s.accname)
turn-IsNamed now ready_timeout a s t es h b k = kept _ t [] es k s.accname (
  IsNamed-check_timeouts now 4000000 s.accname h,
  KeepsNames-check_timeouts now 4000000 s.accname,
)
turn-IsNamed now (ready none) a s t es h b k =
    kept s t [] es k s.accname (h, KeepsNames-refl s.accname)
turn-IsNamed now (ready (some fd)) a s t es h b k =
    elim (Bool-cases (fd_eq (some fd) s.requestsfd)) [
      | inl e ↦ elim (Option-cases a.request) [
        | inl f ↦
            kept s t [] es (rw f at (rw (e, turn) at k)) s.accname (h, KeepsNames-refl s.accname)
        | inr (r, f) ↦ elim (Bool-cases (ltb max_acceptors r.count)) [
          | inl g ↦
              absurd (ground (arith, rw (g, create_acceptor) at (rw f at (rw (e, turn) at k))))
          | inr g ↦
              let (named, found) = put_acceptor_lem now r s.accname h in
              kept _ t [] es (rw (g, create_acceptor) at (rw f at (rw (e, turn) at k))) s.accname
                (named, KeepsNames-put s.accname _ r.name _ found)
        ]
      ]
      | inr e ↦ elim (Bool-cases (fd_eq (some fd) s.paxossfd)) [
        | inl f ↦
            rw (perform_accname s t _ es (rw f at (rw (e, turn) at k)))
              (h, KeepsNames-refl s.accname)
        | inr f ↦ on_message_named now fd a s t es h b (rw f at (rw (e, turn) at k))
      ]
    ]

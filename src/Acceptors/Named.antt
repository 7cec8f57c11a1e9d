-- ===== src/Acceptors/Named.antt =====
-- The acceptors of a process as a map from names.
use qpidrecovery.Base.{
  ℕ, ◌≡◌, refl, ap, ◌∙◌, true, false, Option, none, some, List, [], ◌∷◌, ◌++◌, if◌then◌else◌, arith,
  Bool-cases, inl, inr,
}
use qpidrecovery.Text.{Str, str_eq, str_eq_iff, str_eq_refl}
use qpidrecovery.Common.{ParticipateRequest}
use qpidrecovery.Paxos.Proposal.{acceptor_change, new_acceptor_change}
use qpidrecovery.Paxos.Message.{PaxosMessage, ignored, handled, Outcome, outcome}
use qpidrecovery.Paxos.Acceptor.{Acceptor, new_acceptor, handle_message, dispatch}
use qpidrecovery.Paxos.Acceptor.Phases.{handle_message_identity}
use qpidrecovery.Acceptors.{AcceptorName, erase_name, put_acceptor, deliver}

-- The state machine of a name: the first that is listed.
unfoldable pub find_acceptor : Str → List AcceptorName → Option Acceptor
find_acceptor n [] = none
find_acceptor n (x ∷ xs) = if str_eq n x.name then some x.acc else find_acceptor n xs

-- Every name is listed once, with a state machine of this name.
abbrev pub IsNamed : List AcceptorName → Type 0
IsNamed [] = Unit
IsNamed (x ∷ xs) = (x.acc.name ≡ x.name) × (find_acceptor x.name xs ≡ none) × IsNamed xs

find_same :
    (a b : Str) (xs : List AcceptorName)
    → str_eq a b ≡ true
    → find_acceptor a xs ≡ find_acceptor b xs
find_same a b xs h = ap (λ n. find_acceptor n xs) ((str_eq_iff a b).0 h)

str_eq-sym : (a b : Str) → str_eq a b ≡ str_eq b a
str_eq-sym a b =
    ground (arith, (str_eq_iff a b).0, (str_eq_iff a b).1, (str_eq_iff b a).0, (str_eq_iff b a).1)

find-erase_name :
    (n name : Str) (xs : List AcceptorName)
    → IsNamed xs
    → find_acceptor n (erase_name name xs) ≡ (if str_eq n name then none else find_acceptor n xs)
unfolding find_acceptor erase_name
find-erase_name n name [] h = ground arith
find-erase_name n name (x ∷ xs) h = elim (Bool-cases (str_eq name x.name)) [
  | inl e ↦
      let p = (str_eq_iff name x.name).0 e in
      ground (arith, e, h.1, ap (str_eq n) p, find_same n name xs, find_same name x.name xs e)
  | inr e ↦ ground (
    arith,
    e,
    find-erase_name n name xs h.2,
    λ (k : str_eq n name ≡ true). ap (λ z. str_eq z x.name) ((str_eq_iff n name).0 k),
  )
]

IsNamed-erase_name :
    (name : Str) (xs : List AcceptorName) → IsNamed xs → IsNamed (erase_name name xs)
unfolding erase_name
IsNamed-erase_name name [] h = tt
IsNamed-erase_name name (x ∷ xs) h = elim (Bool-cases (str_eq name x.name)) [
  | inl e ↦ rw e h.2
  | inr e ↦
      rw e (
        h.0,
        ground (arith, find-erase_name x.name name xs h.2, h.1),
        IsNamed-erase_name name xs h.2,
      )
]

find-append :
    (n : Str) (xs : List AcceptorName) (x : AcceptorName)
    → find_acceptor n (xs ++ (x ∷ [])) ≡ elim (find_acceptor n xs) [
      | none ↦ (if str_eq n x.name then some x.acc else none)
      | some a ↦ some a
    ]
unfolding find_acceptor
find-append n [] x = refl
find-append n (y ∷ xs) x = ground (arith, find-append n xs x)

IsNamed-append :
    (xs : List AcceptorName) (x : AcceptorName)
    → IsNamed xs
    → x.acc.name ≡ x.name
    → find_acceptor x.name xs ≡ none
    → IsNamed (xs ++ (x ∷ []))
unfolding find_acceptor
IsNamed-append [] x h k l = (k, refl, tt)
IsNamed-append (y ∷ xs) x h k l = (
  h.0,
  ground (arith, find-append y.name xs x, str_eq-sym x.name y.name, h.1),
  IsNamed-append xs x h.2 k (ground arith),
)

-- createAcceptor puts one new state machine under the name of the request, in place of an old one
-- of this name, and every other name keeps its state machine; each name is still listed once.
pub put_acceptor_lem :
    (now : ℕ) (r : ParticipateRequest) (xs : List AcceptorName)
    → IsNamed xs
    → IsNamed (put_acceptor now r xs)
      × ((n : Str)
          → find_acceptor n (put_acceptor now r xs) ≡ (
              if str_eq n r.name
              then some (
                  new_acceptor now r.name r.votingversion
                    (acceptor_change (new_acceptor_change r.committedversion r.count r.acceptor)))
              else find_acceptor n xs))
unfolding put_acceptor new_acceptor
put_acceptor_lem now r xs h = (
  IsNamed-append (erase_name r.name xs) _ (IsNamed-erase_name r.name xs h) refl
      (ground (arith, find-erase_name r.name r.name xs h, str_eq_refl r.name)),
  λ n. find-append n (erase_name r.name xs) _ ∙ ground (arith, find-erase_name n r.name xs h),
)

-- An acceptor of another name ignores the message.
ignored_by_other :
    (now fd : ℕ) (m : PaxosMessage) (a : Acceptor)
    → str_eq m.name a.name ≡ false
    → handle_message now fd m a ≡ some (outcome a ignored [])
unfolding handle_message
ignored_by_other now fd m a h = ground arith

handled_by_own :
    (now fd : ℕ) (m : PaxosMessage) (a : Acceptor) (o : Outcome Acceptor)
    → str_eq m.name a.name ≡ true
    → handle_message now fd m a ≡ some o
    → o.result ≡ handled
unfolding handle_message dispatch
handled_by_own now fd m a o h k = ground arith

-- handlePaxosMessage of src/acceptor.cpp gives a message to the state machine of its name alone,
-- does what this one does, returns 0, and leaves every other as it was.
pub deliver_lem :
    (now fd : ℕ) (m : PaxosMessage) (xs : List AcceptorName) (a : Acceptor) (o : Outcome Acceptor)
    → IsNamed xs
    → find_acceptor m.name xs ≡ some a
    → handle_message now fd m a ≡ some o
    → (ys : List AcceptorName) × (deliver now fd m xs ≡ some (ys, true, o.effects))
      × IsNamed ys
      × ((n : Str)
          → find_acceptor n ys ≡ (if str_eq n m.name then some o.machine else find_acceptor n xs))
unfolding find_acceptor deliver
deliver_lem now fd m [] a o h k l = absurd (ground arith)
deliver_lem now fd m (x ∷ xs) a o h k l = elim (Bool-cases (str_eq m.name x.name)) [
  | inl e ↦
      let p : x.acc ≡ a = ground arith in
      let q : handle_message now fd m x.acc ≡ some o = ap (handle_message now fd m) p ∙ l in
      let done = handled_by_own now fd m x.acc o (ap (str_eq m.name) h.0 ∙ e) q in
      let same = handle_message_identity now fd m x.acc o q in
      (
        record x { acc = o.machine } ∷ xs,
        ground (arith, q, done),
        (same.0 ∙ h.0, h.1, h.2),
        λ n. ground (arith, ap (str_eq n) ((str_eq_iff m.name x.name).0 e)),
      )
  | inr e ↦
      let (ys, d, v, f) = deliver_lem now fd m xs a o h.2 (ground arith) l in
      (
        x ∷ ys,
        ground (arith, d, ignored_by_other now fd m x.acc (ap (str_eq m.name) h.0 ∙ e)),
        (h.0, ground (arith, f x.name, h.1, str_eq-sym x.name m.name), v),
        λ n. ground (
          arith,
          f n,
          λ (k : str_eq n m.name ≡ true). ap (λ z. str_eq z x.name) ((str_eq_iff n m.name).0 k),
        ),
      )
]

-- A message for a name that is not listed changes nothing, and -1 is returned.
pub deliver_unknown :
    (now fd : ℕ) (m : PaxosMessage) (xs : List AcceptorName)
    → IsNamed xs
    → find_acceptor m.name xs ≡ none
    → deliver now fd m xs ≡ some (xs, false, [])
unfolding find_acceptor deliver
deliver_unknown now fd m [] h k = refl
deliver_unknown now fd m (x ∷ xs) h k = ground (
  arith,
  ignored_by_other now fd m x.acc,
  ap (str_eq m.name) h.0,
  deliver_unknown now fd m xs h.2,
)

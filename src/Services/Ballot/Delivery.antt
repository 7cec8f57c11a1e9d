-- ===== src/Services/Ballot/Delivery.antt =====
-- To which service a message is delivered, and what a service makes of it.
use qpidrecovery.Base.{
  ℕ, zero, suc, ◌≡◌, refl, ap, Bool, false, some, List, [], ◌∷◌, ◌++◌, All, replicate, arith,
}
use qpidrecovery.Text.{Str, str_eq, str_eq_refl}
use qpidrecovery.Paxos.Message.{
  PaxosMessage, PaxosState, phase2ack, phase3commit, send_header_proposal, handled, ignored, Effect,
  Outcome, outcome,
}
use qpidrecovery.Paxos.Proposer.{Proposer, handle_message, dispatch, handle_phase2_message}
use qpidrecovery.Paxos.Ballot.Answers.{answer}
use qpidrecovery.Recovery.Brokers.{Manager}
use qpidrecovery.Services.{
  Monitored, Act, does, World, Done, acts_of, is_ignored, after_outcome, deliver_message,
}
use qpidrecovery.Services.Ballot.{deliver_all}

-- The state machine of the service has another name.
abbrev pub IsOther : Str → Monitored → Type 0
IsOther name x = str_eq name x.psm.name ≡ false

other_ignored :
    (now fd : ℕ) (m : PaxosMessage) (s : Proposer)
    → str_eq m.name s.name ≡ false
    → handle_message now fd m s ≡ some (outcome s ignored [])
unfolding handle_message
other_ignored now fd m s h = rw h refl

-- A final proposer answers a late ack with its last commit.
final_ack :
    (now fd : ℕ) (s t : Proposer)
    → t.name ≡ s.name
    → t.version ≡ s.version
    → t.state ≡ PaxosState.phase3
    → (es : List Effect) × (handle_message now fd (answer phase2ack s) t
        ≡ some (outcome t handled es))
unfolding handle_message dispatch handle_phase2_message
final_ack now fd s t n v h = (
  send_header_proposal fd phase3commit t.version t.name t.lastcommit ∷ [],
  ground (arith, n, v, h, str_eq_refl s.name),
)

pub acts_of-append :
    {ObjectId : Type 0} (es fs : List Effect)
    → acts_of {ObjectId = ObjectId} es ++ acts_of fs ≡ acts_of (es ++ fs)
acts_of-append [] fs = refl
acts_of-append (e ∷ es) fs = ap (λ z. does e ∷ z) (acts_of-append es fs)

module _ {ObjectId : Type 0} (id_eq : ObjectId → ObjectId → Bool) (w : World ObjectId)
    (fd : ℕ) where
  deliver_message-behind :
      (m : PaxosMessage) (front xs ys : List Monitored) (manager n : Manager ObjectId)
      (es : List (Act ObjectId))
      → All (IsOther m.name) front
      → deliver_message id_eq w fd m xs manager ≡ some (ys, n, es)
      → deliver_message id_eq w fd m (front ++ xs) manager ≡ some (front ++ ys, n, es)
  unfolding deliver_message
  deliver_message-behind m [] xs ys manager n es h k = k
  deliver_message-behind m (x ∷ front) xs ys manager n es h k =
      rw
        (
          other_ignored w.now fd m x.psm h.0,
          deliver_message,
          deliver_message-behind m front xs ys manager n es h.1 k,
        )
        refl

  -- A message that the state machine handles without a commitment.
  pub deliver_message-handled :
      (m : PaxosMessage) (front : List Monitored) (x : Monitored) (back : List Monitored)
      (manager : Manager ObjectId) (s : Proposer) (es : List Effect)
      → All (IsOther m.name) front
      → handle_message w.now fd m x.psm ≡ some (outcome s handled es)
      → deliver_message id_eq w fd m (front ++ (x ∷ back)) manager
        ≡ some (front ++ (record x { psm = s } ∷ back), manager, acts_of es)
  unfolding deliver_message after_outcome
  deliver_message-handled m front x back manager s es h k =
      deliver_message-behind m front _ _ manager manager _ h (rw (k, deliver_message) refl)

  -- A message that completes a majority.
  pub deliver_message-after :
      (m : PaxosMessage) (front : List Monitored) (x : Monitored) (back : List Monitored)
      (manager : Manager ObjectId) (o : Outcome Proposer) (d : Done ObjectId)
      → All (IsOther m.name) front
      → handle_message w.now fd m x.psm ≡ some o
      → is_ignored o.result ≡ false
      → after_outcome id_eq w o x manager ≡ some d
      → deliver_message id_eq w fd m (front ++ (x ∷ back)) manager
        ≡ some (front ++ (d.mon ∷ back), d.manager, d.acts)
  unfolding deliver_message
  deliver_message-after m front x back manager o d h k i e =
      deliver_message-behind m front _ _ manager d.manager _ h (rw (k, deliver_message, i, e) refl)

  -- Late acks of a service whose recovery is committed.
  pub deliver_all-late :
      (k : ℕ) (s : Proposer) (front : List Monitored) (x : Monitored) (back : List Monitored)
      (manager : Manager ObjectId)
      → All (IsOther s.name) front
      → x.psm.name ≡ s.name
      → x.psm.version ≡ s.version
      → x.psm.state ≡ PaxosState.phase3
      → (es : List Effect) × (deliver_all id_eq w fd
            (replicate k (answer phase2ack s))
            (front ++ (x ∷ back))
            manager
          ≡ some (front ++ (x ∷ back), manager, acts_of es))
  unfolding deliver_all
  deliver_all-late zero s front x back manager o n v h = ([], refl)
  deliver_all-late (suc k) s front x back manager o n v h =
      let (es, e) = final_ack w.now fd s x.psm n v h in
      let (fs, f) = deliver_all-late k s front x back manager o n v h in
      (
        es ++ fs,
        rw (deliver_message-handled _ front x back manager x.psm es o e, deliver_all, f)
            (ap (λ z. some (front ++ (x ∷ back), manager, z)) (acts_of-append es fs)),
      )

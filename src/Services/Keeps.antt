-- ===== src/Services/Keeps.antt =====
-- No call of src/proposer.cpp renames a service, or gives it the state machine of another.
use mathlib.Core.Path.{subst}
use qpidrecovery.Base.{
  some_injective, ℕ, ◌≡◌, refl, sym, ap, ◌∙◌, Bool, Option, none, some, List, [], ◌∷◌, ◌++◌, arith,
  Bool-cases, Option-cases, inl, inr, ltb,
}
use qpidrecovery.Address.{url_to_ip_port}
use qpidrecovery.Paxos.Proposal.{
  Proposal, RecoveryProposal, no_proposal, recovery, acceptor_change, max_acceptors,
}
use qpidrecovery.Paxos.Message.{
  PaxosMessage, PaxosResult, Effect, handled, ignored, committing_self, committing_other, Outcome,
}
use qpidrecovery.Paxos.Proposer.{
  Proposer, new_proposer, new_proposal, check_timeout, handle_message, dispatch,
  get_committing_proposal, send_commitment,
}
use qpidrecovery.Recovery.Brokers.{Manager}
use qpidrecovery.Heartbeat.{drop_client}
use qpidrecovery.Services.Failover.{start_recovery_calls}
use qpidrecovery.Services.{
  Monitored, World, Done, Services, Act, acts_of, is_commit, is_ignored, inform_all,
  add_inform_list, change_acceptors, recover, commit_recovery, commit_of, handle_commit,
  after_outcome, start_recovery, preceded, behind, before, deliver_message,
}

-- The service keeps its name, and its state machine too, if it had this name.
pub record Keeps (x y : Monitored) : Type 0 where
  pub name : y.name ≡ x.name
  pub machine : x.psm.name ≡ x.name → y.psm.name ≡ x.name

abbrev pub KeepsAll : List Monitored → List Monitored → Type 0
KeepsAll [] [] = Unit
KeepsAll [] (y ∷ ys) = ⊥
KeepsAll (x ∷ xs) [] = ⊥
KeepsAll (x ∷ xs) (y ∷ ys) = Keeps x y × KeepsAll xs ys

pub Keeps-refl : (x : Monitored) → Keeps x x
Keeps-refl x = record { name = refl; machine = λ h. h }

pub Keeps-trans : (x y z : Monitored) → Keeps x y → Keeps y z → Keeps x z
Keeps-trans x y z h k = record {
  name = k.name ∙ h.name;
  machine = λ m. k.machine (h.machine m ∙ sym h.name) ∙ h.name;
}

pub KeepsAll-refl : (xs : List Monitored) → KeepsAll xs xs
KeepsAll-refl [] = tt
KeepsAll-refl (x ∷ xs) = (Keeps-refl x, KeepsAll-refl xs)

pub KeepsAll-append :
    (xs ys us vs : List Monitored)
    → KeepsAll xs us
    → KeepsAll ys vs
    → KeepsAll (xs ++ ys) (us ++ vs)
KeepsAll-append [] ys [] vs h k = k
KeepsAll-append [] ys (u ∷ us) vs h k = absurd h
KeepsAll-append (x ∷ xs) ys [] vs h k = absurd h
KeepsAll-append (x ∷ xs) ys (u ∷ us) vs h k = (h.0, KeepsAll-append xs ys us vs h.1 k)

handle_message_name :
    (now fd : ℕ) (m : PaxosMessage) (s : Proposer) (o : Outcome Proposer)
    → handle_message now fd m s ≡ some o
    → o.machine.name ≡ s.name
unfolding handle_message dispatch
handle_message_name now fd m s o h = ground arith

new_proposal_name :
    (now : ℕ) (p : Proposal) (s : Proposer) → (new_proposal now p s).machine.name ≡ s.name
unfolding new_proposal
new_proposal_name now p s = ground arith

pub check_timeout_name : (now t : ℕ) (s : Proposer) → (check_timeout now t s).0.name ≡ s.name
unfolding check_timeout
check_timeout_name now t s = ground arith

send_commitment_name : (now : ℕ) (s : Proposer) → (send_commitment now s).0.name ≡ s.name
unfolding send_commitment
send_commitment_name now s = ground arith

pub with_machine :
    (x : Monitored) (s : Proposer) → s.name ≡ x.psm.name → Keeps x (record x { psm = s })
with_machine x s n = record { name = refl; machine = λ h. n ∙ h }

module _ {ObjectId : Type 0} where
  pub preceded-some :
      (es : List (Act ObjectId)) (o : Option (Done ObjectId)) (d : Done ObjectId)
      → preceded es o ≡ some d
      → (e : Done ObjectId) × (o ≡ some e) × (d.mon ≡ e.mon)
  preceded-some es none d h = absurd (ground arith)
  preceded-some es (some e) d h = (e, refl, sym (ap (λ z. z.mon) (some_injective h)))

  behind-some :
      (x : Monitored) (es : List Effect) (o : Option (Services ObjectId)) (ys : List Monitored)
      (n : Manager ObjectId) (fs : List (Act ObjectId))
      → behind x es o ≡ some (ys, n, fs)
      → (zs : List Monitored) × (n' : Manager ObjectId) × (gs : List (Act ObjectId)) × (o
          ≡ some (zs, n', gs))
        × (ys ≡ x ∷ zs)
  behind-some x es none ys n fs h = absurd (ground arith)
  behind-some x es (some (zs, n', gs)) ys n fs h =
      (zs, n', gs, refl, sym (ap (λ z. z.0) (some_injective h)))

  before-some :
      (xs : List Monitored) (o : Option (Done ObjectId)) (ys : List Monitored)
      (n : Manager ObjectId) (fs : List (Act ObjectId))
      → before xs o ≡ some (ys, n, fs)
      → (d : Done ObjectId) × (o ≡ some d) × (ys ≡ d.mon ∷ xs)
  before-some xs none ys n fs h = absurd (ground arith)
  before-some xs (some d) ys n fs h = (d, refl, sym (ap (λ z. z.0) (some_injective h)))

  pub inform_all-Keeps : (w : World ObjectId) (x : Monitored) → Keeps x (inform_all w x).0
  unfolding inform_all
  inform_all-Keeps w x = record { name = refl; machine = λ h. h }

  pub add_inform_list-Keeps :
      (w : World ObjectId) (fd : ℕ) (x : Monitored) → Keeps x (add_inform_list w fd x).0
  unfolding add_inform_list
  add_inform_list-Keeps w fd x = elim (Bool-cases (w.writable fd)) [
    | inl e ↦ rw e (record { name = refl; machine = λ h. h })
    | inr e ↦ rw e (Keeps-refl x)
  ]

module _ {ObjectId : Type 0} (id_eq : ObjectId → ObjectId → Bool) where
  commit_recovery-Keeps :
      (w : World ObjectId) (r : PaxosResult) (rp : RecoveryProposal) (x : Monitored)
      (m : Manager ObjectId)
      → Keeps x (commit_recovery id_eq w r rp x m).mon
  unfolding commit_recovery recover inform_all
  commit_recovery-Keeps w committing_self rp x m = record {
    name = refl;
    machine = λ h. send_commitment_name w.now x.psm ∙ h;
  }
  commit_recovery-Keeps w committing_other rp x m = record { name = refl; machine = λ h. h }
  commit_recovery-Keeps w handled rp x m = record { name = refl; machine = λ h. h }
  commit_recovery-Keeps w ignored rp x m = record { name = refl; machine = λ h. h }

  handle_commit-Keeps :
      (w : World ObjectId) (r : PaxosResult) (x : Monitored) (m : Manager ObjectId)
      (d : Done ObjectId)
      → handle_commit id_eq w r x m ≡ some d
      → Keeps x d.mon
  unfolding handle_commit commit_of change_acceptors new_proposer
  handle_commit-Keeps w r x m d h = elim (Option-cases (get_committing_proposal x.psm)) [
    | inl e ↦ absurd (ground (arith, rw (e, handle_commit) at h))
    | inr (p, e) ↦ by_proposal p (rw (e, handle_commit) at h)
  ]
    where
      by_proposal :
          (p : Proposal)
          → ◌≡◌ {A = Option (Done ObjectId)} (commit_of id_eq w r x m p) (some d)
          → Keeps x d.mon
      by_proposal no_proposal k =
          subst (λ (z : Done ObjectId). Keeps x z.mon) (some_injective k) (Keeps-refl x)
      by_proposal (recovery rp) k =
          subst (λ (z : Done ObjectId). Keeps x z.mon) (some_injective k)
            (commit_recovery-Keeps w r rp x m)
      by_proposal (acceptor_change change) k =
          elim (Bool-cases (ltb max_acceptors change.nacceptor)) [
            | inl f ↦ absurd (ground (arith, rw (f, commit_of) at k))
            | inr f ↦
                subst (λ (z : Done ObjectId). Keeps x z.mon)
                  (some_injective (rw (f, commit_of) at k))
                  (record { name = refl; machine = λ h. refl })
          ]

  pub after_outcome-Keeps :
      (w : World ObjectId) (o : Outcome Proposer) (x : Monitored) (m : Manager ObjectId)
      (d : Done ObjectId)
      → o.machine.name ≡ x.psm.name
      → after_outcome id_eq w o x m ≡ some d
      → Keeps x d.mon
  unfolding after_outcome
  after_outcome-Keeps w o x m d n h = elim (Bool-cases (is_commit o.result)) [
    | inl c ↦
        elim (Option-cases (handle_commit id_eq w o.result (record x { psm = o.machine }) m)) [
          | inl f ↦ absurd (ground (arith, rw f at (rw (c, after_outcome) at h)))
          | inr (e, f) ↦
              subst (λ (z : Done ObjectId). Keeps x z.mon)
                (some_injective (rw f at (rw (c, after_outcome) at h)))
                (Keeps-trans x (record x { psm = o.machine }) e.mon (with_machine x o.machine n)
                  (handle_commit-Keeps w o.result (record x { psm = o.machine }) m e f))
        ]
    | inr c ↦
        subst (λ (z : Done ObjectId). Keeps x z.mon) (some_injective (rw (c, after_outcome) at h))
          (with_machine x o.machine n)
  ]

  pub start_recovery-Keeps :
      (w : World ObjectId) (x : Monitored) (m : Manager ObjectId) (d : Done ObjectId)
      → start_recovery id_eq w x m ≡ some d
      → Keeps x d.mon
  unfolding start_recovery
  start_recovery-Keeps w x m d h = elim (Option-cases x.hbc) [
    | inl e ↦ absurd (ground arith)
    | inr (c, e) ↦ elim (Option-cases w.backup) [
      | inl f ↦ absurd (ground arith)
      | inr (url, f) ↦ elim (Option-cases (url_to_ip_port url)) [
        | inl g ↦ absurd (ground arith)
        | inr ((ip, port), g) ↦
            let (d', k, q) =
              preceded-some (acts_of (drop_client c)) _ d
                (sym (start_recovery_calls id_eq w x m c url ip port e f g) ∙ h) in
            let r =
              after_outcome-Keeps w _ (record x { hbc = none }) _ d'
                (new_proposal_name w.now _ x.psm) k in
            subst (Keeps x) (sym q) (record { name = r.name; machine = r.machine })
      ]
    ]
  ]

  pub deliver_message-Keeps :
      (w : World ObjectId) (fd : ℕ) (p : PaxosMessage) (xs ys : List Monitored)
      (m n : Manager ObjectId) (es : List (Act ObjectId))
      → deliver_message id_eq w fd p xs m ≡ some (ys, n, es)
      → KeepsAll xs ys
  unfolding deliver_message
  deliver_message-Keeps w fd p [] ys m n es h =
      subst (KeepsAll []) (ap (λ z. z.0) (some_injective h)) tt
  deliver_message-Keeps w fd p (x ∷ xs) ys m n es h =
      elim (Option-cases (handle_message w.now fd p x.psm)) [
        | inl e ↦ absurd (ground (arith, rw (e, deliver_message) at h))
        | inr (o, e) ↦ elim (Bool-cases (is_ignored o.result)) [
          | inl f ↦
              let (zs, n', fs, k, q) =
                behind-some _ _ _ ys n es (rw f at (rw (e, deliver_message) at h)) in
              subst (KeepsAll (x ∷ xs)) (sym q) (
                with_machine x o.machine (handle_message_name w.now fd p x.psm o e),
                deliver_message-Keeps w fd p xs zs m n' fs k,
              )
          | inr f ↦
              let (d, k, q) = before-some xs _ ys n es (rw f at (rw (e, deliver_message) at h)) in
              subst (KeepsAll (x ∷ xs)) (sym q) (
                after_outcome-Keeps w o x m d (handle_message_name w.now fd p x.psm o e) k,
                KeepsAll-refl xs,
              )
        ]
      ]

-- ===== src/Requestor/Commit/Changed.antt =====
-- A change of the acceptors that the requestor program commits itself.
use qpidrecovery.Base.{
  ℕ, zero, suc, ◌+◌, ◌≡◌, refl, ap, ◌∙◌, true, false, some, List, [], ◌∷◌, ◌++◌, length,
  if◌then◌else◌, u32, Bool-cases, inl, inr,
}
use mathlib.Core.List.{append_assoc}
use qpidrecovery.Text.{Str}
use qpidrecovery.Common.{ParticipateRequest}
use qpidrecovery.Paxos.Proposal.{
  acceptor_change, AcceptorChangeProposal, get_version, head_slot, tail_slots,
}
use qpidrecovery.Paxos.Proposal.Content.{first_slots}
use qpidrecovery.Paxos.Message.{PaxosState, phase3commit, committing_self, Effect, Fd}
use qpidrecovery.Paxos.Proposer.{
  Proposer, is_ready_to_commit, get_committing_proposal, send_commitment, to_acceptors,
  new_proposer, tail_fds,
}
use qpidrecovery.Heartbeat.{HeartbeatClient, new_heartbeat_client}
use qpidrecovery.Requestor.{
  Requestor, Act, requested, World, acts_of, copy_ip_array, participate_request, send_request,
  request_all, new_clients, drop_clients, register_clients, change_acceptor, request_acceptor_port,
  request_proposer_port,
}
use qpidrecovery.Requestor.Commit.{Committed, handle_commit, commit_of, commit_change}

-- The same request to each address that can be reached, in order.
unfoldable pub sent_to : World → ℕ → ParticipateRequest → List Str → List Act
sent_to w port r [] = []
sent_to w port r (ip ∷ ips) =
    let rest = sent_to w port r ips in if w.sends ip port then requested ip port r ∷ rest else rest

request_all_lem :
    (w : World) (name : Str) (port brokerport version : ℕ) (acceptors : List HeartbeatClient)
    (ips : List Str)
    → request_all w name port brokerport version acceptors ips
      ≡ sent_to w port (participate_request name brokerport version acceptors) ips
unfolding request_all send_request sent_to
request_all_lem w name port brokerport version acceptors [] = refl
request_all_lem w name port brokerport version acceptors (ip ∷ ips) =
    elim (Bool-cases (w.sends ip port)) [
      | inl e ↦ rw (e, request_all_lem w name port brokerport version acceptors ips) refl
      | inr e ↦ rw (e, request_all_lem w name port brokerport version acceptors ips) refl
    ]

copy_ip_array-new_clients :
    (now n : ℕ) (acc : List Str) (answers : List Fd)
    → copy_ip_array (new_clients now n acc answers) ≡ first_slots n acc
unfolding copy_ip_array new_clients first_slots new_heartbeat_client
copy_ip_array-new_clients now zero acc answers = refl
copy_ip_array-new_clients now (suc n) acc answers =
    ap (λ t. head_slot acc ∷ t)
      (copy_ip_array-new_clients now n (tail_slots acc) (tail_fds answers))

pub length-new_clients :
    (now n : ℕ) (acc : List Str) (answers : List Fd) → length (new_clients now n acc answers) ≡ n
unfolding new_clients
length-new_clients now zero acc answers = refl
length-new_clients now (suc n) acc answers = ap suc (length-new_clients now n _ _)

-- The request that names the acceptors of a committed change.
abbrev pub request_of : Requestor → AcceptorChangeProposal → ParticipateRequest
request_of s change = record {
  name = s.servicename;
  brokerip = [];
  brokerport = s.brokerport;
  votingversion = u32 (change.newversion + 1);
  committedversion = change.newversion;
  count = change.nacceptor;
  acceptor = first_slots change.nacceptor change.acceptor;
}

request_of_lem :
    (w : World) (s : Requestor) (change : AcceptorChangeProposal)
    → participate_request s.servicename s.brokerport change.newversion
        (new_clients w.now change.nacceptor change.acceptor w.answers)
      ≡ request_of s change
unfolding participate_request
request_of_lem w s change =
    rw
      (
        copy_ip_array-new_clients w.now change.nacceptor change.acceptor w.answers,
        length-new_clients w.now change.nacceptor change.acceptor w.answers,
      )
      refl

send_commitment_acts :
    (now : ℕ) (s : Proposer)
    → is_ready_to_commit s ≡ true
    → (rest : List Effect) × ((send_commitment now s).1
        ≡ to_acceptors s phase3commit s.proposal ++ rest)
unfolding send_commitment
send_commitment_acts now s h = rw (h, send_commitment) (_, refl)

regroup :
    (x a b a' b' : List Act) (es fs gs hs : List Effect)
    → a ≡ a'
    → b ≡ b'
    → gs ≡ es ++ fs
    → (x ++ (a ++ b)) ++ acts_of (gs ++ hs) ≡ x ++ (a' ++ (b' ++ acts_of (es ++ (fs ++ hs))))
regroup x a b a' b' es fs gs hs p q r = rw (p, q, r) (simp (append_assoc) refl)

-- If the state machine of the requestor program has a majority for its change of the acceptors,
-- handleCommit succeeds. It drops the clients of the old acceptors, registers those of the new ones,
-- and sends every new acceptor, and then every proposer, one and the same request that names the new
-- acceptors and their version; only then the old acceptors get the commitment. Afterwards the program
-- has clients of exactly the new acceptors, the version of the change, and a state machine of the
-- next version that is at its start, and it is no longer changing its acceptors.
pub handle_commit-changed :
    (w : World) (s : Requestor) (change : AcceptorChangeProposal)
    → is_ready_to_commit s.psm ≡ true
    → s.psm.proposal ≡ acceptor_change change
    → (c : Committed) × (handle_commit w committing_self s ≡ some c)
      × (c.ok ≡ true)
      × ((rest : List Effect) × (c.acts
            ≡ acts_of (drop_clients s.acceptors ++ register_clients c.requestor.acceptors)
              ++ (sent_to w request_acceptor_port
                    (request_of s change)
                    (first_slots change.nacceptor change.acceptor)
                  ++ (sent_to w request_proposer_port
                        (request_of s change)
                        (copy_ip_array s.proposers)
                      ++ acts_of
                          (to_acceptors s.psm phase3commit (acceptor_change change) ++ rest)))))
      × (copy_ip_array c.requestor.acceptors ≡ first_slots change.nacceptor change.acceptor)
      × (c.requestor.currentversion ≡ change.newversion)
      × (c.requestor.psm.version ≡ u32 (change.newversion + 1))
      × (c.requestor.psm.state ≡ PaxosState.initial)
      × (c.requestor.ischangingacceptor ≡ false)
unfolding handle_commit get_committing_proposal commit_of get_version commit_change change_acceptor
    new_proposer
handle_commit-changed w s change h e =
    let t = record s { currentversion = change.newversion } in
    let new = new_clients w.now change.nacceptor change.acceptor w.answers in
    let asks = λ (port : ℕ) (ips : List Str).
      request_all_lem w s.servicename port s.brokerport change.newversion new ips
      ∙ ap (λ r. sent_to w port r ips) (request_of_lem w s change) in
    let (rest, k) = send_commitment_acts w.now s.psm h in
    (
      commit_change w change t,
      rw (h, e, handle_commit, get_committing_proposal) refl,
      refl,
      (
        _,
        regroup (acts_of (drop_clients s.acceptors ++ register_clients new)) _ _ _ _
            (to_acceptors s.psm phase3commit (acceptor_change change)) rest _ _
            (asks request_acceptor_port _) (asks request_proposer_port _)
            (k ∙ ap (λ p. to_acceptors s.psm phase3commit p ++ rest) e),
      ),
      copy_ip_array-new_clients w.now change.nacceptor change.acceptor w.answers,
      refl,
      refl,
      refl,
      refl,
    )

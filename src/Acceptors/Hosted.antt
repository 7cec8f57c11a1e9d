-- ===== src/Acceptors/Hosted.antt =====
-- The acceptors that one request makes in several processes of src/acceptor.cpp, and a proposer of
-- src/paxos/paxos.cpp that is made for the same request.
use qpidrecovery.Base.{
  ℕ, zero, suc, ◌≤◌, ◌≡◌, ◌≢◌, refl, sym, ap, ◌∙◌, Option, none, some, List, [], ◌∷◌, Ordering,
  length, replicate, ltb, false, arith,
}
use qpidrecovery.Text.{Str, str_eq_refl}
use qpidrecovery.Common.{ParticipateRequest}
use qpidrecovery.Paxos.Proposal.{
  Proposal, no_proposal, recovery, acceptor_change, new_acceptor_change, compare_proposal,
  compare_values, get_value, IsScored, AcceptorChangeProposal, max_acceptors,
}
use qpidrecovery.Paxos.Message.{Fd}
use qpidrecovery.Paxos.Acceptor.{Acceptor, new_acceptor}
use qpidrecovery.Paxos.Proposer.{Proposer, new_proposer, connect_slots}
use qpidrecovery.Paxos.Ballot.{IsFree, AllFree, answering, opened}
use qpidrecovery.Acceptors.{AcceptorName, create_acceptor}
use qpidrecovery.Acceptors.Named.{find_acceptor, IsNamed, put_acceptor_lem}

-- The processes that the request goes to, with the acceptors that each of them has; `none` is one
-- that does not get it. What they have for its name afterwards.
abbrev pub found_in : Str → Option (List AcceptorName) → Option Acceptor
found_in name none = none
found_in name (some xs) = find_acceptor name xs

unfoldable pub hosted :
    ℕ → ParticipateRequest → List (Option (List AcceptorName)) → List (Option Acceptor)
hosted now r [] = []
hosted now r (none ∷ hosts) = none ∷ hosted now r hosts
hosted now r (some xs ∷ hosts) = found_in r.name (create_acceptor now r xs) ∷ hosted now r hosts

abbrev pub AllNamed : List (Option (List AcceptorName)) → Type 0
AllNamed [] = Unit
AllNamed (none ∷ hosts) = AllNamed hosts
AllNamed (some xs ∷ hosts) = IsNamed xs × AllNamed hosts

-- The state machine of the request.
abbrev pub acceptor_of : ℕ → ParticipateRequest → Acceptor
acceptor_of now r =
    new_acceptor now r.name r.votingversion
      (acceptor_change (new_acceptor_change r.committedversion r.count r.acceptor))

pub ltb_le : (n m : ℕ) → n ≤ m → ltb m n ≡ false
ltb_le n m h = ground arith

find_created :
    (now : ℕ) (r : ParticipateRequest) (xs : List AcceptorName)
    → r.count ≤ max_acceptors
    → IsNamed xs
    → found_in r.name (create_acceptor now r xs) ≡ some (acceptor_of now r)
unfolding create_acceptor
find_created now r xs b h =
    rw (ltb_le r.count max_acceptors b, create_acceptor)
      ((put_acceptor_lem now r xs h).1 r.name ∙ rw (str_eq_refl r.name) refl)

-- Every proposal but one with a score that no `int` holds is at least the initial promise.
pub no_proposal_least : (p : Proposal) → IsScored p → compare_proposal no_proposal p ≢ Ordering.gt
unfolding compare_proposal compare_values get_value
no_proposal_least no_proposal h e = ground (arith, e)
no_proposal_least (recovery r) h e = ground (arith, h, e)
no_proposal_least (acceptor_change a) h e = ground (arith, e)

created-IsFree :
    (now : ℕ) (r : ParticipateRequest) (s : Proposer) (p : Proposal)
    → s.name ≡ r.name
    → s.version ≡ r.votingversion
    → IsScored p
    → IsFree s p (acceptor_of now r)
unfolding new_acceptor
created-IsFree now r s p n v h = record {
  name = sym n;
  version = sym v;
  state = refl;
  promise = no_proposal_least p h;
}

pub hosted-AllFree :
    (now : ℕ) (r : ParticipateRequest) (hosts : List (Option (List AcceptorName))) (s : Proposer)
    (p : Proposal)
    → r.count ≤ max_acceptors
    → AllNamed hosts
    → s.name ≡ r.name
    → s.version ≡ r.votingversion
    → IsScored p
    → AllFree s p (hosted now r hosts)
unfolding hosted
hosted-AllFree now r [] s p b h n v k = tt
hosted-AllFree now r (none ∷ hosts) s p b h n v k = hosted-AllFree now r hosts s p b h n v k
hosted-AllFree now r (some xs ∷ hosts) s p b h n v k =
    rw (find_created now r xs b h.0)
      (created-IsFree now r s p n v k, hosted-AllFree now r hosts s p b h.1 n v k)

pub answering-hosted :
    (now : ℕ) (r : ParticipateRequest) (hosts : List (Option (List AcceptorName)))
    → r.count ≤ max_acceptors
    → AllNamed hosts
    → answering (hosted now r hosts) ≡ answering hosts
unfolding hosted
answering-hosted now r [] b h = refl
answering-hosted now r (none ∷ hosts) b h = answering-hosted now r hosts b h
answering-hosted now r (some xs ∷ hosts) b h =
    rw (find_created now r xs b h.0) (ap suc (answering-hosted now r hosts b h.1))

pub length-hosted :
    (now : ℕ) (r : ParticipateRequest) (hosts : List (Option (List AcceptorName)))
    → length (hosted now r hosts) ≡ length hosts
unfolding hosted
length-hosted now r [] = refl
length-hosted now r (none ∷ hosts) = ap suc (length-hosted now r hosts)
length-hosted now r (some xs ∷ hosts) = ap suc (length-hosted now r hosts)

opened-nil : (n : ℕ) → opened n [] ≡ 0
opened-nil zero = refl
opened-nil (suc n) = refl

-- As many slots are open as connections succeed.
pub opened-connect_slots :
    (n m : ℕ) (answers : List Fd)
    → n ≤ m
    → opened n (connect_slots n answers (replicate m none)) ≡ opened n answers
unfolding connect_slots
opened-connect_slots zero m answers h = refl
opened-connect_slots (suc n) zero answers h = absurd (omega arith)
opened-connect_slots (suc n) (suc m) [] h = opened-connect_slots n m [] (omega arith) ∙ opened-nil n
opened-connect_slots (suc n) (suc m) (none ∷ answers) h =
    opened-connect_slots n m answers (omega arith)
opened-connect_slots (suc n) (suc m) (some fd ∷ answers) h =
    ap suc (opened-connect_slots n m answers (omega arith))

pub opened-new_proposer :
    (now : ℕ) (name : Str) (v : ℕ) (last : AcceptorChangeProposal) (answers : List Fd)
    → last.nacceptor ≤ max_acceptors
    → opened last.nacceptor (new_proposer now name v last answers).0.accsfd
      ≡ opened last.nacceptor answers
unfolding new_proposer
opened-new_proposer now name v last answers h =
    opened-connect_slots last.nacceptor max_acceptors answers h

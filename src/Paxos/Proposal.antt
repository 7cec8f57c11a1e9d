-- ===== src/Paxos/Proposal.antt =====
-- The proposals of include/paxos.h and their comparison, src/paxos/paxosproposal.cpp.
-- The class hierarchy is a data type with a constructor for each subclass. A char array is the
-- C string in it, and `acceptor` has one string for each slot of the array; `char_slot` reads a
-- slot, the empty string where the list has none.
pub mod Order
pub mod Content
use qpidrecovery.Base.{
  ℕ, zero, suc, ◌^◌, ◌<◌, ◌≡◌, compare, Ordering, Bool, List, [], ◌∷◌, ℤ, pos, negsuc,
  int_of_unsigned, gt_int, if◌then◌else◌,
}
use qpidrecovery.Text.{Str, or_else, strcmp}

abbrev pub max_proposers : ℕ
max_proposers = 3

abbrev pub max_acceptors : ℕ
max_acceptors = 5

pub data ProposalType : Type 0 where
  noproposal recoveryproposal acceptorchangeproposal : ProposalType

pub record RecoveryProposal : Type 0 where
  pub newversion : ℕ
  pub failip : Str
  pub failport : ℕ
  pub backupip : Str
  pub backupport : ℕ
  pub score : ℕ

pub record AcceptorChangeProposal : Type 0 where
  pub newversion : ℕ
  pub nacceptor : ℕ
  pub acceptor : List Str

pub data Proposal : Type 0 where
  no_proposal : Proposal
  recovery : RecoveryProposal → Proposal
  acceptor_change : AcceptorChangeProposal → Proposal

unfoldable pub get_type : Proposal → ProposalType
get_type no_proposal = noproposal
get_type (recovery r) = recoveryproposal
get_type (acceptor_change a) = acceptorchangeproposal

-- `NoProposal` passes 0 to the constructor of `Proposal`.
unfoldable pub get_version : Proposal → ℕ
get_version no_proposal = 0
get_version (recovery r) = r.newversion
get_version (acceptor_change a) = a.newversion

unfoldable pub get_value : Proposal → ℤ
get_value no_proposal = negsuc 1
get_value (recovery r) = int_of_unsigned r.score
get_value (acceptor_change a) = negsuc 0

-- What all three `compare` return when the types differ; a tie of the values counts as less.
unfoldable pub compare_values : Proposal → Proposal → Ordering
unfolding get_value
compare_values p q = if gt_int (get_value p) (get_value q) then Ordering.gt else Ordering.lt

-- UNEQUALRETURN(A,B) falls through exactly if A equals B.
unfoldable pub unequal_return : ℕ → ℕ → Ordering → Ordering
unequal_return a b rest = or_else (compare a b) rest

unfoldable pub compare_recovery : RecoveryProposal → RecoveryProposal → Ordering
unfolding unequal_return
compare_recovery r s = unequal_return r.score s.score (
    or_else (strcmp r.backupip s.backupip) (
      or_else (strcmp r.failip s.failip) (
        unequal_return r.backupport s.backupport
          (unequal_return r.failport s.failport Ordering.eq))))

abbrev pub head_slot : List Str → Str
head_slot [] = []
head_slot (s ∷ ss) = s

abbrev pub tail_slots : List Str → List Str
tail_slots [] = []
tail_slots (s ∷ ss) = ss

-- The loop over the first `n` slots of both arrays.
unfoldable pub compare_slots : ℕ → List Str → List Str → Ordering
compare_slots zero xs ys = Ordering.eq
compare_slots (suc n) xs ys =
    or_else (strcmp (head_slot xs) (head_slot ys)) (compare_slots n (tail_slots xs) (tail_slots ys))

unfoldable pub compare_acceptor_change : AcceptorChangeProposal → AcceptorChangeProposal → Ordering
unfolding unequal_return
compare_acceptor_change a b =
    unequal_return a.nacceptor b.nacceptor (compare_slots a.nacceptor a.acceptor b.acceptor)

-- `p.compare(q)`, dispatched on the class of `p`.
unfoldable pub compare_proposal : Proposal → Proposal → Ordering
compare_proposal no_proposal no_proposal = Ordering.eq
compare_proposal (recovery r) (recovery s) = compare_recovery r s
compare_proposal (acceptor_change a) (acceptor_change b) = compare_acceptor_change a b
compare_proposal p q = compare_values p q

-- The constructor of `RecoveryProposal`, and of `AcceptorChangeProposal`: the loop over `newlist`.
unfoldable pub new_recovery : ℕ → Str → ℕ → Str → ℕ → ℕ → Proposal
new_recovery ver fip fport bip bport bscore = recovery (record {
  newversion = ver;
  failip = fip;
  failport = fport;
  backupip = bip;
  backupport = bport;
  score = bscore;
})

-- Slots that the loop does not write are empty here; the code reads none of them. The source writes
-- past the array for more than MAX_ACCEPTORS addresses: the callers are `none` for such a number, or,
-- as the requestor, never have one, so that the room is always enough.
unfoldable pub copy_slots : ℕ → ℕ → List Str → List Str
copy_slots zero n xs = []
copy_slots (suc room) zero xs = [] ∷ copy_slots room zero xs
copy_slots (suc room) (suc n) xs = head_slot xs ∷ copy_slots room n (tail_slots xs)

unfoldable pub new_acceptor_change : ℕ → ℕ → List Str → AcceptorChangeProposal
unfolding copy_slots
new_acceptor_change ver nnewlist newlist = record {
  newversion = ver;
  nacceptor = nnewlist;
  acceptor = copy_slots max_acceptors nnewlist newlist;
}

-- Scores that an `int` can hold: `getValue` is then the score itself.
abbrev pub IsScored : Proposal → Type 0
IsScored no_proposal = Unit
IsScored (recovery r) = r.score < 2 ^ 31
IsScored (acceptor_change a) = Unit

-- ===== src/Requestor/Arguments.antt =====
-- readArguments of src/requestor.cpp, and the part of `main` that reads the arguments. sscanf of
-- "%u" and the contents of the files are given; a file that does not open, and every error message,
-- end the program: `none`.
pub mod Slots
pub mod Read
pub mod Filled
mod Tests
use qpidrecovery.Base.{
  ℕ, zero, suc, ◌+◌, Bool, true, false, not, ◌&&◌, ◌||◌, Option, none, some, List, [], ◌∷◌, ltb,
  length, if◌then◌else◌, ◌>>=◌,
}
use qpidrecovery.Text.{Str, codes, str_eq}
use qpidrecovery.Names.{VectorAndIndex, new_vector, read_name_list}
use qpidrecovery.Paxos.Wire.{service_name_length}
use qpidrecovery.Requestor.Loop.Start.{Arguments}

-- What is outside of the program.
pub record Input : Type 0 where
  pub scan_unsigned : Str → Option ℕ
  pub contents : Str → Option Str

-- The variables of the block; the first two have no value at first.
pub record Parsed : Type 0 where
  pub servicename : Option Str
  pub brokerport : Option ℕ
  pub expected_proposers : ℕ
  pub expected_acceptors : ℕ
  pub landmarkip : Option Str
  pub proposernames : VectorAndIndex
  pub acceptornames : VectorAndIndex
  pub readcount : ℕ

abbrev pub nothing_read : Parsed
nothing_read = record {
  servicename = none;
  brokerport = none;
  expected_proposers = 0;
  expected_acceptors = 0;
  landmarkip = none;
  proposernames = new_vector;
  acceptornames = new_vector;
  readcount = 0;
}

-- readArguments, on the first of the arguments that are left.
unfoldable pub read_argument : Input → ℕ → Str → Parsed → Option Parsed
read_argument w zero a s =
    if ltb (length a) service_name_length then some (record s { servicename = some a }) else none
read_argument w (suc zero) a s = do n ← w.scan_unsigned a; some (record s { brokerport = some n })
read_argument w (suc (suc zero)) a s = do
  n ← w.scan_unsigned a
  some (record s { expected_proposers = n })
read_argument w (suc (suc (suc zero))) a s = do
  n ← w.scan_unsigned a
  some (record s { expected_acceptors = n })
read_argument w (suc (suc (suc (suc zero)))) a s = do
  file ← w.contents a
  some (record s { proposernames = read_name_list file s.proposernames })
read_argument w (suc (suc (suc (suc (suc zero))))) a s = do
  file ← w.contents a
  some (record s { acceptornames = read_name_list file s.acceptornames })
read_argument w (suc (suc (suc (suc (suc (suc n)))))) a s = none

-- One call of it, and `readcount++`.
unfoldable pub read_next : Input → Str → Parsed → Option Parsed
unfolding read_argument
read_next w a s = do
  t ← read_argument w s.readcount a s
  some (record t { readcount = s.readcount + 1 })

abbrev pub is_landmark : Str → Bool
is_landmark a = str_eq a (codes "-l") || str_eq a (codes "--landmark")

-- The loop over the arguments that are given.
unfoldable pub read_given : Input → List Str → Parsed → Option Parsed
unfolding read_next
read_given w [] s = some s
read_given w (a ∷ []) s = if is_landmark a then none else read_next w a s
read_given w (a ∷ b ∷ rest) s =
    let marked = read_given w rest (record s { landmarkip = some b }) in
    if is_landmark a then marked else read_next w a s >>= read_given w (b ∷ rest)

abbrev pub defaultargv : List Str
defaultargv =
    [] ∷ codes "5672" ∷ codes "0" ∷ codes "0" ∷ codes "paxoslist.txt" ∷ codes "paxoslist.txt" ∷ []

-- The loop over the arguments that are not given: the defaults from `readcount` on.
unfoldable pub read_defaults : Input → List Str → Parsed → Option Parsed
unfolding read_next
read_defaults w [] s = some s
read_defaults w (a ∷ rest) s = read_next w a s >>= read_defaults w rest

unfoldable pub drop : ℕ → List Str → List Str
drop zero xs = xs
drop (suc n) [] = []
drop (suc n) (x ∷ xs) = drop n xs

abbrev pub is_empty : Str → Bool
is_empty [] = true
is_empty (c ∷ cs) = false

abbrev pub is_marked : Option Str → Bool
is_marked none = false
is_marked (some ip) = true

-- The end of the block. (That nothing is expected beside a landmark is done by new_requestor.)
unfoldable pub finish : Parsed → Option Arguments
finish s = do
  name ← s.servicename
  port ← s.brokerport
  if is_empty name && not (is_marked s.landmarkip)
      then none
      else some (record {
        servicename = name;
        brokerport = port;
        expected_proposers = s.expected_proposers;
        expected_acceptors = s.expected_acceptors;
        landmarkip = s.landmarkip;
        proposernames = s.proposernames;
        acceptornames = s.acceptornames;
      })

unfoldable pub read_arguments : Input → List Str → Option Arguments
unfolding read_given read_defaults finish
read_arguments w args = do
  s ← read_given w args nothing_read
  t ← read_defaults w (drop s.readcount defaultargv) s
  finish t

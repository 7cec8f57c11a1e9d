-- ===== src/Requestor/Arguments/Slots.antt =====
-- The arguments as six slots, in place of a loop with a counter.
use qpidrecovery.Base.{
  ℕ, zero, suc, ◌+◌, ◌<◌, ◌≤◌, ◌≡◌, refl, not, ◌&&◌, Option, none, some, List, [], ◌∷◌, ◌++◌, ltb,
  length, if◌then◌else◌, ◌>>=◌, arith, Option-cases, inl, inr,
}
use qpidrecovery.Text.{Str}
use qpidrecovery.Names.{new_vector, read_name_list}
use qpidrecovery.Paxos.Wire.{service_name_length}
use qpidrecovery.Requestor.Loop.Start.{Arguments}
use qpidrecovery.Requestor.Arguments.{
  Input, Parsed, read_argument, read_next, is_landmark, is_empty, is_marked,
}

abbrev pub in_front : Str → Option (List Str × Option Str) → Option (List Str × Option Str)
in_front a none = none
in_front a (some (ps, m)) = some (a ∷ ps, m)

-- The arguments without the landmarks, and the last landmark; `none` is a flag without a landmark.
unfoldable pub split_flags : Option Str → List Str → Option (List Str × Option Str)
split_flags l [] = some ([], l)
split_flags l (a ∷ []) = if is_landmark a then none else some (a ∷ [], l)
split_flags l (a ∷ b ∷ rest) =
    let marked = split_flags (some b) rest in
    if is_landmark a then marked else in_front a (split_flags l (b ∷ rest))

-- Six arguments, one for each slot.
unfoldable pub read_slots : Input → Option Str → List Str → Option Arguments
read_slots w l (a ∷ b ∷ c ∷ d ∷ e ∷ f ∷ []) = do
  port ← w.scan_unsigned b
  np ← w.scan_unsigned c
  na ← w.scan_unsigned d
  proposers ← w.contents e
  acceptors ← w.contents f
  if ltb (length a) service_name_length && not (is_empty a && not (is_marked l))
      then some (record {
        servicename = a;
        brokerport = port;
        expected_proposers = np;
        expected_acceptors = na;
        landmarkip = l;
        proposernames = read_name_list proposers new_vector;
        acceptornames = read_name_list acceptors new_vector;
      })
      else none
read_slots w l _ = none

-- Parsed one positional argument after the other.
unfoldable pub read_all : Input → List Str → Parsed → Option Parsed
read_all w [] s = some s
read_all w (a ∷ rest) s = read_next w a s >>= read_all w rest

abbrev pub with_landmark : Option Str → Parsed → Parsed
with_landmark l s = record s { landmarkip = l }

read_argument_landmark :
    (w : Input) (n : ℕ) (a : Str) (l : Option Str) (s : Parsed)
    → read_argument w n a (with_landmark l s)
      ≡ (read_argument w n a s >>= (λ t. some (with_landmark l t)))
unfolding read_argument
read_argument_landmark w zero a l s = ground arith
read_argument_landmark w (suc zero) a l s = ground arith
read_argument_landmark w (suc (suc zero)) a l s = ground arith
read_argument_landmark w (suc (suc (suc zero))) a l s = ground arith
read_argument_landmark w (suc (suc (suc (suc zero)))) a l s = ground arith
read_argument_landmark w (suc (suc (suc (suc (suc zero))))) a l s = ground arith
read_argument_landmark w (suc (suc (suc (suc (suc (suc n)))))) a l s = refl

pub read_next_landmark :
    (w : Input) (a : Str) (l : Option Str) (s : Parsed)
    → read_next w a (with_landmark l s) ≡ (read_next w a s >>= (λ t. some (with_landmark l t)))
unfolding read_next
read_next_landmark w a l s = elim (Option-cases (read_argument w s.readcount a s)) [
  | inl e ↦ rw (read_argument_landmark w s.readcount a l s, e, read_next) refl
  | inr (t, e) ↦ rw (read_argument_landmark w s.readcount a l s, e, read_next) refl
]

pub read_next_same :
    (w : Input) (a : Str) (s t : Parsed) → read_next w a s ≡ some t → t.landmarkip ≡ s.landmarkip
read_next_same w a s t h = ground (arith, read_next_landmark w a s.landmarkip s)

read_argument_count :
    (w : Input) (n : ℕ) (a : Str) (s t : Parsed) → read_argument w n a s ≡ some t → n < 6
unfolding read_argument
read_argument_count w zero a s t h = omega arith
read_argument_count w (suc zero) a s t h = omega arith
read_argument_count w (suc (suc zero)) a s t h = omega arith
read_argument_count w (suc (suc (suc zero))) a s t h = omega arith
read_argument_count w (suc (suc (suc (suc zero)))) a s t h = omega arith
read_argument_count w (suc (suc (suc (suc (suc zero))))) a s t h = omega arith
read_argument_count w (suc (suc (suc (suc (suc (suc n)))))) a s t h = absurd (ground arith)

pub read_next_count :
    (w : Input) (a : Str) (s t : Parsed)
    → read_next w a s ≡ some t
    → (t.readcount ≡ s.readcount + 1) × (s.readcount < 6)
unfolding read_next
read_next_count w a s t h = elim (Option-cases (read_argument w s.readcount a s)) [
  | inl e ↦ absurd (ground (arith, rw (e, read_next) at h))
  | inr (u, e) ↦ (ground (arith, rw (e, read_next) at h), read_argument_count w s.readcount a s u e)
]

pub read_all_count :
    (w : Input) (xs : List Str) (s t : Parsed)
    → s.readcount ≤ 6
    → read_all w xs s ≡ some t
    → (t.readcount ≡ s.readcount + length xs) × (t.readcount ≤ 6)
unfolding read_all
read_all_count w [] s t b h = (ground arith, ground arith)
read_all_count w (x ∷ xs) s t b h = elim (Option-cases (read_next w x s)) [
  | inl e ↦ absurd (ground (arith, rw (e, read_all) at h))
  | inr (u, e) ↦
      let (p, q) = read_next_count w x s u e in
      let (c, d) = read_all_count w xs u t (omega arith) (rw (e, read_all) at h) in (omega arith, d)
]

pub read_all-append :
    (w : Input) (xs ys : List Str) (s : Parsed)
    → read_all w (xs ++ ys) s ≡ (read_all w xs s >>= read_all w ys)
unfolding read_all
read_all-append w [] ys s = refl
read_all-append w (x ∷ xs) ys s = elim (Option-cases (read_next w x s)) [
  | inl e ↦ rw (e, read_all) refl
  | inr (u, e) ↦ rw (e, read_all) (read_all-append w xs ys u)
]

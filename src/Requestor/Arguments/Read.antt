-- ===== src/Requestor/Arguments/Read.antt =====
-- The loops over the arguments, against the six slots.
use qpidrecovery.Base.{
  ◌≡◌, refl, sym, Option, none, some, List, [], ◌∷◌, ◌>>=◌, Bool-cases, Option-cases, inl, inr,
}
use qpidrecovery.Text.{Str}
use qpidrecovery.Requestor.Arguments.{Input, Parsed, read_next, is_landmark, read_given}
use qpidrecovery.Requestor.Arguments.Slots.{
  in_front, split_flags, read_all, with_landmark, read_next_landmark, read_next_same,
}

abbrev pub split_then :
    {A : Type 0} → Option (List Str × Option Str) → (List Str → Option Str → Option A) → Option A
split_then none f = none
split_then (some (ps, l)) f = f ps l

pub bind-some : {A : Type 0} (m : Option A) → (m >>= some) ≡ m
bind-some none = refl
bind-some (some a) = refl

-- A positional argument, in front of others that are read as they should be.
positional :
    (w : Input) (a : Str) (rest : List Str) (s : Parsed) (o : Option (List Str × Option Str))
    → split_flags s.landmarkip rest ≡ o
    → ((t : Parsed)
        → read_given w rest t
          ≡ split_then (split_flags t.landmarkip rest) (λ ps l. read_all w ps (with_landmark l t)))
    → (read_next w a s >>= read_given w rest)
      ≡ split_then (in_front a o) (λ ps l. read_all w ps (with_landmark l s))
unfolding read_all
positional w a rest s none q ih = elim (Option-cases (read_next w a s)) [
  | inl e ↦ rw e refl
  | inr (t, e) ↦ rw e (rw (ih t, read_next_same w a s t e, q) refl)
]
positional w a rest s (some (ps, m)) q ih = elim (Option-cases (read_next w a s)) [
  | inl e ↦ rw (read_next_landmark w a m s, e, read_all) refl
  | inr (t, e) ↦
      rw (read_next_landmark w a m s, e, read_all) (rw (ih t, read_next_same w a s t e, q) refl)
]

-- The flags may be taken out first.
pub read_given_lem :
    (w : Input) (args : List Str) (s : Parsed)
    → read_given w args s
      ≡ split_then (split_flags s.landmarkip args) (λ ps l. read_all w ps (with_landmark l s))
unfolding read_given split_flags read_all
read_given_lem w [] s = refl
read_given_lem w (a ∷ []) s = elim (Bool-cases (is_landmark a)) [
  | inl e ↦ rw e refl
  | inr e ↦ rw e (sym (bind-some (read_next w a s)))
]
read_given_lem w (a ∷ b ∷ rest) s = elim (Bool-cases (is_landmark a)) [
  | inl e ↦ rw e (read_given_lem w rest (record s { landmarkip = some b }))
  | inr e ↦ rw e (
      positional w a (b ∷ rest) s (split_flags s.landmarkip (b ∷ rest)) refl
        (read_given_lem w (b ∷ rest)))
]

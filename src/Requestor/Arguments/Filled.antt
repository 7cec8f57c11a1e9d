-- ===== src/Requestor/Arguments/Filled.antt =====
-- What the arguments of src/requestor.cpp come to: six slots, the last of them filled with defaults.
use qpidrecovery.Base.{
  ℕ, zero, suc, ◌+◌, ◌<◌, ◌≤◌, ◌≡◌, refl, ap, ◌∙◌, Option, none, some, List, [], ◌∷◌, ◌++◌, length,
  length-append, ◌>>=◌, arith, Option-cases, inl, inr,
}
use qpidrecovery.Text.{Str}
use qpidrecovery.Requestor.Loop.Start.{Arguments}
use qpidrecovery.Requestor.Arguments.{
  Input, Parsed, nothing_read, read_argument, read_next, defaultargv, read_defaults, drop, finish,
  read_arguments,
}
use qpidrecovery.Requestor.Arguments.Slots.{
  split_flags, read_slots, read_all, with_landmark, read_all_count, read_all-append,
}
use qpidrecovery.Requestor.Arguments.Read.{split_then, read_given_lem}

read_defaults_lem :
    (w : Input) (xs : List Str) (s : Parsed) → read_defaults w xs s ≡ read_all w xs s
unfolding read_defaults read_all
read_defaults_lem w [] s = refl
read_defaults_lem w (x ∷ xs) s = elim (Option-cases (read_next w x s)) [
  | inl e ↦ rw (e, read_defaults, read_all) refl
  | inr (t, e) ↦ rw (e, read_defaults, read_all) (read_defaults_lem w xs t)
]

-- The positional arguments with a landmark, from the start.
abbrev from_start : Input → Option Str → List Str → Option Arguments
from_start w l xs = read_all w xs (with_landmark l nothing_read) >>= finish

six_slots :
    (w : Input) (l : Option Str) (a b c d e f : Str)
    → from_start w l (a ∷ b ∷ c ∷ d ∷ e ∷ f ∷ []) ≡ read_slots w l (a ∷ b ∷ c ∷ d ∷ e ∷ f ∷ [])
unfolding read_all read_next read_argument finish read_slots
six_slots w l a b c d e f = ground arith

too_many : (w : Input) (l : Option Str) (xs : List Str) → 6 < length xs → from_start w l xs ≡ none
too_many w l xs h = elim (Option-cases (read_all w xs (with_landmark l nothing_read))) [
  | inl e ↦ rw e refl
  | inr (t, e) ↦
      let (p, q) = read_all_count w xs (with_landmark l nothing_read) t (omega arith) e in
      absurd (omega arith)
]

slots_lem :
    (w : Input) (l : Option Str) (xs : List Str)
    → 6 ≤ length xs
    → from_start w l xs ≡ read_slots w l xs
unfolding read_slots
slots_lem w l (a ∷ b ∷ c ∷ d ∷ e ∷ f ∷ []) h = six_slots w l a b c d e f
slots_lem w l (a ∷ b ∷ c ∷ d ∷ e ∷ f ∷ g ∷ xs) h =
    too_many w l (a ∷ b ∷ c ∷ d ∷ e ∷ f ∷ g ∷ xs) (omega arith)
slots_lem w l _ h = absurd (omega (arith, h))

length-drop : (n : ℕ) (xs : List Str) → length xs ≤ length (drop n xs) + n
unfolding drop
length-drop zero xs = omega arith
length-drop (suc n) [] = omega arith
length-drop (suc n) (x ∷ xs) = omega (arith, length-drop n xs)

filled : (ps : List Str) → 6 ≤ length (ps ++ drop (length ps) defaultargv)
filled ps =
    omega
      (arith, length-append ps (drop (length ps) defaultargv), length-drop (length ps) defaultargv)

-- The two loops, on positional arguments.
loops_lem :
    (w : Input) (ps : List Str) (l : Option Str)
    → (read_all w ps (with_landmark l nothing_read)
        >>= (λ s. read_defaults w (drop s.readcount defaultargv) s >>= finish))
      ≡ read_slots w l (ps ++ drop (length ps) defaultargv)
loops_lem w ps l =
    then_defaults (read_all w ps (with_landmark l nothing_read)) refl
    ∙ slots_lem w l (ps ++ drop (length ps) defaultargv) (filled ps)
  where
    then_defaults :
        (o : Option Parsed)
        → read_all w ps (with_landmark l nothing_read) ≡ o
        → (o >>= (λ s. read_defaults w (drop s.readcount defaultargv) s >>= finish))
          ≡ from_start w l (ps ++ drop (length ps) defaultargv)
    then_defaults none q =
        rw (read_all-append w ps (drop (length ps) defaultargv) (with_landmark l nothing_read), q)
          refl
    then_defaults (some t) q =
        let (c, b) = read_all_count w ps (with_landmark l nothing_read) t (omega arith) q in
        let count : t.readcount ≡ length ps = omega (arith, c) in
        rw
          (
            read_all-append w ps (drop (length ps) defaultargv) (with_landmark l nothing_read),
            q,
            read_defaults_lem w (drop t.readcount defaultargv) t,
          )
          (ap (λ n. read_all w (drop n defaultargv) t >>= finish) count)

-- The arguments of the requestor program, read one by one with a counter, are what six slots give:
-- the flags and their landmarks are taken out, and the last landmark counts; the remaining arguments
-- fill the slots from the first one on, and the defaults the rest. The program ends if a flag has no
-- landmark, if there are more than six others, or if a slot cannot be read.
pub read_arguments_lem :
    (w : Input) (args : List Str)
    → read_arguments w args
      ≡ split_then
          (split_flags none args)
          (λ ps l. read_slots w l (ps ++ drop (length ps) defaultargv))
unfolding read_arguments
read_arguments_lem w args = flags (split_flags none args) refl
  where
    flags :
        (o : Option (List Str × Option Str))
        → split_flags none args ≡ o
        → read_arguments w args
          ≡ split_then o (λ ps l. read_slots w l (ps ++ drop (length ps) defaultargv))
    flags none q = rw (read_given_lem w args nothing_read, q) refl
    flags (some (ps, l)) q = rw (read_given_lem w args nothing_read, q) (loops_lem w ps l)

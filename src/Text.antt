-- ===== src/Text.antt =====
-- C strings as the code uses them: the bytes in front of the NUL, and `strcmp` by its sign.
-- A comparison in C is an int of which only the sign is read; here it is an `Ordering`.
use Prim.Native.Char.{code}
use Prim.Native.String.{String}
use qpidrecovery.Base.{
  ℕ, ◌≡◌, refl, compare, Ordering, List, [], ◌∷◌, ◌↔◌, arith, Bool, true, false,
}

abbrev pub Str : Type 0
Str = List ℕ

-- The bytes of a literal.
abbrev pub codes : String → Str
codes String.[] = []
codes (String.◌∷◌ c s) = code c ∷ codes s

-- `if(c != 0) return c;` in front of a further comparison.
abbrev pub or_else : Ordering → Ordering → Ordering
or_else Ordering.eq d = d
or_else Ordering.lt d = Ordering.lt
or_else Ordering.gt d = Ordering.gt

abbrev pub opposite : Ordering → Ordering
opposite Ordering.lt = Ordering.gt
opposite Ordering.eq = Ordering.eq
opposite Ordering.gt = Ordering.lt

unfoldable pub strcmp : Str → Str → Ordering
strcmp [] [] = Ordering.eq
strcmp [] (b ∷ t) = Ordering.lt
strcmp (a ∷ s) [] = Ordering.gt
strcmp (a ∷ s) (b ∷ t) = or_else (compare a b) (strcmp s t)

-- The test `strcmp(s, t) == 0`.
abbrev pub is_eq : Ordering → Bool
is_eq Ordering.eq = true
is_eq Ordering.lt = false
is_eq Ordering.gt = false

unfoldable pub str_eq : Str → Str → Bool
str_eq s t = is_eq (strcmp s t)

-- What one outcome says of a third, when three values are compared pairwise: `ab`, `bc`, `ac`.
pub record Coherent (ab bc ac : Ordering) : Type 0 where
  pub eq_left : ab ≡ Ordering.eq → ac ≡ bc
  pub eq_right : bc ≡ Ordering.eq → ac ≡ ab
  pub down : ab ≡ Ordering.lt → bc ≡ Ordering.lt → ac ≡ Ordering.lt
  pub up : ab ≡ Ordering.gt → bc ≡ Ordering.gt → ac ≡ Ordering.gt

pub Coherent-compare : (a b c : ℕ) → Coherent (compare a b) (compare b c) (compare a c)
Coherent-compare a b c = record {
  eq_left = λ h. ground arith;
  eq_right = λ h. ground arith;
  down = λ h k. ground arith;
  up = λ h k. ground arith;
}

pub Coherent-or_else :
    (ab bc ac ab' bc' ac' : Ordering)
    → Coherent ab bc ac
    → Coherent ab' bc' ac'
    → Coherent (or_else ab ab') (or_else bc bc') (or_else ac ac')
Coherent-or_else ab bc ac ab' bc' ac' h k = record {
  eq_left = λ e. ground arith;
  eq_right = λ e. ground arith;
  down = λ e f. ground arith;
  up = λ e f. ground arith;
}

pub opposite-or_else :
    (a b a' b' : Ordering)
    → b ≡ opposite a
    → b' ≡ opposite a'
    → or_else b b' ≡ opposite (or_else a a')
opposite-or_else a b a' b' h k = ground arith

pub opposite-compare : (a b : ℕ) → compare b a ≡ opposite (compare a b)
opposite-compare a b = ground arith

pub compare-eq : (a b : ℕ) → (compare a b ≡ Ordering.eq) ↔ (a ≡ b)
compare-eq a b = ground arith

pub opposite-strcmp : (s t : Str) → strcmp t s ≡ opposite (strcmp s t)
unfolding strcmp
opposite-strcmp [] [] = refl
opposite-strcmp [] (b ∷ t) = refl
opposite-strcmp (a ∷ s) [] = refl
opposite-strcmp (a ∷ s) (b ∷ t) =
    opposite-or_else (compare a b) (compare b a) (strcmp s t) (strcmp t s) (opposite-compare a b)
      (opposite-strcmp s t)

pub Coherent-strcmp : (s t u : Str) → Coherent (strcmp s t) (strcmp t u) (strcmp s u)
unfolding strcmp
Coherent-strcmp [] [] [] = ground arith
Coherent-strcmp [] [] (c ∷ u) = ground arith
Coherent-strcmp [] (b ∷ t) [] = ground arith
Coherent-strcmp [] (b ∷ t) (c ∷ u) = ground arith
Coherent-strcmp (a ∷ s) [] [] = ground arith
Coherent-strcmp (a ∷ s) [] (c ∷ u) = ground arith
Coherent-strcmp (a ∷ s) (b ∷ t) [] = ground arith
Coherent-strcmp (a ∷ s) (b ∷ t) (c ∷ u) =
    Coherent-or_else (compare a b) (compare b c) (compare a c) (strcmp s t) (strcmp t u)
      (strcmp s u) (Coherent-compare a b c) (Coherent-strcmp s t u)

pub strcmp_self : (s : Str) → strcmp s s ≡ Ordering.eq
unfolding strcmp
strcmp_self [] = refl
strcmp_self (a ∷ s) = ground (arith, strcmp_self s)

pub eq_of_strcmp : (s t : Str) → strcmp s t ≡ Ordering.eq → s ≡ t
unfolding strcmp
eq_of_strcmp [] [] h = refl
eq_of_strcmp [] (b ∷ t) h = ground arith
eq_of_strcmp (a ∷ s) [] h = ground arith
eq_of_strcmp (a ∷ s) (b ∷ t) h = ground (arith, eq_of_strcmp s t)

pub str_eq_iff : (s t : Str) → (str_eq s t ≡ true) ↔ (s ≡ t)
unfolding str_eq
str_eq_iff s t = (λ h. ground (arith, eq_of_strcmp s t), λ h. ground (arith, strcmp_self s))

pub str_eq_refl : (s : Str) → str_eq s s ≡ true
unfolding str_eq
str_eq_refl s = ground (arith, strcmp_self s)

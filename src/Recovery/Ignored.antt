-- ===== src/Recovery/Ignored.antt =====
-- isIgnoredName of src/recovery/recoverymanager.cpp.
use qpidrecovery.Base.{
  ◌≤◌, ◌≡◌, ◌↔◌, ◌⊎◌, inl, inr, refl, Bool, true, false, List, [], ◌∷◌, ◌++◌, length, leb, ◌==◌,
  if◌then◌else◌, arith, ◌||◌, Bool-cases,
}
use qpidrecovery.Text.{Str, codes}

abbrev pub patterns : List Str
patterns = codes "qmf." ∷ codes "qmfc-" ∷ codes "qpid." ∷ codes "amq." ∷ []

-- The inner loop: the flag that it leaves.
unfoldable pub matches : Str → Str → Bool
matches [] str = true
matches (p ∷ ps) [] = false
matches (p ∷ ps) (c ∷ cs) = if c == p then matches ps cs else false

unfoldable pub any_matches : List Str → Str → Bool
any_matches [] str = false
any_matches (p ∷ ps) str = if matches p str then true else any_matches ps str

unfoldable pub is_ignored_name : Str → Bool
is_ignored_name str =
    if length str == 0 || leb 20 (length str) then true else any_matches patterns str

abbrev pub StartsWith : Str → Str → Type 0
StartsWith p str = (rest : Str) × (str ≡ p ++ rest)

abbrev pub AnyPrefix : List Str → Str → Type 0
AnyPrefix [] str = ⊥
AnyPrefix (p ∷ ps) str = StartsWith p str ⊎ AnyPrefix ps str

prefix_of_matches : (p str : Str) → matches p str ≡ true → StartsWith p str
unfolding matches
prefix_of_matches [] str h = (str, refl)
prefix_of_matches (p ∷ ps) [] h = absurd (ground arith)
prefix_of_matches (p ∷ ps) (c ∷ cs) h =
    let (rest, e) = prefix_of_matches ps cs (ground arith) in (rest, ground arith)

matches-append : (p rest : Str) → matches p (p ++ rest) ≡ true
unfolding matches
matches-append [] rest = refl
matches-append (p ∷ ps) rest = ground (arith, matches-append ps rest)

any_of_matches : (ps : List Str) (str : Str) → any_matches ps str ≡ true → AnyPrefix ps str
unfolding any_matches
any_of_matches [] str h = absurd (ground arith)
any_of_matches (p ∷ ps) str h = elim (Bool-cases (matches p str)) [
  | inl e ↦ inl (prefix_of_matches p str e)
  | inr e ↦ inr (any_of_matches ps str (ground arith))
]

matches_of_any : (ps : List Str) (str : Str) → AnyPrefix ps str → any_matches ps str ≡ true
unfolding any_matches
matches_of_any [] str h = absurd h
matches_of_any (p ∷ ps) str (inl (rest, e)) = rw (e, any_matches) (rw (matches-append p rest))
matches_of_any (p ∷ ps) str (inr h) = ground (arith, matches_of_any ps str h)

-- A name is ignored exactly if it is empty, has 20 or more bytes, or starts with one of the four
-- patterns.
is_ignored_name_iff :
    (str : Str)
    → (is_ignored_name str ≡ true)
      ↔ (((length str ≡ 0) ⊎ (20 ≤ length str)) ⊎ AnyPrefix patterns str)
unfolding is_ignored_name
is_ignored_name_iff str = (to, from)
  where
    to :
        is_ignored_name str ≡ true → ((length str ≡ 0) ⊎ (20 ≤ length str)) ⊎ AnyPrefix patterns str
    to h = elim (Bool-cases (length str == 0 || leb 20 (length str))) [
      | inl e ↦ inl (ground arith)
      | inr e ↦ inr (any_of_matches patterns str (ground arith))
    ]

    from :
        ((length str ≡ 0) ⊎ (20 ≤ length str)) ⊎ AnyPrefix patterns str → is_ignored_name str ≡ true
    from (inl (inl e)) = ground arith
    from (inl (inr e)) = ground arith
    from (inr a) = ground (arith, matches_of_any patterns str a)

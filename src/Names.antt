-- ===== src/Names.antt =====
-- src/setting/namelist.cpp: a file of names, and the calls that take one name after the other.
pub mod Taken
mod Tests
use qpidrecovery.Base.{
  ℕ, zero, suc, ◌+◌, Bool, Option, none, some, List, [], ◌∷◌, ◌++◌, ◌||◌, ◌&&◌, ◌==◌, length,
  get_elem?, ltb, if◌then◌else◌,
}
use qpidrecovery.Text.{Str}

pub record VectorAndIndex : Type 0 where
  pub elements : List Str
  pub index : ℕ

unfoldable pub new_vector : VectorAndIndex
new_vector = record { elements = []; index = 0 }

-- getAnElement; `none` is the null pointer.
unfoldable pub get_an_element : VectorAndIndex → Option Str × VectorAndIndex
get_an_element v =
    if ltb v.index (length v.elements)
    then (get_elem? v.elements v.index, record v { index = v.index + 1 })
    else (none, v)

-- isspace of the C locale: a blank, and the codes from tab to carriage return.
abbrev pub is_space : ℕ → Bool
is_space c = (c == b' ') || (ltb 8 c && ltb c 14)

-- The width in "%63s".
abbrev pub name_width : ℕ
name_width = 63

-- What the calls of fscanf give, one after the other: `word` is what the call at hand has read, with
-- `left` more characters that it takes.
unfoldable pub scan : ℕ → Str → Str → List Str
scan left [] [] = []
scan left (w ∷ ws) [] = (w ∷ ws) ∷ []
scan left [] (c ∷ cs) = if is_space c then scan name_width [] cs else scan 62 (c ∷ []) cs
scan zero (w ∷ ws) (c ∷ cs) =
    if is_space c then (w ∷ ws) ∷ scan name_width [] cs else (w ∷ ws) ∷ scan 62 (c ∷ []) cs
scan (suc left) (w ∷ ws) (c ∷ cs) =
    if is_space c then (w ∷ ws) ∷ scan name_width [] cs else scan left ((w ∷ ws) ++ (c ∷ [])) cs

-- readNameList of a file that opens.
unfoldable pub read_name_list : Str → VectorAndIndex → VectorAndIndex
read_name_list file vec = record vec { elements = vec.elements ++ scan name_width [] file }

-- ===== src/Names/Taken.antt =====
-- The names of a file of src/setting/namelist.cpp are taken in order, each once.
use mathlib.Core.List.{append_assoc, append-nil}
use qpidrecovery.Base.{
  ℕ, zero, suc, ◌+◌, ◌≤◌, ◌≡◌, refl, ◌≢◌, sym, ap, ◌∙◌, true, false, Option, none, some, List, [],
  ◌∷◌, ◌++◌, All, length, length-append, get_elem?, replicate, map, ltb, arith,
}
use qpidrecovery.Text.{Str}
use qpidrecovery.Names.{
  VectorAndIndex, get_an_element, is_space, name_width, scan, read_name_list, new_vector,
}

-- A name that one call of fscanf reads whole.
pub record IsName (n : Str) : Type 0 where
  pub filled : n ≢ []
  pub printed : All (λ (c : ℕ). is_space c ≡ false) n
  pub short : length n ≤ name_width

-- A file with one name a line.
abbrev pub lines : List Str → Str
lines [] = []
lines (n ∷ ns) = n ++ (0x0a ∷ lines ns)

-- What so many calls of getAnElement return.
unfoldable pub take_elements : ℕ → VectorAndIndex → List (Option Str)
take_elements zero v = []
take_elements (suc k) v = (get_an_element v).0 ∷ take_elements k (get_an_element v).1

scan_word :
    (left w : ℕ) (ws n rest : Str)
    → length n ≤ left
    → All (λ (c : ℕ). is_space c ≡ false) n
    → scan left (w ∷ ws) (n ++ (0x0a ∷ rest)) ≡ ((w ∷ ws) ++ n) ∷ scan name_width [] rest
unfolding scan
scan_word zero w ws [] rest l h = ap (λ u. u ∷ scan name_width [] rest) (sym (append-nil (w ∷ ws)))
scan_word (suc left) w ws [] rest l h =
    ap (λ u. u ∷ scan name_width [] rest) (sym (append-nil (w ∷ ws)))
scan_word zero w ws (c ∷ cs) rest l h = absurd (omega arith)
scan_word (suc left) w ws (c ∷ cs) rest l h =
    rw (h.0, scan)
      (scan_word left w (ws ++ (c ∷ [])) cs rest (omega arith) h.1
        ∙ ap (λ u. u ∷ scan name_width [] rest) (append_assoc (w ∷ ws) (c ∷ []) cs))

scan-name :
    (n rest : Str)
    → IsName n
    → scan name_width [] (n ++ (0x0a ∷ rest)) ≡ n ∷ scan name_width [] rest
unfolding scan
scan-name [] rest h = absurd (h.filled refl)
scan-name (c ∷ cs) rest h =
    rw (h.printed.0, scan) (scan_word 62 c [] cs rest (let l = h.short in omega arith) h.printed.1)

scan-lines : (ns : List Str) → All IsName ns → scan name_width [] (lines ns) ≡ ns
scan-lines [] h = unfold scan in refl
scan-lines (n ∷ ns) h = scan-name n (lines ns) h.0 ∙ ap (λ u. n ∷ u) (scan-lines ns h.1)

get_elem?-append :
    (pre : List Str) (n : Str) (ns : List Str) → get_elem? (pre ++ (n ∷ ns)) (length pre) ≡ some n
get_elem?-append [] n ns = refl
get_elem?-append (p ∷ pre) n ns = get_elem?-append pre n ns

pub get_an_element-next :
    (pre : List Str) (n : Str) (ns : List Str)
    → get_an_element (record { elements = pre ++ (n ∷ ns); index = length pre })
      ≡ (some n, record { elements = pre ++ (n ∷ ns); index = length pre + 1 })
unfolding get_an_element
get_an_element-next pre n ns =
    let e : ltb (length pre) (length (pre ++ (n ∷ ns))) ≡ true =
      ground (arith, length-append {0} pre (n ∷ ns)) in
    rw (e, get_elem?-append pre n ns) refl

pub get_an_element-end :
    (elements : List Str)
    → get_an_element (record { elements = elements; index = length elements })
      ≡ (none, record { elements = elements; index = length elements })
unfolding get_an_element
get_an_element-end elements =
    let e : ltb (length elements) (length elements) ≡ false = ground arith in rw e refl

take_elements-end :
    (k : ℕ) (elements : List Str)
    → take_elements k (record { elements = elements; index = length elements }) ≡ replicate k none
unfolding take_elements
take_elements-end zero elements = refl
take_elements-end (suc k) elements =
    rw (get_an_element-end elements, take_elements)
      (ap (λ u. none ∷ u) (take_elements-end k elements))

take_elements-behind :
    (k : ℕ) (pre ns : List Str)
    → take_elements (length ns + k) (record { elements = pre ++ ns; index = length pre })
      ≡ map some ns ++ replicate k none
unfolding take_elements
take_elements-behind k pre [] =
    let z : 0 + k ≡ k = omega arith in rw (append-nil pre, z) (take_elements-end k pre)
take_elements-behind k pre (n ∷ ns) =
    let e : length (n ∷ ns) + k ≡ suc (length ns + k) = omega arith in
    let l : length pre + 1 ≡ length (pre ++ (n ∷ [])) =
      omega (arith, length-append {0} pre (n ∷ [])) in
    let a : pre ++ (n ∷ ns) ≡ (pre ++ (n ∷ [])) ++ ns = sym (append_assoc pre (n ∷ []) ns) in
    rw (e, take_elements, get_an_element-next pre n ns, l, a)
      (ap (λ u. some n ∷ u) (take_elements-behind k (pre ++ (n ∷ [])) ns))

-- After readNameList has read a file of names that are not empty, have no white space and at most 63
-- characters, one a line, into the list that the program starts with, getAnElement gives exactly these
-- names, each once and in their order, and a null pointer at every further call.
pub take_elements-read_name_list :
    (k : ℕ) (ns : List Str)
    → All IsName ns
    → take_elements (length ns + k) (read_name_list (lines ns) new_vector)
      ≡ map some ns ++ replicate k none
unfolding read_name_list new_vector
take_elements-read_name_list k ns h = rw (scan-lines ns h) (take_elements-behind k [] ns)

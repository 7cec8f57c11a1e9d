-- ===== src/Names/Tests.antt =====
-- A witness for the lists of names.
use qpidrecovery.Base.{◌+◌, ◌≡◌, refl, none, some, [], ◌∷◌, arith}
use qpidrecovery.Text.{codes}
use qpidrecovery.Names.{read_name_list, new_vector}
use qpidrecovery.Names.Taken.{IsName, lines, take_elements, take_elements-read_name_list}

first-IsName : IsName (codes "b1")
first-IsName = record {
  filled = λ e. ground (arith, e);
  printed = (refl, (refl, tt));
  short = omega arith;
}

second-IsName : IsName (codes "b2")
second-IsName = record {
  filled = λ e. ground (arith, e);
  printed = (refl, (refl, tt));
  short = omega arith;
}

take_elements-read_name_list_example :
    take_elements (2 + 1) (read_name_list (lines (codes "b1" ∷ codes "b2" ∷ [])) new_vector)
    ≡ some (codes "b1") ∷ some (codes "b2") ∷ none ∷ []
take_elements-read_name_list_example =
    take_elements-read_name_list 1 (codes "b1" ∷ codes "b2" ∷ [])
      (first-IsName, (second-IsName, tt))

-- ===== src/FileSelector/Registered.antt =====
-- The selector as a set of descriptors.
use qpidrecovery.Base.{
  ◌≤◌, ◌≡◌, inl, inr, refl, true, false, none, some, List, [], ◌∷◌, ◌++◌, length, arith,
  if◌then◌else◌, Bool-cases,
}
use qpidrecovery.Paxos.Message.{Fd}
use qpidrecovery.FileSelector.{
  FileSelector, capacity, fd_eq, contains, last_of, init_of, fill_hole, remove,
}

-- No descriptor is registered twice.
abbrev pub Distinct : List Fd → Type 0
Distinct [] = Unit
Distinct (x ∷ xs) = (contains x xs ≡ false) × Distinct xs

pub record IsValid (fs : FileSelector) : Type 0 where
  pub distinct : Distinct fs.regfd
  pub fitting : length fs.regfd ≤ capacity

pub fd_eq_refl : (a : Fd) → fd_eq a a ≡ true
fd_eq_refl none = refl
fd_eq_refl (some a) = ground arith

pub eq_of_fd_eq : (a b : Fd) → fd_eq a b ≡ true → a ≡ b
eq_of_fd_eq none none h = refl
eq_of_fd_eq none (some b) h = ground arith
eq_of_fd_eq (some a) none h = ground arith
eq_of_fd_eq (some a) (some b) h = ground arith

fd_eq_comm : (a b : Fd) → fd_eq a b ≡ fd_eq b a
fd_eq_comm none none = refl
fd_eq_comm none (some b) = refl
fd_eq_comm (some a) none = refl
fd_eq_comm (some a) (some b) = ground arith

pub contains-append :
    (g : Fd) (xs ys : List Fd)
    → contains g (xs ++ ys) ≡ (if contains g xs then true else contains g ys)
unfolding contains
contains-append g [] ys = refl
contains-append g (x ∷ xs) ys = ground (arith, contains-append g xs ys)

contains-init :
    (g x : Fd) (xs : List Fd)
    → contains g (x ∷ xs) ≡ (if fd_eq g (last_of x xs) then true else contains g (init_of x xs))
unfolding contains
contains-init g x [] = refl
contains-init g x (y ∷ ys) = ground (arith, contains-init g y ys)

contains-fill_hole : (g : Fd) (xs : List Fd) → contains g (fill_hole xs) ≡ contains g xs
unfolding contains
contains-fill_hole g [] = refl
contains-fill_hole g (x ∷ xs) = ground (arith, contains-init g x xs)

-- The last entry is not among the others, and the others are distinct.
Distinct-init :
    (x : Fd) (xs : List Fd)
    → Distinct (x ∷ xs)
    → (contains (last_of x xs) (init_of x xs) ≡ false) × Distinct (init_of x xs)
unfolding contains
Distinct-init x [] h = (refl, tt)
Distinct-init x (y ∷ ys) h =
    let (apart, rest) = Distinct-init y ys h.1 in
    (
      ground (arith, apart, fd_eq_comm (last_of y ys) x, contains-init x y ys),
      (ground (arith, contains-init x y ys), rest),
    )

Distinct-fill_hole : (xs : List Fd) → Distinct xs → Distinct (fill_hole xs)
Distinct-fill_hole [] h = tt
Distinct-fill_hole (x ∷ xs) h = Distinct-init x xs h

pub contains-remove :
    (g fd : Fd) (xs : List Fd)
    → Distinct xs
    → contains g (remove fd xs) ≡ (if fd_eq fd g then false else contains g xs)
unfolding contains remove
contains-remove g fd [] h = ground arith
contains-remove g fd (x ∷ xs) h = elim (Bool-cases (fd_eq fd x)) [
  | inl e ↦
      ground (arith, eq_of_fd_eq fd x e, contains-fill_hole g xs, eq_of_fd_eq fd g, fd_eq_comm x g)
  | inr e ↦
      ground (arith, contains-remove g fd xs h.1, eq_of_fd_eq fd g, eq_of_fd_eq g x, fd_eq_comm x g)
]

pub Distinct-remove : (fd : Fd) (xs : List Fd) → Distinct xs → Distinct (remove fd xs)
unfolding contains remove
Distinct-remove fd [] h = tt
Distinct-remove fd (x ∷ xs) h = elim (Bool-cases (fd_eq fd x)) [
  | inl e ↦ rw e (Distinct-fill_hole xs h.1)
  | inr e ↦ rw e (ground (arith, contains-remove x fd xs h.1), Distinct-remove fd xs h.1)
]

pub Distinct-append :
    (fd : Fd) (xs : List Fd) → Distinct xs → contains fd xs ≡ false → Distinct (xs ++ fd ∷ [])
unfolding contains
Distinct-append fd [] h n = (refl, tt)
Distinct-append fd (x ∷ xs) h n = (
  ground (arith, contains-append x xs (fd ∷ []), fd_eq_comm fd x),
  Distinct-append fd xs h.1 (ground arith),
)

length-init : (x : Fd) (xs : List Fd) → length (init_of x xs) ≡ length xs
length-init x [] = refl
length-init x (y ∷ ys) = omega (arith, length-init y ys)

pub length-remove : (fd : Fd) (xs : List Fd) → length (remove fd xs) ≤ length xs
unfolding remove
length-remove fd [] = omega arith
length-remove fd (x ∷ xs) = ground (arith, length-remove fd xs, length-fill fd xs)
  where
    length-fill : (fd : Fd) (ys : List Fd) → length (fill_hole ys) ≤ length ys
    length-fill fd [] = omega arith
    length-fill fd (y ∷ ys) = omega (arith, length-init y ys)

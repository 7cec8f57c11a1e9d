-- ===== src/FileSelector/Effects.antt =====
-- What a list of effects leaves registered, against the last effect that names a descriptor.
use qpidrecovery.Base.{
  ℕ, ◌≡◌, inl, inr, refl, Bool, true, false, some, List, [], ◌∷◌, arith, if◌then◌else◌,
  Option-cases, Bool-cases, length-append,
}
use qpidrecovery.Paxos.Message.{Fd, Effect, send, register_fd, unregister_fd, close_fd}
use qpidrecovery.FileSelector.{
  FileSelector, fd_eq, contains, register, unregister, readable, get_read_ready_fd, first_ready,
  ready, ready_nothing, is_set, apply_effects,
}
use qpidrecovery.FileSelector.Registered.{
  IsValid, fd_eq_refl, eq_of_fd_eq, contains-append, contains-remove, Distinct-remove,
  Distinct-append, length-remove,
}

-- Whether a descriptor is registered after the effects, told from the effects alone.
unfoldable pub registered_after : Fd → Bool → List Effect → Bool
registered_after g b [] = b
registered_after g b (register_fd fd ∷ es) = registered_after g (if fd_eq fd g then true else b) es
registered_after g b (unregister_fd fd ∷ es) =
    registered_after g (if fd_eq fd g then false else b) es
registered_after g b (send fd m ∷ es) = registered_after g b es
registered_after g b (close_fd fd ∷ es) = registered_after g b es

register-IsValid :
    (fd : Fd) (fs gs : FileSelector) → IsValid fs → register fd fs ≡ some gs → IsValid gs
unfolding register
register-IsValid fd fs gs v h = elim (Bool-cases (contains fd fs.regfd)) [
  | inl e ↦ ground arith
  | inr e ↦
      ground (arith, Distinct-append fd fs.regfd v.distinct e, length-append fs.regfd (fd ∷ []))
]

contains-register :
    (g fd : Fd) (fs gs : FileSelector)
    → register fd fs ≡ some gs
    → contains g gs.regfd ≡ (if fd_eq fd g then true else contains g fs.regfd)
unfolding register contains
contains-register g fd fs gs h =
    ground (
      arith,
      contains-append g fs.regfd (fd ∷ []),
      eq_of_fd_eq fd g,
      eq_of_fd_eq g fd,
      fd_eq_refl g,
    )

unregister-IsValid : (fd : Fd) (fs : FileSelector) → IsValid fs → IsValid (unregister fd fs)
unfolding unregister
unregister-IsValid fd fs v = record {
  distinct = Distinct-remove fd fs.regfd v.distinct;
  fitting = omega (arith, v.fitting, length-remove fd fs.regfd);
}

contains-unregister :
    (g fd : Fd) (fs : FileSelector)
    → IsValid fs
    → contains g (unregister fd fs).regfd ≡ (if fd_eq fd g then false else contains g fs.regfd)
unfolding unregister
contains-unregister g fd fs v = contains-remove g fd fs.regfd v.distinct

-- Registering and unregistering in any order keeps the descriptors distinct and within the array,
-- and leaves exactly those registered whose last effect was a registration, or that no effect
-- names and that were registered before.
pub apply_effects-registered :
    (es : List Effect) (fs gs : FileSelector)
    → IsValid fs
    → apply_effects es fs ≡ some gs
    → IsValid gs × ((g : Fd) → contains g gs.regfd ≡ registered_after g (contains g fs.regfd) es)
unfolding apply_effects registered_after
apply_effects-registered [] fs gs v h = (ground arith, λ g. ground arith)
apply_effects-registered (register_fd fd ∷ es) fs gs v h = elim (Option-cases (register fd fs)) [
  | inl e ↦ absurd (ground arith)
  | inr (hs, e) ↦
      let (valid, rest) =
        apply_effects-registered es hs gs (register-IsValid fd fs hs v e) (ground arith) in
      (valid, λ g. rw (← contains-register g fd fs hs e) (rest g))
]
apply_effects-registered (unregister_fd fd ∷ es) fs gs v h =
    let (valid, rest) =
      apply_effects-registered es (unregister fd fs) gs (unregister-IsValid fd fs v) h in
    (valid, λ g. rw (← contains-unregister g fd fs v) (rest g))
apply_effects-registered (send fd m ∷ es) fs gs v h = apply_effects-registered es fs gs v h
apply_effects-registered (close_fd fd ∷ es) fs gs v h = apply_effects-registered es fs gs v h

first_ready-registered :
    (set : ℕ → Bool) (xs : List Fd) (fd : Fd)
    → first_ready set xs ≡ ready fd
    → (contains fd xs ≡ true) × (is_set set fd ≡ true)
unfolding first_ready contains
first_ready-registered set [] fd h = ground arith
first_ready-registered set (x ∷ xs) fd h =
    ground (arith, fd_eq_refl fd, first_ready-registered set xs fd)

first_ready-nothing :
    (set : ℕ → Bool) (xs : List Fd) (fd : Fd)
    → first_ready set xs ≡ ready_nothing
    → contains fd xs ≡ true
    → is_set set fd ≡ false
unfolding first_ready contains
first_ready-nothing set [] fd h c = ground arith
first_ready-nothing set (x ∷ xs) fd h c =
    ground (arith, eq_of_fd_eq fd x, first_ready-nothing set xs fd)

-- A descriptor that getReadReadyFD returns is registered and readable; -777 means that no
-- registered descriptor is readable; and the registrations stay.
pub get_read_ready_fd_lem :
    (set : ℕ → Bool) (tv_s tv_us : ℕ) (fs : FileSelector) (fd : Fd)
    → let (gs, r) = get_read_ready_fd (readable set) tv_s tv_us fs in
      (r ≡ ready fd → (contains fd fs.regfd ≡ true) × (is_set set fd ≡ true))
      × (r ≡ ready_nothing → contains fd fs.regfd ≡ true → is_set set fd ≡ false)
      × (gs.regfd ≡ fs.regfd)
unfolding get_read_ready_fd
get_read_ready_fd_lem set tv_s tv_us fs fd =
    (first_ready-registered set fs.regfd fd, first_ready-nothing set fs.regfd fd, refl)

-- ===== src/FileSelector.antt =====
-- FileSelector of include/fileselector.h and src/common/fileselector.cpp. `regfd` holds the first
-- `numberofreg` entries of the array; a registration past its 400 slots is a fault, `none`. What
-- `select` reports is an argument: the timeout, an error, or the set of descriptors to read.
pub mod Registered
pub mod Effects
mod Tests
use qpidrecovery.Base.{
  ℕ, zero, suc, ◌≡◌, Bool, true, false, Option, none, some, List, [], ◌∷◌, ◌++◌, length, ltb, ◌==◌,
  if◌then◌else◌,
}
use qpidrecovery.Paxos.Message.{Fd, Effect, send, register_fd, unregister_fd, close_fd}

pub record FileSelector : Type 0 where
  pub regfd : List Fd
  pub timeout_s : ℕ
  pub timeout_us : ℕ

abbrev pub capacity : ℕ
capacity = 400

unfoldable pub new_file_selector : ℕ → ℕ → FileSelector
new_file_selector s us = record { regfd = []; timeout_s = s; timeout_us = us }

unfoldable pub reset_timeout : ℕ → ℕ → FileSelector → FileSelector
reset_timeout s us fs = record fs { timeout_s = s; timeout_us = us }

abbrev pub fd_eq : Fd → Fd → Bool
fd_eq none none = true
fd_eq none (some b) = false
fd_eq (some a) none = false
fd_eq (some a) (some b) = a == b

-- The loop that looks for a descriptor.
unfoldable pub contains : Fd → List Fd → Bool
contains fd [] = false
contains fd (x ∷ xs) = if fd_eq fd x then true else contains fd xs

unfoldable pub register : Fd → FileSelector → Option FileSelector
register fd fs =
    if contains fd fs.regfd
    then some fs
    else if ltb (length fs.regfd) capacity
    then some (record fs { regfd = fs.regfd ++ fd ∷ [] })
    else none

abbrev pub last_of : Fd → List Fd → Fd
last_of x [] = x
last_of x (y ∷ ys) = last_of y ys

abbrev pub init_of : Fd → List Fd → List Fd
init_of x [] = []
init_of x (y ∷ ys) = x ∷ init_of y ys

-- `regfd[i] = regfd[numberofreg]` behind `numberofreg--`, seen from entry `i`.
abbrev pub fill_hole : List Fd → List Fd
fill_hole [] = []
fill_hole (y ∷ ys) = last_of y ys ∷ init_of y ys

unfoldable pub remove : Fd → List Fd → List Fd
remove fd [] = []
remove fd (x ∷ xs) = if fd_eq fd x then fill_hole xs else x ∷ remove fd xs

unfoldable pub unregister : Fd → FileSelector → FileSelector
unregister fd fs = record fs { regfd = remove fd fs.regfd }

pub data Selection : Type 0 where
  expired : Selection
  select_error : Selection
  readable : (ℕ → Bool) → Selection

-- GET_READY_FD_TIMEOUT (-2), -1, a descriptor, and -777.
pub data ReadyFd : Type 0 where
  ready_timeout ready_error ready_nothing : ReadyFd
  ready : Fd → ReadyFd

abbrev pub is_set : (ℕ → Bool) → Fd → Bool
is_set set none = false
is_set set (some n) = set n

unfoldable pub first_ready : (ℕ → Bool) → List Fd → ReadyFd
first_ready set [] = ready_nothing
first_ready set (x ∷ xs) = if is_set set x then ready x else first_ready set xs

-- `tv_s` and `tv_us` are what `select` leaves in the timeval.
unfoldable pub get_read_ready_fd : Selection → ℕ → ℕ → FileSelector → FileSelector × ReadyFd
get_read_ready_fd sel tv_s tv_us fs =
    let t = record fs { timeout_s = tv_s; timeout_us = tv_us } in
    (
      t,
      elim sel [
        | expired ↦ ready_timeout
        | select_error ↦ ready_error
        | readable set ↦ first_ready set fs.regfd
      ],
    )

-- What the effects of a state machine do to the selector, in order.
unfoldable pub apply_effects : List Effect → FileSelector → Option FileSelector
apply_effects [] fs = some fs
apply_effects (register_fd fd ∷ es) fs = elim (register fd fs) [
  | none ↦ none
  | some gs ↦ apply_effects es gs
]
apply_effects (unregister_fd fd ∷ es) fs = apply_effects es (unregister fd fs)
apply_effects (send fd m ∷ es) fs = apply_effects es fs
apply_effects (close_fd fd ∷ es) fs = apply_effects es fs

-- ===== src/FileSelector/Tests.antt =====
-- The selector's theorems at concrete inputs.
use qpidrecovery.Base.{◌≡◌, refl, true, false, some, List, [], ◌∷◌, arith, ◌==◌}
use qpidrecovery.Paxos.Message.{Fd, Effect, register_fd, unregister_fd, close_fd}
use qpidrecovery.FileSelector.{
  FileSelector, contains, register, remove, unregister, readable, get_read_ready_fd, ready,
  ready_nothing, is_set, apply_effects,
}
use qpidrecovery.FileSelector.Registered.{IsValid}
use qpidrecovery.FileSelector.Effects.{
  registered_after, apply_effects-registered, get_read_ready_fd_lem,
}

abbrev listening : FileSelector
listening = record { regfd = some 3 ∷ some 4 ∷ some 5 ∷ []; timeout_s = 4; timeout_us = 0 }

abbrev swapped : FileSelector
swapped = record { regfd = some 6 ∷ some 4 ∷ some 5 ∷ []; timeout_s = 4; timeout_us = 0 }

abbrev changes : List Effect
changes =
    register_fd (some 6) ∷ register_fd (some 4) ∷ unregister_fd (some 3) ∷ close_fd (some 3) ∷ []

listening-IsValid : IsValid listening
unfolding contains
listening-IsValid = record { distinct = (refl, (refl, (refl, tt))); fitting = omega arith }

apply_effects-registered_example :
    IsValid swapped
    × ((g : Fd)
        → contains g swapped.regfd ≡ registered_after g (contains g listening.regfd) changes)
unfolding apply_effects register unregister remove contains
apply_effects-registered_example =
    apply_effects-registered changes listening swapped listening-IsValid refl

get_read_ready_fd_lem_example :
    let (gs, r) = get_read_ready_fd (readable (λ n. n == 4)) 3 0 listening in
    (r ≡ ready (some 4)
      → (contains (some 4) listening.regfd ≡ true) × (is_set (λ n. n == 4) (some 4) ≡ true))
    × (r ≡ ready_nothing
        → contains (some 4) listening.regfd ≡ true
        → is_set (λ n. n == 4) (some 4) ≡ false)
    × (gs.regfd ≡ listening.regfd)
get_read_ready_fd_lem_example = get_read_ready_fd_lem (λ n. n == 4) 3 0 listening (some 4)

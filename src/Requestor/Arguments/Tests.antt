-- ===== src/Requestor/Arguments/Tests.antt =====
-- A witness for the arguments of the requestor program.
use qpidrecovery.Base.{◌≡◌, none, some, List, [], ◌∷◌, ◌++◌, length}
use qpidrecovery.Text.{Str, codes}
use qpidrecovery.Requestor.Arguments.{Input, read_arguments, defaultargv, drop}
use qpidrecovery.Requestor.Arguments.Slots.{split_flags, read_slots}
use qpidrecovery.Requestor.Arguments.Read.{split_then}
use qpidrecovery.Requestor.Arguments.Filled.{read_arguments_lem}

-- Every number is 3, and every file has one name.
abbrev input : Input
input = record { scan_unsigned = λ a. some 3; contents = λ file. some (codes "10.0.0.9") }

abbrev given : List Str
given = codes "jobs" ∷ codes "-l" ∷ codes "10.0.0.1" ∷ codes "5673" ∷ []

read_arguments_lem_example :
    read_arguments input given
    ≡ split_then
        (split_flags none given)
        (λ ps l. read_slots input l (ps ++ drop (length ps) defaultargv))
read_arguments_lem_example = read_arguments_lem input given

-- ===== src/Str/Tests.antt =====
-- Runs of the string routines (string.c).
use osce.Prelude.{◌+◌, ◌-◌, ◌%◌, if◌then◌else◌, ℕ, List, ◌≡◌, [], ◌∷◌}
use osce.Str.Memory.{Memory, memmove}
use osce.Str.Blocks.{within, memmove_lem}

-- "init", and an array of 3 bytes
abbrev init_name : List ℕ
init_name = 105 ∷ 110 ∷ 105 ∷ 116 ∷ 0 ∷ []

abbrev buffer : List ℕ
buffer = 7 ∷ 7 ∷ 7 ∷ []

abbrev in_name : List ℕ
in_name = 105 ∷ 110 ∷ 0 ∷ []

abbrev counting : Memory
counting a = a % 256

-- The blocks from 100 and from 103 overlap.
memmove_lem_example :
    memmove 103 100 8 counting 105
    ≡ (if within 103 8 105 then counting (100 + (105 - 103)) else counting 105)
memmove_lem_example = memmove_lem 103 100 8 counting 105

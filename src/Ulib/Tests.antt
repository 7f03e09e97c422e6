-- ===== src/Ulib/Tests.antt =====
-- Runs of `printint` and `atoi`: the `int` -12.
use osce.Prelude.{ℕ, ◌-◌, ◌^◌, ◌≤◌, ◌≡◌, true, List, ◌∷◌, length, leb, if◌then◌else◌, done, arith}
use osce.Ulib.{atoi, printint}
use osce.Ulib.Numbers.{printint-atoi}

printint-atoi_example :
    (out : List ℕ) × (length out ≤ 10)
    × (printint 4294967284 10 true ≡ done (if leb (2 ^ 31) 4294967284 then 45 ∷ out else out))
    × (atoi out ≡ (if leb (2 ^ 31) 4294967284 then 2 ^ 32 - 4294967284 else 4294967284))
printint-atoi_example = printint-atoi 4294967284 (omega arith)

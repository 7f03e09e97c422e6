-- ===== src/Console/Tests.antt =====
-- Runs of console.c: the line "ab" and then a newline, at indices that wrap.
use osce.Prelude.{◌-◌, ◌^◌, ◌≡◌, true, ◌==◌, if◌then◌else◌, arith}
use osce.Console.{Input, consoleintr_byte}
use osce.Console.Editing.{IsRing, IsTyped, consoleintr_byte-Keyed}

abbrev typed : Input
typed = record {
  buf = λ i. if i == 126 then 97 else if i == 127 then 98 else 0;
  r = 2 ^ 32 - 2;
  w = 2 ^ 32 - 2;
  e = 0;
}

typed-IsRing : IsRing typed
typed-IsRing = record {
  reads = omega arith;
  writes = omega arith;
  edits = omega arith;
  order = omega arith;
  fits = omega arith;
  line = λ i lo hi. ground arith;
}

consoleintr_byte-Keyed_example :
    ((consoleintr_byte 13 typed).0 ≡ true)
    × IsTyped 10 typed (consoleintr_byte 13 typed).1 (consoleintr_byte 13 typed).0
consoleintr_byte-Keyed_example = consoleintr_byte-Keyed 13 typed typed-IsRing

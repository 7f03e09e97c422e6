-- ===== src/Console.antt =====
-- console.c: the input ring, which `consoleintr` fills and edits and `consoleread` empties. The lock
-- is held in each of them. What goes to the screen is left out.
pub mod Editing
mod Tests
use osce.Prelude.{
  ℕ, zero, suc, ◌+◌, ◌-◌, ◌%◌, ◌^◌, Bool, true, false, not, ◌&&◌, ◌||◌, List, [], ◌∷◌, ltb, ◌==◌,
  if◌then◌else◌,
}

abbrev pub input_buf : ℕ
input_buf = 128

-- `input`. The indices are `uint` and wrap.
pub record Input : Type 0 where
  pub buf : ℕ → ℕ
  pub r : ℕ
  pub w : ℕ
  pub e : ℕ

-- `C('D')`, `C('H')`, `C('P')` and `C('U')`
abbrev pub ctrl_d : ℕ
ctrl_d = 4

abbrev pub ctrl_h : ℕ
ctrl_h = 8

abbrev pub ctrl_p : ℕ
ctrl_p = 16

abbrev pub ctrl_u : ℕ
ctrl_u = 21

-- `i--` and `i++`
abbrev pub dec : ℕ → ℕ
dec i = (i + 2 ^ 32 - 1) % 2 ^ 32

abbrev pub inc : ℕ → ℕ
inc i = (i + 1) % 2 ^ 32

-- The loop that kills the line, at most `n` rounds of it.
unfoldable pub kill_from : ℕ → Input → Input
kill_from zero s = s
kill_from (suc n) s =
    let rest = kill_from n (record s { e = dec s.e }) in
    if not (s.e == s.w) && not (s.buf (dec s.e % input_buf) == 10) then rest else s

-- `input.e` gets to `input.w` in as many rounds as there are bytes between them.
unfoldable pub kill_line : Input → Input
unfolding kill_from
kill_line s = kill_from ((s.e + 2 ^ 32 - s.w) % 2 ^ 32) s

abbrev pub backspace : Input → Input
backspace s = if s.e == s.w then s else record s { e = dec s.e }

-- `input.buf[input.e++ % INPUT_BUF] = c`
abbrev pub put_char : ℕ → Input → Input
put_char c s = record s { buf = λ i. if i == s.e % input_buf then c else s.buf i; e = inc s.e }

abbrev pub has_room : Input → Bool
has_room s = ltb ((s.e + 2 ^ 32 - s.r) % 2 ^ 32) input_buf

-- Whether the line that ends with `c` is passed on.
abbrev pub is_end : ℕ → Input → Bool
is_end c s = c == 10 || c == ctrl_d || s.e == (s.r + input_buf) % 2 ^ 32

-- The `default` of `consoleintr`: whether the readers are woken, and the ring.
unfoldable pub type_byte : ℕ → Input → Bool × Input
type_byte c s =
    let c' = if c == 13 then 10 else c in
    let s1 = put_char c' s in
    if not (c == 0) && has_room s
    then (if is_end c' s1 then (true, record s1 { w = s1.e }) else (false, s1))
    else (false, s)

-- One byte in the loop of `consoleintr`.
unfoldable pub consoleintr_byte : ℕ → Input → Bool × Input
unfolding kill_line type_byte
consoleintr_byte c s =
    if c == ctrl_p
    then (false, s)
    else if c == ctrl_u
    then (false, kill_line s)
    else if c == ctrl_h || c == 127
    then (false, backspace s)
    else type_byte c s

-- What a round of `consoleread` comes to: what it returns, or it sleeps with this many bytes to read.
pub data ConsoleReply : Type 0 where
  got : List ℕ → ConsoleReply
  killed : ConsoleReply
  asleep : ℕ → List ℕ → ConsoleReply

-- `*dst++ = c`, in front of what the rest of the loop reads.
abbrev pub add_byte : ℕ → ConsoleReply → ConsoleReply
add_byte c (got bytes) = got (c ∷ bytes)
add_byte c killed = killed
add_byte c (asleep n bytes) = asleep n (c ∷ bytes)

-- The loop of `consoleread` for `n` more bytes; `some_` says that it has stored some.
unfoldable pub consoleread : Bool → ℕ → Bool → Input → ConsoleReply × Input
consoleread is_killed zero some_ s = (got [], s)
consoleread is_killed (suc n) some_ s =
    let c = s.buf (s.r % input_buf) in
    let s1 = record s { r = inc s.r } in
    let rest = consoleread is_killed n true s1 in
    if s.r == s.w
    then ((if is_killed then killed else asleep (suc n) []), s)
    else if c == ctrl_d
    then (got [], if some_ then s else s1)
    else if c == 10
    then (got (c ∷ []), s1)
    else (add_byte c rest.0, rest.1)

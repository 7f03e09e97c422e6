-- ===== src/Str/Memory.antt =====
-- string.c, the routines on blocks of memory, and the string instructions of x86.h that `memset`
-- uses. A block does not run over the end of the address space.
use osce.Prelude.{ℕ, zero, suc, ◌+◌, ◌*◌, ◌/◌, ◌%◌, ◌&&◌, ◌==◌, ltb, if◌then◌else◌}

-- The byte at each address.
abbrev pub Memory : Type 0
Memory = ℕ → ℕ

abbrev pub poke : ℕ → ℕ → Memory → Memory
poke a x mem j = if a == j then x else mem j

-- `rep stosb`: `n` bytes from `a` on.
unfoldable pub stosb : ℕ → ℕ → ℕ → Memory → Memory
stosb zero a x mem = mem
stosb (suc n) a x mem = stosb n (a + 1) x (poke a (x % 256) mem)

-- The four bytes of a word, the lowest first.
abbrev pub put_word : ℕ → ℕ → Memory → Memory
put_word a w mem =
    poke (a + 3) (w / 16777216 % 256)
      (poke (a + 2) (w / 65536 % 256) (poke (a + 1) (w / 256 % 256) (poke a (w % 256) mem)))

-- `rep stosl`: `n` words.
unfoldable pub stosl : ℕ → ℕ → ℕ → Memory → Memory
stosl zero a w mem = mem
stosl (suc n) a w mem = stosl n (a + 4) w (put_word a w mem)

-- `(c<<24)|(c<<16)|(c<<8)|c` of a byte
abbrev pub four_times : ℕ → ℕ
four_times c = c * 16777216 + c * 65536 + c * 256 + c

unfoldable pub memset : ℕ → ℕ → ℕ → Memory → Memory
unfolding stosb stosl
memset dst c n mem =
    if dst % 4 == 0 && n % 4 == 0
    then stosl (n / 4) dst (four_times (c % 256)) mem
    else stosb n dst c mem

-- The loop of `memmove` from the end down; `n` bytes are left.
unfoldable pub move_down : ℕ → ℕ → ℕ → Memory → Memory
move_down zero d s mem = mem
move_down (suc n) d s mem = move_down n d s (poke (d + n) (mem (s + n)) mem)

-- The loop of `memmove` from the start up.
unfoldable pub move_up : ℕ → ℕ → ℕ → Memory → Memory
move_up zero d s mem = mem
move_up (suc n) d s mem = move_up n (d + 1) (s + 1) (poke d (mem s) mem)

unfoldable pub memmove : ℕ → ℕ → ℕ → Memory → Memory
unfolding move_down move_up
memmove dst src n mem =
    if ltb src dst && ltb dst (src + n) then move_down n dst src mem else move_up n dst src mem

-- `memcmp`: the bytes whose difference it returns.
unfoldable pub memcmp : ℕ → ℕ → ℕ → Memory → ℕ × ℕ
memcmp v1 v2 zero mem = (0, 0)
memcmp v1 v2 (suc n) mem =
    let rest = memcmp (v1 + 1) (v2 + 1) n mem in if mem v1 == mem v2 then rest else (mem v1, mem v2)

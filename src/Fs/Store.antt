-- ===== src/Fs/Store.antt =====
-- fs.c, the blocks: superblock, `bzero`, `balloc` and `bfree`. Between `bread` and `brelse` a buffer
-- belongs to its caller, so each routine works on the blocks themselves.
use osce.Prelude.{
  ℕ, zero, suc, ◌+◌, ◌*◌, ◌/◌, ◌%◌, Bool, not, Option, none, some, ◌==◌, ltb, if◌then◌else◌,
  Outcome, done, panic, out_of_fuel, ◌>>=◌,
}
use osce.Log.{Log, log_write}

-- The bytes of a block.
abbrev pub Bytes : Type 0
Bytes = ℕ → ℕ

-- The data of the buffer that `bread` returns for each sector, and the log.
pub record Store : Type 0 where
  pub buf : ℕ → Bytes
  pub log : Log

abbrev pub bsize : ℕ
bsize = 512

-- Bitmap bits per block, and inodes per block.
abbrev pub bpb : ℕ
bpb = bsize * 8

abbrev pub ipb : ℕ
ipb = 8

-- The `uint` and the `ushort` at byte `a` of a block.
abbrev pub word_at : Bytes → ℕ → ℕ
word_at b a = b a + 256 * b (a + 1) + 65536 * b (a + 2) + 16777216 * b (a + 3)

abbrev pub half_at : Bytes → ℕ → ℕ
half_at b a = b a + 256 * b (a + 1)

-- `struct superblock`
pub record SuperBlock : Type 0 where
  pub size : ℕ
  pub nblocks : ℕ
  pub ninodes : ℕ
  pub nlog : ℕ

abbrev pub readsb : Store → SuperBlock
readsb st = record {
  size = word_at (st.buf 1) 0;
  nblocks = word_at (st.buf 1) 4;
  ninodes = word_at (st.buf 1) 8;
  nlog = word_at (st.buf 1) 12;
}

-- The change of one buffer, recorded in the log: `log_write(bp)` after writes to `bp->data`.
unfoldable pub write_logged : ℕ → Bytes → Store → Outcome Store
write_logged s b st = do
  l ← log_write s st.log
  done (record { buf = λ j. if s == j then b else st.buf j; log = l })

unfoldable pub bzero : ℕ → Store → Outcome Store
unfolding write_logged
bzero bno st = write_logged bno (λ _. 0) st

-- Bit `k` of a byte, counting from the lowest, and the byte with that bit set or cleared.
unfoldable pub test_bit : ℕ → ℕ → Bool
test_bit b zero = b % 2 == 1
test_bit b (suc k) = test_bit (b / 2) k

unfoldable pub set_bit : ℕ → ℕ → ℕ
set_bit b zero = b / 2 * 2 + 1
set_bit b (suc k) = set_bit (b / 2) k * 2 + b % 2

unfoldable pub clear_bit : ℕ → ℕ → ℕ
clear_bit b zero = b / 2 * 2
clear_bit b (suc k) = clear_bit (b / 2) k * 2 + b % 2

-- `(data[bi/8] & m) != 0`, `data[bi/8] |= m` and `data[bi/8] &= ~m` for `m = 1 << (bi % 8)`
abbrev pub bit_at : Bytes → ℕ → Bool
bit_at b bi = test_bit (b (bi / 8)) (bi % 8)

abbrev pub with_bit : Bytes → ℕ → Bytes
with_bit b bi j = if bi / 8 == j then set_bit (b j) (bi % 8) else b j

abbrev pub without_bit : Bytes → ℕ → Bytes
without_bit b bi j = if bi / 8 == j then clear_bit (b j) (bi % 8) else b j

-- `BBLOCK(b, sb.ninodes)`
abbrev pub bblock : SuperBlock → ℕ → ℕ
bblock sb b = b / bpb + sb.ninodes / ipb + 3

-- The inner loop of `balloc` from `bi`, `rounds` bits before BPB.
unfoldable pub find_clear : Bytes → ℕ → ℕ → ℕ → ℕ → Option ℕ
find_clear block size b zero bi = none
find_clear block size b (suc rounds) bi =
    let rest = find_clear block size b rounds (bi + 1) in
    if ltb (b + bi) size then (if bit_at block bi then rest else some bi) else none

-- `balloc` after its inner loop, at `b`; `rest` is what the outer loop comes to otherwise.
unfoldable pub mark_block : ℕ → Store → Option ℕ → Outcome (ℕ × Store) → Outcome (ℕ × Store)
unfolding bzero write_logged
mark_block b st none rest = rest
mark_block b st (some bi) rest = do
  let s = bblock (readsb st) b
  st1 ← write_logged s (with_bit (st.buf s) bi) st
  st2 ← bzero (b + bi) st1
  done (b + bi, st2)

-- The outer loop of `balloc` from `b`; `size` fits an `int`.
unfoldable pub balloc_from : ℕ → ℕ → Store → Outcome (ℕ × Store)
unfolding find_clear mark_block
balloc_from zero b st = out_of_fuel
balloc_from (suc fuel) b st =
    let sb = readsb st in
    let rest = balloc_from fuel (b + bpb) st in
    let found = mark_block b st (find_clear (st.buf (bblock sb b)) sb.size b bpb 0) rest in
    if ltb b sb.size then found else panic

-- Each round moves `b` by BPB.
unfoldable pub balloc : Store → Outcome (ℕ × Store)
unfolding balloc_from
balloc st = balloc_from ((readsb st).size / bpb + 2) 0 st

unfoldable pub bfree : ℕ → Store → Outcome Store
unfolding write_logged
bfree b st =
    let sb = readsb st in
    let block = st.buf (bblock sb b) in
    if not (bit_at block (b % bpb))
    then panic
    else write_logged (bblock sb b) (without_bit block (b % bpb)) st

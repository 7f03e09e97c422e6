-- ===== src/Log.antt =====
-- log.c: the write-ahead log, over a disk that may lose power before any of its writes.
pub mod Phases
pub mod Crash
pub mod Recover
pub mod Ops
mod Tests
use osce.Prelude.{
  ℕ, zero, suc, ◌+◌, ◌-◌, ◌*◌, ◌%◌, ◌^◌, Bool, true, false, ◌||◌, ◌==◌, ltb, leb, if◌then◌else◌,
  Outcome, done, panic, ◌>>=◌,
}
use osce.Proc.Table.{PTable, Chan, object, wakeup}

-- A block, as its words: `b i` is the `uint` at byte 4 * i.
abbrev pub Block : Type 0
Block = ℕ → ℕ

abbrev pub update {ℓ} : {A : Type ℓ} → (ℕ → A) → ℕ → A → ℕ → A
update f i a j = if i == j then a else f j

-- What log.c sees of bio.c and the driver: `cache s` is the data of the buffer that `bread`
-- returns for sector `s`, `image` the disk. `power` counts the writes that still reach the disk
-- before the machine stops.
pub record Io : Type 0 where
  pub image : ℕ → Block
  pub cache : ℕ → Block
  pub power : ℕ

-- A change of a buffer's data.
abbrev pub put : ℕ → Block → Io → Io
put s b io = record io { cache = update io.cache s b }

unfoldable pub bwrite : ℕ → Io → Io
bwrite s io = record io {
  image = if io.power == 0 then io.image else update io.image s (io.cache s);
  power = io.power - 1;
}

abbrev pub maxopblocks : ℕ
maxopblocks = 10

abbrev pub logsize : ℕ
logsize = maxopblocks * 3

-- `struct log`, with `lh` in its two fields. `outstanding` is the bit pattern of an `int`; `n` is
-- never negative, since it comes from 0 or from a header that `write_head` wrote.
pub record Log : Type 0 where
  pub start : ℕ
  pub size : ℕ
  pub outstanding : ℕ
  pub committing : Bool
  pub n : ℕ
  pub sector : ℕ → ℕ

-- The loop of `install_trans`, `rounds` rounds from `tail` on.
unfoldable pub install_from : ℕ → ℕ → Log → Io → Io
install_from zero tail l io = io
install_from (suc rounds) tail l io =
    install_from rounds (tail + 1) l
      (bwrite (l.sector tail) (put (l.sector tail) (io.cache (l.start + tail + 1)) io))

unfoldable pub install_trans : Log → Io → Io
unfolding install_from
install_trans l io = install_from l.n 0 l io

-- `for (i = 0; i < n; i++) to[i] = from[i];`, from `i` on
unfoldable pub copy_words : ℕ → ℕ → (ℕ → ℕ) → (ℕ → ℕ) → ℕ → ℕ
copy_words zero i from to = to
copy_words (suc rounds) i from to = copy_words rounds (i + 1) from (update to i (from i))

-- The header block holds `n` in word 0 and `sector[i]` in word `i + 1`.
abbrev pub sectors_of : Block → ℕ → ℕ
sectors_of b i = b (i + 1)

unfoldable pub read_head : Log → Io → Log
unfolding copy_words
read_head l io =
    let lh = io.cache l.start in
    record l { n = lh 0; sector = copy_words (lh 0) 0 (sectors_of lh) l.sector }

abbrev pub with_header : ℕ → (ℕ → ℕ) → Block
with_header n sectors w = if w == 0 then n else sectors (w - 1)

unfoldable pub write_head : Log → Io → Io
unfolding copy_words
write_head l io =
    let hb = io.cache l.start in
    bwrite l.start (put l.start (with_header l.n (copy_words l.n 0 l.sector (sectors_of hb))) io)

unfoldable pub recover_from_log : Log → Io → Log × Io
unfolding read_head install_trans write_head
recover_from_log l io =
    let l1 = read_head l io in
    let io1 = install_trans l1 io in let l2 = record l1 { n = 0 } in (l2, write_head l2 io1)

-- The loop of `write_log`.
unfoldable pub write_from : ℕ → ℕ → Log → Io → Io
write_from zero tail l io = io
write_from (suc rounds) tail l io =
    write_from rounds (tail + 1) l
      (bwrite (l.start + tail + 1) (put (l.start + tail + 1) (io.cache (l.sector tail)) io))

unfoldable pub write_log : Log → Io → Io
unfolding write_from
write_log l io = write_from l.n 0 l io

unfoldable pub commit : Log → Io → Log × Io
unfolding write_log write_head install_trans
commit l io =
    if ltb 0 l.n
    then (let io1 = write_log l io in
        let io2 = write_head l io1 in
        let io3 = install_trans l io2 in let l' = record l { n = 0 } in (l', write_head l' io3))
    else (l, io)

-- One round of the loop of `begin_op`: `false` if it sleeps on the log, to try again.
unfoldable pub begin_op : Log → Bool × Log
begin_op l =
    if l.committing
    then (false, l)
    else if ltb logsize (l.n + (l.outstanding + 1) % 2 ^ 32 * maxopblocks)
    then (false, l)
    else (true, record l { outstanding = (l.outstanding + 1) % 2 ^ 32 })

-- The address of `log`, on which `begin_op` sleeps.
abbrev pub log_chan : Chan
log_chan = object 1

-- `end_op`. Nobody else enters while `committing` is set, so the commit is one step.
unfoldable pub end_op : Log → Io → PTable → Outcome (Log × Io × PTable)
unfolding commit
end_op l io t =
    let out = (l.outstanding + 2 ^ 32 - 1) % 2 ^ 32 in
    if l.committing
    then panic
    else if out == 0
    then (let (l', io') = commit (record l { outstanding = out; committing = true }) io in
        done (record l' { committing = false }, io', wakeup log_chan t))
    else done (record l { outstanding = out }, io, wakeup log_chan t)

-- The loop of `log_write` from `i` on: the index of the sector in the log, or `n`.
unfoldable pub find_sector : ℕ → ℕ → ℕ → (ℕ → ℕ) → ℕ
find_sector zero i b sector = i
find_sector (suc rounds) i b sector =
    let rest = find_sector rounds (i + 1) b sector in if sector i == b then i else rest

-- `log_write` of the buffer for sector `b`. It pins the buffer (B_DIRTY), so the cache keeps it.
unfoldable pub log_write : ℕ → Log → Outcome Log
unfolding find_sector
log_write b l =
    let i = find_sector l.n 0 b l.sector in
    if leb logsize l.n || leb (l.size - 1) l.n
    then panic
    else if ltb l.outstanding 1 || leb (2 ^ 31) l.outstanding
    then panic
    else done (record l { sector = update l.sector i b; n = if i == l.n then l.n + 1 else l.n })

-- `initlog` at boot: the superblock gives the place of the log; `outstanding` and `committing` are 0.
unfoldable pub initlog : (size nlog : ℕ) → Io → Log × Io
unfolding recover_from_log
initlog size nlog io =
    recover_from_log
      (record {
        start = size - nlog;
        size = nlog;
        outstanding = 0;
        committing = false;
        n = 0;
        sector = λ _. 0;
      })
      io

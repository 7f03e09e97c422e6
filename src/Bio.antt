-- ===== src/Bio.antt =====
-- bio.c: the buffer cache, a ring of buffers through `prev` and `next`. A buffer is its index in
-- `bcache.buf`, and `head` has the index behind the last. The disk driver, `iderw`, is an argument.
pub mod Ring
pub mod Lookup
mod Tests
use osce.Prelude.{
  ℕ, zero, suc, ◌+◌, ◌-◌, ◌^◌, Bool, true, false, not, ◌&&◌, Option, none, some, ◌==◌,
  if◌then◌else◌, Outcome, done, panic, out_of_fuel, ◌>>=◌,
}
use osce.Proc.Table.{PTable, Chan, object, wakeup}
use osce.Proc.Life.{sleep_start}

-- `struct buf` without its links.
pub record Buf : Type 0 where
  pub dev : ℕ
  pub sector : ℕ
  pub busy : Bool
  pub valid : Bool
  pub dirty : Bool
  pub bytes : ℕ → ℕ

-- The fields `prev` and `next` of all buffers and of `head`.
pub record Links : Type 0 where
  pub next : ℕ → ℕ
  pub prev : ℕ → ℕ

-- `bcache`, and the process table.
pub record Bcache : Type 0 where
  pub bufs : ℕ → Buf
  pub links : Links
  pub procs : PTable

abbrev pub nbuf : ℕ
nbuf = 30

abbrev pub ring_head : ℕ
ring_head = nbuf

-- `a->next = b` and `a->prev = b`
abbrev pub set_next : ℕ → ℕ → Links → Links
set_next a b l = record l { next = λ j. if a == j then b else l.next j }

abbrev pub set_prev : ℕ → ℕ → Links → Links
set_prev a b l = record l { prev = λ j. if a == j then b else l.prev j }

-- The links of `b` behind `head`: the last four assignments of `brelse`, and those of `binit`.
unfoldable pub push_front : ℕ → Links → Links
push_front b l =
    let l1 = set_next b (l.next ring_head) l in
    let l2 = set_prev b ring_head l1 in
    let l3 = set_prev (l2.next ring_head) b l2 in set_next ring_head b l3

-- The first two assignments of `brelse`.
unfoldable pub unlink : ℕ → Links → Links
unlink b l = let l1 = set_prev (l.next b) (l.prev b) l in set_next (l1.prev b) (l1.next b) l1

-- A loop from `b` along `next` or `prev` up to `head`: the first buffer that passes the test.
unfoldable pub find_buf : (ℕ → ℕ) → (ℕ → Bool) → ℕ → ℕ → Outcome (Option ℕ)
find_buf step test zero b = out_of_fuel
find_buf step test (suc fuel) b =
    let rest = find_buf step test fuel (step b) in
    if b == ring_head then done none else if test b then done (some b) else rest

abbrev pub is_block : ℕ → ℕ → Buf → Bool
is_block dev sector b = b.dev == dev && b.sector == sector

abbrev pub is_clean : Buf → Bool
is_clean b = not b.busy && not b.dirty

abbrev pub assign_buf : ℕ → Buf → Bcache → Bcache
assign_buf b x bc = record bc { bufs = λ j. if b == j then x else bc.bufs j }

-- The loop of `binit` from `b`. `-1` for `dev` is a `uint`.
unfoldable pub link_all : ℕ → ℕ → Bcache → Bcache
unfolding push_front
link_all zero b bc = bc
link_all (suc rounds) b bc =
    link_all rounds (b + 1) (record (assign_buf b (record (bc.bufs b) { dev = 2 ^ 32 - 1 }) bc) {
      links = push_front b bc.links;
    })

unfoldable pub binit : Bcache → Bcache
unfolding link_all
binit bc =
    link_all nbuf 0
      (record bc { links = set_next ring_head ring_head (set_prev ring_head ring_head bc.links) })

-- The address of a buffer, and of the lock, apart from those of other objects that are slept on.
abbrev pub buf_chan : ℕ → Chan
buf_chan b = object (100 + b)

abbrev pub bcache_lock : ℕ
bcache_lock = 3

-- The buffer, or a sleep until it is free; then `bget` starts again.
pub data Got : Type 0 where
  got : ℕ → Got
  busy_ : ℕ → Got

-- The second loop of `bget`: it ends in a buffer or a panic.
unfoldable pub recycle_buf : ℕ → ℕ → Bcache → Option ℕ → Outcome (Got × Bcache)
recycle_buf dev sector bc none = panic
recycle_buf dev sector bc (some b) = done (
  got b,
  assign_buf b
      (record (bc.bufs b) { dev = dev; sector = sector; busy = true; valid = false; dirty = false })
      bc,
)

-- `bget` behind its first loop.
unfoldable pub bget_found : ℕ → ℕ → ℕ → Bcache → Option ℕ → Outcome (Got × Bcache)
unfolding find_buf recycle_buf
bget_found me dev sector bc none = do
  free_ ← find_buf bc.links.prev (λ b. is_clean (bc.bufs b)) (nbuf + 1) (bc.links.prev ring_head)
  recycle_buf dev sector bc free_
bget_found me dev sector bc (some b) =
    let wait = (do
      t ← sleep_start (some me) (buf_chan b) bcache_lock bc.procs
      done (busy_ b, record bc { procs = t })) in
    if (bc.bufs b).busy
    then wait
    else done (got b, assign_buf b (record (bc.bufs b) { busy = true }) bc)

-- A round of `bget`, for process `me`.
unfoldable pub bget : ℕ → ℕ → ℕ → Bcache → Outcome (Got × Bcache)
unfolding find_buf bget_found
bget me dev sector bc = do
  found ←
      find_buf bc.links.next (λ b. is_block dev sector (bc.bufs b)) (nbuf + 1)
        (bc.links.next ring_head)
  bget_found me dev sector bc found

module _ (iderw : Buf → Outcome Buf) where
  unfoldable pub bread_got : Got → Bcache → Outcome (Got × Bcache)
  bread_got (busy_ b) bc = done (busy_ b, bc)
  bread_got (got b) bc =
      let read = (do x ← iderw (bc.bufs b); done (got b, assign_buf b x bc)) in
      if (bc.bufs b).valid then done (got b, bc) else read

  -- A round of `bread`, up to the sleep of `bget`.
  unfoldable pub bread : ℕ → ℕ → ℕ → Bcache → Outcome (Got × Bcache)
  unfolding bget bread_got
  bread me dev sector bc = do (r, bc') ← bget me dev sector bc; bread_got r bc'

  unfoldable pub write_buf : ℕ → Bcache → Outcome Bcache
  write_buf b bc =
      let write = (do x ← iderw (record (bc.bufs b) { dirty = true }); done (assign_buf b x bc)) in
      if not (bc.bufs b).busy then panic else write

unfoldable pub brelse : ℕ → Bcache → Outcome Bcache
unfolding unlink push_front
brelse b bc =
    let x = record (bc.bufs b) { busy = false } in
    if not (bc.bufs b).busy
    then panic
    else done (record (assign_buf b x bc) {
      links = push_front b (unlink b bc.links);
      procs = wakeup (buf_chan b) bc.procs;
    })

-- ===== src/Pipe.antt =====
-- pipe.c: a pipe of 512 bytes between processes. Each call runs under `p->lock` up to its return
-- or to the `sleep` that releases the lock; a sleeper goes on with what is left of its call.
pub mod Queue
pub mod Wake
mod Tests
use osce.Prelude.{
  ℕ, zero, suc, ◌+◌, ◌-◌, ◌%◌, ◌^◌, Bool, true, false, not, ◌&&◌, ◌||◌, Option, none, some, List,
  [], ◌∷◌, ◌==◌, if◌then◌else◌, get_or, set, Outcome, done, panic, ◌>>=◌,
}
use osce.Kalloc.{Kmem, kfree}
use osce.Proc.Table.{PTable, Chan, object, proc_at, wakeup}
use osce.Proc.Life.{sleep_start}

abbrev pub pipesize : ℕ
pipesize = 512

-- `struct pipe`, at the page `addr`. The counters are `uint` and wrap.
pub record Pipe : Type 0 where
  pub addr : ℕ
  pub buf : List ℕ
  pub nread : ℕ
  pub nwrite : ℕ
  pub readopen : Bool
  pub writeopen : Bool

-- The addresses of the two counters, and of the lock.
abbrev pub chan_nread : Pipe → Chan
chan_nread p = object (p.addr + 564)

abbrev pub chan_nwrite : Pipe → Chan
chan_nwrite p = object (p.addr + 568)

abbrev pub next_uint : ℕ → ℕ
next_uint n = (n + 1) % 2 ^ 32

pub data WriteReply : Type 0 where
  wrote : WriteReply
  refused : WriteReply
  waiting : (rest : List ℕ) → WriteReply

abbrev pub is_full : Pipe → Bool
is_full p = p.nwrite == (p.nread + pipesize) % 2 ^ 32

-- `p->data[p->nwrite++ % PIPESIZE] = x`
abbrev pub put_byte : ℕ → Pipe → Pipe
put_byte x p = record p { buf = set p.buf (p.nwrite % pipesize) x; nwrite = next_uint p.nwrite }

-- The loop of `pipewrite` over the bytes that are left; `wrote` stands for the result `n`.
unfoldable pub pipewrite : ℕ → List ℕ → Pipe → PTable → Outcome (WriteReply × Pipe × PTable)
pipewrite me [] p t = done (wrote, p, wakeup (chan_nread p) t)
pipewrite me (x ∷ xs) p t =
    let next = pipewrite me xs (put_byte x p) t in
    if is_full p
    then (if not p.readopen || (proc_at t me).killed then done (refused, p, t) else do
      t' ← sleep_start (some me) (chan_nwrite p) p.addr (wakeup (chan_nread p) t)
      done (waiting (x ∷ xs), p, t'))
    else next

pub data ReadReply : Type 0 where
  got : (bytes : List ℕ) → ReadReply
  killed : ReadReply
  sleeping : ReadReply

abbrev pub is_empty : Pipe → Bool
is_empty p = p.nread == p.nwrite

-- `p->data[p->nread++ % PIPESIZE]`
abbrev pub drop_byte : Pipe → Pipe
drop_byte p = record p { nread = next_uint p.nread }

-- The copying loop of `piperead`, `n` rounds.
unfoldable pub read_loop : ℕ → Pipe → List ℕ × Pipe
read_loop zero p = ([], p)
read_loop (suc n) p =
    let rest = read_loop n (drop_byte p) in
    if is_empty p then ([], p) else (get_or p.buf (p.nread % pipesize) 0 ∷ rest.0, rest.1)

-- `piperead`; after `sleeping` it starts again.
unfoldable pub piperead : ℕ → ℕ → Pipe → PTable → Outcome (ReadReply × Pipe × PTable)
unfolding read_loop
piperead me n p t =
    if is_empty p && p.writeopen
    then (if (proc_at t me).killed
        then done (killed, p, t)
        else do t' ← sleep_start (some me) (chan_nread p) p.addr t; done (sleeping, p, t'))
    else (let (bytes, p') = read_loop n p in done (got bytes, p', wakeup (chan_nwrite p') t))

-- `pipeclose`: the pipe that is left, or `none` when its page is given back.
unfoldable pub pipeclose :
    (kernel_end : ℕ) → Bool → Pipe → PTable → Kmem → Outcome (Option Pipe × PTable × Kmem)
pipeclose kernel_end writable p t k =
    let p' = if writable then record p { writeopen = false } else record p { readopen = false } in
    let t' = wakeup (if writable then chan_nread p else chan_nwrite p) t in
    if not p'.readopen && not p'.writeopen
    then (do k' ← kfree kernel_end p'.addr k; done (none, t', k'))
    else done (some p', t', k)

-- ===== src/Syscall.antt =====
-- syscall.c and sysproc.c: the arguments of a system call, read from the user's memory.
pub mod Bounds
mod Tests
use osce.Prelude.{
  ℕ, zero, suc, ◌+◌, ◌-◌, ◌*◌, ◌%◌, ◌^◌, Bool, true, false, ◌||◌, ◌==◌, ltb, leb, if◌then◌else◌,
  Option, none, some, Outcome, done, panic, ◌>>=◌,
}
use osce.Kalloc.{Kmem}
use osce.Proc.Table.{Proc, PTable, proc_at, kill, ProcStat, pstat}
use osce.Proc.Life.{WaitReply, wait}

-- The memory of a process as the kernel sees it: the byte at each address.
abbrev pub Memory : Type 0
Memory = ℕ → ℕ

-- `*(int*)addr`, as a bit pattern
abbrev pub int_at : Memory → ℕ → ℕ
int_at mem a = mem a + 256 * mem (a + 1) + 65536 * mem (a + 2) + 16777216 * mem (a + 3)

-- `fetchint` in a process of size `sz`; `none` for -1
unfoldable pub fetchint : Memory → ℕ → ℕ → Option ℕ
fetchint mem sz addr =
    if leb sz addr || ltb sz ((addr + 4) % 2 ^ 32) then none else some (int_at mem addr)

-- The loop of `fetchstr` from `s`, `rounds` bytes before `ep`; `i` is `s - *pp`.
unfoldable pub find_nul : Memory → ℕ → ℕ → ℕ → Option ℕ
find_nul mem zero s i = none
find_nul mem (suc rounds) s i =
    let rest = find_nul mem rounds (s + 1) (i + 1) in if mem s == 0 then some i else rest

-- The length of the string at `addr`, which is also the pointer.
unfoldable pub fetchstr : Memory → ℕ → ℕ → Option ℕ
unfolding find_nul
fetchstr mem sz addr = if leb sz addr then none else find_nul mem (sz - addr) addr 0

unfoldable pub argint : Memory → Proc → ℕ → Option ℕ
unfolding fetchint
argint mem p n = fetchint mem p.sz ((p.tf.esp + 4 + 4 * n) % 2 ^ 32)

-- The bounds of `argptr`; `size` is the bit pattern of an `int`.
abbrev pub in_bounds : ℕ → ℕ → ℕ → Option ℕ
in_bounds sz size i = if leb sz i || ltb sz ((i + size) % 2 ^ 32) then none else some i

unfoldable pub argptr : Memory → Proc → ℕ → ℕ → Option ℕ
unfolding argint
argptr mem p n size = elim (argint mem p n) [ none ↦ none | some i ↦ in_bounds p.sz size i ]

-- The pointer and the length.
unfoldable pub argstr : Memory → Proc → ℕ → Option (ℕ × ℕ)
unfolding argint fetchstr
argstr mem p n = elim (argint mem p n) [
  | none ↦ none
  | some addr ↦ elim (fetchstr mem p.sz addr) [ none ↦ none | some len ↦ some (addr, len) ]
]

-- `true` for 0, `false` for -1
unfoldable pub sys_kill : Memory → ℕ → PTable → Bool × PTable
unfolding argint kill
sys_kill mem me t = elim (argint mem (proc_at t me) 0) [ none ↦ (false, t) | some pid ↦ kill pid t ]

-- `sizeof(stat)` is that of the pointer `stat`, and `sizeof(struct procstat)` what `pstat` stores.
abbrev pub sizeof_pointer : ℕ
sizeof_pointer = 4

abbrev pub sizeof_procstat : ℕ
sizeof_procstat = 28

-- The address at which the answer is stored, with the answer.
unfoldable pub sys_pstat : Memory → ℕ → PTable → Option (ℕ × ProcStat)
unfolding argint argptr pstat
sys_pstat mem me t = elim (argint mem (proc_at t me) 0) [
  | none ↦ none
  | some pid ↦ elim (argptr mem (proc_at t me) 1 sizeof_pointer) [
    | none ↦ none
    | some stat ↦ elim (pstat pid t) [ none ↦ none | some st ↦ some (stat, st) ]
  ]
]

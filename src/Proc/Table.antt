-- ===== src/Proc/Table.antt =====
-- proc.c, procstat.h and proc.h: `struct proc`, `ptable`, and the loops over the table.
use osce.Prelude.{
  ℕ, ◌+◌, ◌%◌, ◌^◌, Bool, true, false, Option, none, some, List, [], ◌∷◌, map, ◌&&◌, ◌==◌,
  if◌then◌else◌, get_or, modify, find_first, take,
}
use osce.Kalloc.{Kmem, kalloc}

-- `enum procstate`
pub data ProcState : Type 0 where
  unused embryo sleeping runnable running zombie : ProcState

abbrev pub is_unused : ProcState → Bool
is_unused unused = true
is_unused _ = false

abbrev pub is_sleeping : ProcState → Bool
is_sleeping sleeping = true
is_sleeping _ = false

abbrev pub is_runnable : ProcState → Bool
is_runnable runnable = true
is_runnable _ = false

abbrev pub is_zombie : ProcState → Bool
is_zombie zombie = true
is_zombie _ = false

-- A wait channel is an address: NULL, that of a slot of the table, or that of another object.
pub data Chan : Type 0 where
  null : Chan
  slot : ℕ → Chan
  object : ℕ → Chan

abbrev pub same_chan : Chan → Chan → Bool
same_chan null null = true
same_chan (slot i) (slot j) = i == j
same_chan (object a) (object b) = a == b
same_chan _ _ = false

-- The saved registers that the kernel itself sets; `others` holds the rest.
pub record TrapFrame : Type 0 where
  pub eax : ℕ
  pub eip : ℕ
  pub esp : ℕ
  pub eflags : ℕ
  pub cs : ℕ
  pub ds : ℕ
  pub es : ℕ
  pub ss : ℕ
  pub others : List ℕ

-- `struct proc`. A pointer to a slot is its index, NULL is `none`; other pointers are numbers with
-- 0 for NULL. `status` is the bit pattern of an `int`.
pub record Proc : Type 0 where
  pub sz : ℕ
  pub pgdir : ℕ
  pub kstack : ℕ
  pub state : ProcState
  pub pid : ℕ
  pub parent : Option ℕ
  pub tf : TrapFrame
  pub chan : Chan
  pub killed : Bool
  pub ofile : List ℕ
  pub cwd : ℕ
  pub name : List ℕ
  pub status : ℕ

pub record PTable : Type 0 where
  pub procs : List Proc
  pub initproc : Option ℕ
  pub nextpid : ℕ

abbrev pub nproc : ℕ
nproc = 64

abbrev pub nofile : ℕ
nofile = 16

abbrev pub blank_frame : TrapFrame
blank_frame = record {
  eax = 0;
  eip = 0;
  esp = 0;
  eflags = 0;
  cs = 0;
  ds = 0;
  es = 0;
  ss = 0;
  others = [];
}

-- A slot as the loader leaves it, all zero. It also stands for a read outside the table.
abbrev pub blank : Proc
blank = record {
  sz = 0;
  pgdir = 0;
  kstack = 0;
  state = unused;
  pid = 0;
  parent = none;
  tf = blank_frame;
  chan = null;
  killed = false;
  ofile = 0 ∷ 0 ∷ 0 ∷ 0 ∷ 0 ∷ 0 ∷ 0 ∷ 0 ∷ 0 ∷ 0 ∷ 0 ∷ 0 ∷ 0 ∷ 0 ∷ 0 ∷ 0 ∷ [];
  cwd = 0;
  name = 0 ∷ 0 ∷ 0 ∷ 0 ∷ 0 ∷ 0 ∷ 0 ∷ 0 ∷ 0 ∷ 0 ∷ 0 ∷ 0 ∷ 0 ∷ 0 ∷ 0 ∷ 0 ∷ [];
  status = 0;
}

abbrev pub proc_at : PTable → ℕ → Proc
proc_at t i = get_or t.procs i blank

-- `p->x = …` at slot `i`
abbrev pub assign : PTable → ℕ → (Proc → Proc) → PTable
assign t i f = record t { procs = modify t.procs i f }

-- `for (p = ptable.proc; …; p++) if (p->state == UNUSED) goto found;`
abbrev pub find_unused : List Proc → Option ℕ
find_unused ps = find_first (λ p. is_unused p.state) ps 0

-- `nextpid++` on an `int`, as a bit pattern
abbrev pub next_int : ℕ → ℕ
next_int n = (n + 1) % 2 ^ 32

abbrev pub embryo_at : ℕ → PTable → PTable
embryo_at i t = record (assign t i (λ p. record p { state = embryo; pid = t.nextpid })) {
  nextpid = next_int t.nextpid;
}

-- allocproc after `found`: the kernel stack. Trap frame and context lie in the fresh page; the
-- callers fill the frame.
unfoldable pub alloc_stack : ℕ → PTable → Kmem → Option ℕ × PTable × Kmem
alloc_stack i t k =
    let (v, k') = kalloc k in
    if v == 0
    then (none, assign t i (λ p. record p { kstack = v; state = unused }), k')
    else (some i, assign t i (λ p. record p { kstack = v }), k')

unfoldable pub allocproc : PTable → Kmem → Option ℕ × PTable × Kmem
unfolding alloc_stack
allocproc t k = elim (find_unused t.procs) [
  | none ↦ (none, t, k)
  | some i ↦ alloc_stack i (embryo_at i t) k
]

-- The body of the loop in `wakeup1`.
abbrev pub wake : Chan → Proc → Proc
wake c p = if is_sleeping p.state && same_chan p.chan c then record p { state = runnable } else p

unfoldable pub wakeup1 : Chan → PTable → PTable
wakeup1 c t = record t { procs = map (wake c) t.procs }

-- `wakeup` is `wakeup1` under the lock.
unfoldable pub wakeup : Chan → PTable → PTable
unfolding wakeup1
wakeup c t = wakeup1 c t

-- The first slot with this pid, as the loops of `kill` and `pstat` find it.
abbrev pub find_pid : ℕ → List Proc → Option ℕ
find_pid pid ps = find_first (λ p. p.pid == pid) ps 0

abbrev pub kill_proc : Proc → Proc
kill_proc p = record p { killed = true; state = if is_sleeping p.state then runnable else p.state }

-- `true` for the result 0, `false` for -1
unfoldable pub kill : ℕ → PTable → Bool × PTable
kill pid t = elim (find_pid pid t.procs) [
  | none ↦ (false, t)
  | some i ↦ (true, assign t i kill_proc)
]

-- `struct procstat`
pub record ProcStat : Type 0 where
  pub name : List ℕ
  pub sz : ℕ
  pub nofile : ℕ
  pub state : ProcState

-- `for (fd = 0; fd < NOFILE; fd++) if (p->ofile[fd]) openFiles++;`
unfoldable pub count_open : List ℕ → ℕ
count_open [] = 0
count_open (f ∷ fs) = if f == 0 then count_open fs else count_open fs + 1

unfoldable pub pstat : ℕ → PTable → Option ProcStat
unfolding count_open
pstat pid t = elim (find_pid pid t.procs) [
  | none ↦ none
  | some i ↦
      let p = proc_at t i in
      some
        (record { name = take 16 p.name; sz = p.sz; nofile = count_open p.ofile; state = p.state })
]

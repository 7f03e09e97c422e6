-- ===== src/Syscall/Tests.antt =====
-- Runs of the argument checks (syscall.c, sysproc.c) in a process of two pages.
use osce.Prelude.{
  ◌+◌, ◌<◌, ◌≤◌, ◌≡◌, refl, ◌==◌, if◌then◌else◌, none, some, [], ◌∷◌, arith, find_first,
}
use osce.Proc.Table.{Proc, PTable, blank, blank_frame, running, pstat, count_open, ProcStat}
use osce.Syscall.{Memory, fetchint, fetchstr, argint, argptr}
use osce.Syscall.Bounds.{Fetched, fetchstr-Fetched, argptr-in_bounds}

abbrev caller : Proc
caller = record blank {
  state = running;
  pid = 3;
  sz = 8192;
  tf = record blank_frame { esp = 4096 };
}

abbrev table : PTable
table = record { procs = caller ∷ []; initproc = none; nextpid = 4 }

-- The arguments 3 and 8188.
abbrev stack : Memory
stack a = if a == 4100 then 3 else if a == 4104 then 252 else if a == 4105 then 31 else 0

argument0 : argint stack caller 0 ≡ some 3
unfolding argint fetchint
argument0 = refl

argument1 : argint stack caller 1 ≡ some 8188
unfolding argint fetchint
argument1 = refl

pointer : argptr stack caller 1 4 ≡ some 8188
unfolding argptr argint fetchint
pointer = refl

abbrev answer : ProcStat
answer = record { name = caller.name; sz = 8192; nofile = 0; state = running }

answered : pstat 3 table ≡ some answer
unfolding pstat find_first count_open
answered = refl

fetchstr-Fetched_example : Fetched stack 8192 4104 (fetchstr stack 8192 4104)
fetchstr-Fetched_example = fetchstr-Fetched stack 8192 4104

argptr-in_bounds_example :
    (argint stack caller 1 ≡ some 8188) × (8188 < caller.sz) × (8188 + 4 ≤ caller.sz)
argptr-in_bounds_example = argptr-in_bounds stack caller 1 4 (omega arith) (omega arith) pointer

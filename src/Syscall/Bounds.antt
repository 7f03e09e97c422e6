-- ===== src/Syscall/Bounds.antt =====
-- syscall.c and sysproc.c, what the kernel may rely on after it has checked an argument.
use osce.Prelude.{
  ℕ, zero, suc, ◌+◌, ◌-◌, ◌^◌, ◌<◌, ◌≤◌, ◌≡◌, ◌≢◌, refl, ◌==◌, leb, Option, none, some, arith,
  Bool-cases, inl, inr,
}
use osce.Kalloc.{kernbase}
use osce.Proc.Table.{Proc, PTable, proc_at, ProcStat, pstat}
use osce.Syscall.{
  Memory, int_at, fetchint, find_nul, fetchstr, argint, in_bounds, argptr, sizeof_pointer,
  sizeof_procstat, sys_pstat,
}

-- In a process of at most KERNBASE bytes `fetchint` returns the word at the address if its four
-- bytes lie in the memory, and -1 if they do not.
fetchint-some :
    (mem : Memory) (sz addr : ℕ)
    → sz ≤ kernbase
    → (addr + 4 ≤ sz → fetchint mem sz addr ≡ some (int_at mem addr))
      × (sz < addr + 4 → fetchint mem sz addr ≡ none)
unfolding fetchint
fetchint-some mem sz addr small = (λ h. ground arith, λ h. ground arith)

-- The string at `s` has `n` bytes before its 0, and ends inside the `rounds` bytes.
pub record IsString (mem : Memory) (s rounds n : ℕ) : Type 0 where
  pub inside : n < rounds
  pub ends : mem (s + n) ≡ 0
  pub before : (j : ℕ) → j < n → mem (s + j) ≢ 0

abbrev pub Found : Memory → ℕ → ℕ → ℕ → Option ℕ → Type 0
Found mem rounds s i none = (j : ℕ) → j < rounds → mem (s + j) ≢ 0
Found mem rounds s i (some k) = (i ≤ k) × IsString mem s rounds (k - i)

Found-step :
    (mem : Memory) (rounds s i : ℕ) (r : Option ℕ)
    → mem s ≢ 0
    → Found mem rounds (s + 1) (i + 1) r
    → Found mem (suc rounds) s i r
Found-step mem rounds s i none ne miss = each
  where
    each : (j : ℕ) → j < suc rounds → mem (s + j) ≢ 0
    each zero h = let e : s + 0 ≡ s = omega arith in rw e ne
    each (suc j) h = let e : s + suc j ≡ s + 1 + j = omega arith in rw e (miss j (omega arith))
Found-step mem rounds s i (some k) ne (lo, str) = (
  omega arith,
  record {
    inside = omega (arith, str.inside);
    ends = let e : s + (k - i) ≡ s + 1 + (k - (i + 1)) = omega arith in rw e str.ends;
    before = each;
  },
)
  where
    each : (j : ℕ) → j < k - i → mem (s + j) ≢ 0
    each zero h = let e : s + 0 ≡ s = omega arith in rw e ne
    each (suc j) h =
        let e : s + suc j ≡ s + 1 + j = omega arith in rw e (str.before j (omega arith))

find_nul-Found : (mem : Memory) (rounds s i : ℕ) → Found mem rounds s i (find_nul mem rounds s i)
unfolding find_nul
find_nul-Found mem zero s i = λ j h. absurd (omega arith)
find_nul-Found mem (suc rounds) s i = elim (Bool-cases (mem s == 0)) [
  | inl nul ↦ rw nul (
    omega arith,
    record {
      inside = omega arith;
      ends = let e : s + (i - i) ≡ s = omega arith in rw e (ground arith);
      before = λ j h. absurd (omega arith);
    },
  )
  | inr byte ↦ rw byte (
      Found-step mem rounds s i (find_nul mem rounds (s + 1) (i + 1)) (ground arith)
        (find_nul-Found mem rounds (s + 1) (i + 1)))
]

-- What `fetchstr` answers.
abbrev pub Fetched : Memory → ℕ → ℕ → Option ℕ → Type 0
Fetched mem sz addr none = (j : ℕ) → addr + j < sz → mem (addr + j) ≢ 0
Fetched mem sz addr (some n) = IsString mem addr (sz - addr) n

-- When `fetchstr` returns a length, the string at the address has that many bytes before its
-- first 0, and ends inside the memory of the process; when it returns -1, there is no 0 from the
-- address to the end of the memory.
pub fetchstr-Fetched : (mem : Memory) (sz addr : ℕ) → Fetched mem sz addr (fetchstr mem sz addr)
unfolding fetchstr
fetchstr-Fetched mem sz addr = elim (Bool-cases (leb sz addr)) [
  | inl out ↦ rw out (λ j h. absurd (ground arith))
  | inr in_memory ↦
      rw in_memory (found (find_nul mem (sz - addr) addr 0) (find_nul-Found mem (sz - addr) addr 0))
]
  where
    found : (r : Option ℕ) → Found mem (sz - addr) addr 0 r → Fetched mem sz addr r
    found none miss = λ j h. miss j (omega arith)
    found (some n) (lo, str) = let e : n - 0 ≡ n = omega arith in rw e at str

-- In a process of at most KERNBASE bytes, when `argptr` with a size that is not negative returns
-- a pointer, it is the argument on the stack and all of its block lies in the memory of the
-- process.
pub argptr-in_bounds :
    (mem : Memory) (p : Proc) (n size : ℕ) {a : ℕ}
    → p.sz ≤ kernbase
    → size < 2 ^ 31
    → argptr mem p n size ≡ some a
    → (argint mem p n ≡ some a) × (a < p.sz) × (a + size ≤ p.sz)
unfolding argptr
argptr-in_bounds mem p n size {a} small pos h = split (argint mem p n) h
  where
    split :
        (r : Option ℕ)
        → elim r [ none ↦ none | some i ↦ in_bounds p.sz size i ] ≡ some a
        → (r ≡ some a) × (a < p.sz) × (a + size ≤ p.sz)
    split none e = ground arith
    split (some i) e = ground arith

-- For a pointer argument `a` inside a memory of less than 2 ^ 32 bytes, and `0 < k` with `k` at
-- most `a`, `argptr` accepts the negative size `-k`.
argptr_negative :
    (mem : Memory) (p : Proc) (n k : ℕ) {a : ℕ}
    → argint mem p n ≡ some a
    → a < p.sz
    → p.sz < 2 ^ 32
    → 0 < k
    → k ≤ a
    → argptr mem p n (2 ^ 32 - k) ≡ some a
unfolding argptr
argptr_negative mem p n k {a} h inside small pos le = rw (h, argptr) (ground arith)

-- In a process of at least 4 bytes and at most KERNBASE, with the pid of a slot and the address
-- of its last four bytes as arguments, `sys_pstat` accepts the address, and the structure that is
-- stored there ends outside the memory.
sys_pstat_outside :
    (mem : Memory) (me : ℕ) (t : PTable) (pid : ℕ) {st : ProcStat}
    → argint mem (proc_at t me) 0 ≡ some pid
    → argint mem (proc_at t me) 1 ≡ some ((proc_at t me).sz - sizeof_pointer)
    → sizeof_pointer ≤ (proc_at t me).sz
    → (proc_at t me).sz ≤ kernbase
    → pstat pid t ≡ some st
    → (a : ℕ) × (sys_pstat mem me t ≡ some (a, st)) × ((proc_at t me).sz < a + sizeof_procstat)
unfolding sys_pstat argptr
sys_pstat_outside mem me t pid {st} h0 h1 big small found =
    ((proc_at t me).sz - sizeof_pointer, rw (h0, arg1, found, sys_pstat) refl, omega arith)
  where
    ok :
        in_bounds (proc_at t me).sz sizeof_pointer ((proc_at t me).sz - sizeof_pointer)
        ≡ some ((proc_at t me).sz - sizeof_pointer)
    ok = ground arith

    arg1 : argptr mem (proc_at t me) 1 sizeof_pointer ≡ some ((proc_at t me).sz - sizeof_pointer)
    arg1 = rw (h1, argptr) ok

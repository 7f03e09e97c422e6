-- ===== src/Spinlock.antt =====
-- spinlock.c: spin locks between processors, and the nesting of interrupt disabling.
pub mod Cli
pub mod Exclusion
mod Tests
use osce.Prelude.{
  ℕ, ◌+◌, ◌-◌, ◌%◌, ◌^◌, Bool, true, false, ◌&&◌, ◌==◌, ◌==?◌, leb, if◌then◌else◌, Option, none,
  some, Outcome, done, panic, ◌>>=◌,
}

-- The fields of `struct cpu` that count nested `cli`s, and the processor's interrupt flag FL_IF.
-- `ncli` is the bit pattern of an `int`.
pub record Cpu : Type 0 where
  pub ncli : ℕ
  pub intena : Bool
  pub flag : Bool

-- `struct spinlock` without `name` and `pcs`, which are for debugging; `cpu` is a processor's index.
pub record Lock : Type 0 where
  pub locked : Bool
  pub cpu : Option ℕ

abbrev pub initlock : Lock
initlock = record { locked = false; cpu = none }

unfoldable pub pushcli : Cpu → Cpu
pushcli c = record {
  ncli = (c.ncli + 1) % 2 ^ 32;
  intena = if c.ncli == 0 then c.flag else c.intena;
  flag = false;
}

-- `--cpu->ncli` and the rest of `popcli`
abbrev pub popped : ℕ → Cpu → Outcome Cpu
popped n c =
    if leb (2 ^ 31) n
    then panic
    else done
        (record { ncli = n; intena = c.intena; flag = if n == 0 && c.intena then true else c.flag })

unfoldable pub popcli : Cpu → Outcome Cpu
popcli c = if c.flag then panic else popped ((c.ncli + 2 ^ 32 - 1) % 2 ^ 32) c

abbrev pub holding : ℕ → Lock → Bool
holding me lk = lk.locked && lk.cpu ==? me

-- `acquire` up to its loop.
unfoldable pub acquire_enter : ℕ → Lock → Cpu → Outcome Cpu
unfolding pushcli
acquire_enter me lk c = let c' = pushcli c in if holding me lk then panic else done c'

-- `xchg(&lk->locked, 1)`: the old value, and the lock.
abbrev pub xchg_locked : Lock → Bool × Lock
xchg_locked lk = (lk.locked, record lk { locked = true })

-- `lk->cpu = cpu` at the end of `acquire`
abbrev pub set_owner : ℕ → Lock → Lock
set_owner me lk = record lk { cpu = some me }

-- `release` up to its `xchg`.
unfoldable pub release_clear : ℕ → Lock → Outcome Lock
release_clear me lk = if holding me lk then done (record lk { cpu = none }) else panic

-- `xchg(&lk->locked, 0)`
abbrev pub unlock : Lock → Lock
unlock lk = record lk { locked = false }

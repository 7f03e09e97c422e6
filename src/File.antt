-- ===== src/File.antt =====
-- file.c: the table of open files and its reference counts. Each call runs under `ftable.lock`; what
-- `fileclose` does after the release is passed to the pipe or the inode layer.
pub mod Counts
mod Tests
use osce.Prelude.{
  ℕ, ◌+◌, ◌-◌, ◌%◌, ◌^◌, Bool, false, true, ◌||◌, Option, none, some, List, ◌==◌, ltb, leb,
  if◌then◌else◌, get_or, modify, find_first, Outcome, done, panic, ◌>>=◌,
}

-- `type` of `struct file`
pub data FileType : Type 0 where
  fd_none fd_pipe fd_inode : FileType

-- `struct file`. `ref` is the bit pattern of an `int`; the pointers are numbers.
pub record File : Type 0 where
  pub kind : FileType
  pub ref : ℕ
  pub readable : Bool
  pub writable : Bool
  pub pipe : ℕ
  pub ip : ℕ
  pub off : ℕ

abbrev pub no_file : File
no_file = record {
  kind = fd_none;
  ref = 0;
  readable = false;
  writable = false;
  pipe = 0;
  ip = 0;
  off = 0;
}

abbrev pub file_at : List File → ℕ → File
file_at t f = get_or t f no_file

unfoldable pub filealloc : List File → Option ℕ × List File
filealloc t = elim (find_first (λ f. f.ref == 0) t 0) [
  | none ↦ (none, t)
  | some f ↦ (some f, modify t f (λ x. record x { ref = 1 }))
]

-- `f->ref < 1` on an `int`
abbrev pub below_one : ℕ → Bool
below_one n = ltb n 1 || leb (2 ^ 31) n

unfoldable pub filedup : ℕ → List File → Outcome (List File)
filedup f t =
    if below_one (file_at t f).ref
    then panic
    else done (modify t f (λ x. record x { ref = (x.ref + 1) % 2 ^ 32 }))

-- `fileclose` up to the release: `ff` if this was the last reference, and the table.
unfoldable pub drop_ref : ℕ → List File → Outcome (Option File × List File)
drop_ref f t =
    let n = ((file_at t f).ref + 2 ^ 32 - 1) % 2 ^ 32 in
    if below_one (file_at t f).ref
    then panic
    else if below_one n
    then done (
      some (record (file_at t f) { ref = n }),
      modify t f (λ x. record x { ref = 0; kind = fd_none }),
    )
    else done (none, modify t f (λ x. record x { ref = n }))

module _ {S : Type 0} (pipeclose : ℕ → Bool → S → Outcome S) (iput_in_op : ℕ → S → Outcome S) where
  unfoldable pub fileclose_last : File → S → Outcome S
  fileclose_last ff s = elim ff.kind [
    | fd_none ↦ done s
    | fd_pipe ↦ pipeclose ff.pipe ff.writable s
    | fd_inode ↦ iput_in_op ff.ip s
  ]

  unfoldable pub after_drop : Option File × List File → S → Outcome (List File × S)
  unfolding fileclose_last
  after_drop (none, t) s = done (t, s)
  after_drop (some ff, t) s = do s' ← fileclose_last ff s; done (t, s')

  unfoldable pub fileclose : ℕ → List File → S → Outcome (List File × S)
  unfolding drop_ref after_drop
  fileclose f t s = do r ← drop_ref f t; after_drop r s

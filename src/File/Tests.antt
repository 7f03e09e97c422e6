-- ===== src/File/Tests.antt =====
-- Runs of the file table (file.c): a pipe end with one handle, an inode with two, and a free entry.
use osce.Prelude.{
  ℕ, ◌+◌, ◌<◌, ◌≡◌, refl, Bool, true, zero, suc, List, [], ◌∷◌, arith, Outcome, done, ◌==◌, ◌>>=◌,
  if◌then◌else◌,
}
use osce.File.{FileType, File, no_file, file_at, fileclose}
use osce.File.Counts.{count, remove, IsCounted, fileclose-IsCounted}

abbrev table : List File
table =
    record no_file { kind = FileType.fd_pipe; ref = 1; writable = true; pipe = 40 }
    ∷ record no_file { kind = FileType.fd_inode; ref = 2; ip = 7 }
    ∷ no_file
    ∷ []

abbrev handles : List ℕ
handles = 1 ∷ 0 ∷ 1 ∷ []

-- A state that counts what is closed.
abbrev close_pipe : ℕ → Bool → ℕ → Outcome ℕ
close_pipe p writable s = done (if writable then s + p else s)

abbrev put_inode : ℕ → ℕ → Outcome ℕ
put_inode ip s = done (s + ip)

table-IsCounted : IsCounted table handles
unfolding count
table-IsCounted = record { counts = each; few = omega arith }
  where
    each : (f : ℕ) → (file_at table f).ref ≡ count f handles
    each zero = refl
    each (suc zero) = refl
    each (suc (suc f)) = ground arith

held : 0 < count 0 handles
unfolding count
held = omega arith

fileclose-IsCounted_example :
    (t' : List File) × IsCounted t' (remove 0 handles)
    × (if count 0 handles == 1
        then fileclose close_pipe put_inode 0 table 2
          ≡ (do s' ← close_pipe 40 true 2; done (t', s'))
        else fileclose close_pipe put_inode 0 table 2 ≡ done (t', 2))
fileclose-IsCounted_example =
    fileclose-IsCounted close_pipe put_inode 0 table handles 2 table-IsCounted held

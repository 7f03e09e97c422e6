-- ===== src/Fs/Ends.antt =====
-- fs.c: its loops have enough rounds, whatever the disk holds. An outcome is a value or a panic.
use osce.Prelude.{
  ℕ, zero, suc, ◌+◌, ◌-◌, ◌*◌, ◌/◌, ◌%◌, ◌^◌, ◌<◌, ◌≡◌, refl, ◌∙◌, not, ◌&&◌, ◌||◌, Option, none,
  some, ◌==◌, ltb, leb, if◌then◌else◌, Outcome, arith, Ends, Any, Ends-done, Ends-panic, Ends-bind,
  Ends-if, Ends-mono,
}
use osce.Log.{Log, log_write}
use osce.Fs.Store.{
  Bytes, Store, bsize, bpb, readsb, write_logged, bzero, bit_at, word_at, bblock, mark_block,
  balloc_from, balloc, bfree,
}
use osce.Fs.Inode.{Inode, ndirect, nindirect, maxfile, t_dev, iupdate}
use osce.Fs.ReadWrite.{
  ndev, ensure, bmap_indirect, bmap, chunk, blit, read_blocks, read_device, readi, write_blocks,
  write_device, grow, writei,
}
use osce.Fs.Content.{chunk_bounds}

log_write-Ends : (s : ℕ) (l : Log) → Ends Any (log_write s l)
unfolding log_write Ends
log_write-Ends s l = ground arith

pub write_logged-Ends : (s : ℕ) (b : Bytes) (st : Store) → Ends Any (write_logged s b st)
unfolding write_logged
write_logged-Ends s b st =
    Ends-bind Any Any _ _ (log_write-Ends s st.log) (λ l _. Ends-done Any _ tt)

mark_block-Ends :
    (b : ℕ) (st : Store) (r : Option ℕ) (rest : Outcome (ℕ × Store))
    → Ends Any rest
    → Ends Any (mark_block b st r rest)
unfolding mark_block bzero
mark_block-Ends b st none rest e = e
mark_block-Ends b st (some bi) rest e =
    Ends-bind Any Any _ _ (write_logged-Ends _ _ st)
      (λ st1 _. Ends-bind Any Any _ _ (write_logged-Ends _ _ st1) (λ st2 _. Ends-done Any _ tt))

balloc_from-Ends :
    (fuel b : ℕ) (st : Store)
    → (readsb st).size + bpb < b + fuel * bpb
    → b < (readsb st).size + bpb
    → Ends Any (balloc_from fuel b st)
unfolding balloc_from
balloc_from-Ends zero b st enough near = absurd (omega arith)
balloc_from-Ends (suc fuel) b st enough near =
    Ends-if Any (ltb b (readsb st).size) _ _
      (λ below.
        mark_block-Ends b st _ _ (balloc_from-Ends fuel (b + bpb) st (omega arith) (ground arith)))
      (λ _. Ends-panic Any)

pub balloc-Ends : (st : Store) → Ends Any (balloc st)
unfolding balloc
balloc-Ends st = balloc_from-Ends _ 0 st (omega arith) (omega arith)

pub bfree-Ends : (b : ℕ) (st : Store) → Ends Any (bfree b st)
unfolding bfree
bfree-Ends b st =
    Ends-if Any (not (bit_at (st.buf (bblock (readsb st) b)) (b % bpb))) _ _ (λ _. Ends-panic Any)
      (λ _. write_logged-Ends _ _ st)

pub iupdate-Ends : (ip : Inode) (st : Store) → Ends Any (iupdate ip st)
unfolding iupdate
iupdate-Ends ip st = write_logged-Ends _ _ st

-- The size of the inode is kept.
abbrev pub SameSize : {A : Type 0} → Inode → A × Inode × Store → Type 0
SameSize ip (a, ip', st') = ip'.size ≡ ip.size

ensure-Ends : (i : ℕ) (ip : Inode) (st : Store) → Ends (SameSize ip) (ensure i ip st)
unfolding ensure
ensure-Ends i ip st =
    Ends-if (SameSize ip) (ip.addrs i == 0) _ _
      (λ _.
        Ends-bind Any (SameSize ip) _ _ (balloc-Ends st) (λ r _. Ends-done (SameSize ip) _ refl))
      (λ _. Ends-done (SameSize ip) _ refl)

bmap_indirect-Ends : (ia i : ℕ) (st : Store) → Ends Any (bmap_indirect ia i st)
unfolding bmap_indirect
bmap_indirect-Ends ia i st =
    Ends-if Any (word_at (st.buf ia) (4 * i) == 0) _ _
      (λ _.
        Ends-bind Any Any _ _ (balloc-Ends st)
          (λ r _. Ends-bind Any Any _ _ (write_logged-Ends _ _ _) (λ st2 _. Ends-done Any _ tt)))
      (λ _. Ends-done Any _ tt)

pub bmap-Ends : (ip : Inode) (bn : ℕ) (st : Store) → Ends (SameSize ip) (bmap ip bn st)
unfolding bmap
bmap-Ends ip bn st =
    Ends-if (SameSize ip) (ltb bn ndirect) _ _ (λ _. ensure-Ends bn ip st)
      (λ _.
        Ends-if (SameSize ip) (ltb (bn - ndirect) nindirect) _ _
          (λ _.
            Ends-bind (SameSize ip) (SameSize ip) _ _ (ensure-Ends ndirect ip st)
              (λ (ia, ip1, st1) same.
                Ends-bind Any (SameSize ip) _ _ (bmap_indirect-Ends ia _ st1)
                  (λ r _. Ends-done (SameSize ip) _ same)))
          (λ _. Ends-panic (SameSize ip)))

read_blocks-Ends :
    (fuel left off d : ℕ) (ip : Inode) (dst : Bytes) (st : Store)
    → left < fuel
    → Ends (SameSize ip) (read_blocks fuel left off d ip dst st)
unfolding read_blocks
read_blocks-Ends zero left off d ip dst st enough = absurd (omega arith)
read_blocks-Ends (suc fuel) left off d ip dst st enough =
    Ends-if (SameSize ip) (left == 0) _ _ (λ _. Ends-done (SameSize ip) _ refl)
      (λ more.
        Ends-bind (SameSize ip) (SameSize ip) _ _ (bmap-Ends ip (off / bsize) st)
          (λ (a, ip', st') same.
            let (pos, _, _, _) = chunk_bounds left off (ground arith) in
            let m = chunk left off in
            Ends-mono (SameSize ip') (SameSize ip) _
              (read_blocks-Ends fuel (left - m) (off + m) (d + m) ip'
                (blit dst d (st'.buf a) (off % bsize) m) st' (omega arith))
              (λ r kept. kept ∙ same)))

-- The same of what `readi` and the loop of `writei` return.
abbrev pub SameSizeRead : Inode → Option ℕ × Bytes × Inode × Store → Type 0
SameSizeRead ip (r, dst, ip', st') = ip'.size ≡ ip.size

module _ (dev_read : ℕ → Option (Bytes → ℕ → ℕ → Outcome (Option ℕ × Bytes)))
    (returns : (i : ℕ) (read : Bytes → ℕ → ℕ → Outcome (Option ℕ × Bytes)) (b : Bytes) (d n : ℕ)
      → dev_read i ≡ some read
      → Ends Any (read b d n)) where
  read_device-Ends :
      (i : ℕ) (r : Option (Bytes → ℕ → ℕ → Outcome (Option ℕ × Bytes))) (ip : Inode) (dst : Bytes)
      (d n : ℕ) (st : Store)
      → dev_read i ≡ r
      → Ends (SameSizeRead ip) (read_device dev_read r ip dst d n st)
  read_device-Ends i none ip dst d n st e = Ends-done (SameSizeRead ip) _ refl
  read_device-Ends i (some read) ip dst d n st e =
      Ends-bind Any (SameSizeRead ip) _ _ (returns i read dst d n e)
        (λ r _. Ends-done (SameSizeRead ip) _ refl)

  pub readi-Ends :
      (ip : Inode) (dst : Bytes) (d off n : ℕ) (st : Store)
      → Ends (SameSizeRead ip) (readi dev_read ip dst d off n st)
  unfolding readi
  readi-Ends ip dst d off n st =
      Ends-if (SameSizeRead ip) (ip.kind == t_dev) _ _
        (λ _.
          Ends-if (SameSizeRead ip) (leb ndev ip.major) _ _
            (λ _. Ends-done (SameSizeRead ip) _ refl)
            (λ _. read_device-Ends ip.major _ ip dst d n st refl))
        (λ _.
          Ends-if (SameSizeRead ip) (ltb ip.size off || ltb ((off + n) % 2 ^ 32) off) _ _
            (λ _. Ends-done (SameSizeRead ip) _ refl)
            (λ _.
              Ends-bind (SameSize ip) (SameSizeRead ip) _ _
                (read_blocks-Ends ((if ltb ip.size (off + n) then ip.size - off else n) + 1) _ off d
                  ip dst st (omega arith))
                (λ r same. Ends-done (SameSizeRead ip) _ same)))

write_blocks-Ends :
    (fuel left off s : ℕ) (ip : Inode) (src : Bytes) (st : Store)
    → left < fuel
    → Ends Any (write_blocks fuel left off s ip src st)
unfolding write_blocks
write_blocks-Ends zero left off s ip src st enough = absurd (omega arith)
write_blocks-Ends (suc fuel) left off s ip src st enough =
    Ends-if Any (left == 0) _ _ (λ _. Ends-done Any _ tt)
      (λ more. Ends-bind (SameSize ip) Any _ _ (bmap-Ends ip (off / bsize) st) (λ (a, ip', st1) _.
        Ends-bind Any Any _ _
          (write_logged-Ends a (blit (st1.buf a) (off % bsize) src s (chunk left off)) st1)
          (λ st2 _.
            let (pos, _, _, _) = chunk_bounds left off (ground arith) in
            let m = chunk left off in
            write_blocks-Ends fuel (left - m) (off + m) (s + m) ip' src st2 (omega arith))))

module _ (dev_write : ℕ → Option (Bytes → ℕ → ℕ → Outcome (Option ℕ)))
    (returns : (i : ℕ) (write : Bytes → ℕ → ℕ → Outcome (Option ℕ)) (b : Bytes) (s n : ℕ)
      → dev_write i ≡ some write
      → Ends Any (write b s n)) where
  write_device-Ends :
      (i : ℕ) (r : Option (Bytes → ℕ → ℕ → Outcome (Option ℕ))) (ip : Inode) (src : Bytes) (s n : ℕ)
      (st : Store)
      → dev_write i ≡ r
      → Ends Any (write_device dev_write r ip src s n st)
  write_device-Ends i none ip src s n st e = Ends-done Any _ tt
  write_device-Ends i (some write) ip src s n st e =
      Ends-bind Any Any _ _ (returns i write src s n e) (λ r _. Ends-done Any _ tt)

  grow-Ends : (n off : ℕ) (ip : Inode) (st : Store) → Ends Any (grow dev_write n off ip st)
  unfolding grow
  grow-Ends n off ip st =
      Ends-if Any (ltb 0 n && ltb ip.size off) _ _
        (λ _.
          Ends-bind Any Any _ _ (iupdate-Ends (record ip { size = off }) st)
            (λ st2 _. Ends-done Any _ tt))
        (λ _. Ends-done Any _ tt)

  pub writei-Ends :
      (ip : Inode) (src : Bytes) (s off n : ℕ) (st : Store)
      → Ends Any (writei dev_write ip src s off n st)
  unfolding writei
  writei-Ends ip src s off n st =
      Ends-if Any (ip.kind == t_dev) _ _
        (λ _.
          Ends-if Any (leb ndev ip.major) _ _ (λ _. Ends-done Any _ tt)
            (λ _. write_device-Ends ip.major _ ip src s n st refl))
        (λ _.
          Ends-if Any (ltb ip.size off || ltb ((off + n) % 2 ^ 32) off) _ _
            (λ _. Ends-done Any _ tt)
            (λ _.
              Ends-if Any (ltb (maxfile * bsize) (off + n)) _ _ (λ _. Ends-done Any _ tt)
                (λ _.
                  Ends-bind Any Any _ _ (write_blocks-Ends (n + 1) n off s ip src st (omega arith))
                    (λ (ip', st') _. grow-Ends n (off + n) ip' st'))))

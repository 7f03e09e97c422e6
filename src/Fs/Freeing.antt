-- ===== src/Fs/Freeing.antt =====
-- fs.c, `bfree` on the bitmap of used blocks.
use osce.Prelude.{
  ℕ, suc, ◌+◌, ◌/◌, ◌%◌, ◌<◌, ◌≡◌, ◌≢◌, refl, sym, ◌∙◌, ap, true, false, ◌==◌, if◌then◌else◌, done,
  panic, Bool-cases, inl, inr, arith,
}
use osce.Fs.Store.{Bytes, Store, bpb, ipb, readsb, bit_at, without_bit, word_at, bblock, bfree}
use osce.Fs.Room.{HasRoom, Wrote, write_logged-Wrote}
use osce.Fs.Bits.{bit_at-without_bit}
use osce.Fs.Bitmap.{in_use}

-- What `bfree` does.
pub record Freed (st : Store) (k b : ℕ) (st' : Store) : Type 0 where
  pub bits : (j : ℕ) → j < (readsb st).size → in_use st' j ≡ (if b == j then false else in_use st j)
  pub others : (s : ℕ) → s ≢ bblock (readsb st) b → st'.buf s ≡ st.buf s
  pub room : HasRoom st'.log k

module _ (st : Store) (b k : ℕ) (room : HasRoom st.log (suc k)) where
  freed :
      (st' : Store)
      → Wrote
          (bblock (readsb st) b)
          (without_bit (st.buf (bblock (readsb st) b)) (b % bpb))
          k
          st
          st'
      → Freed st k b st'
  freed st' w = record { bits = bits; others = w.others; room = w.room }
    where
      same_super : readsb st' ≡ readsb st
      same_super =
          ap
            (λ (d : Bytes). record {
              size = word_at d 0;
              nblocks = word_at d 4;
              ninodes = word_at d 8;
              nlog = word_at d 12;
            })
            (w.others 1 (omega arith))

      bits : (j : ℕ) → j < (readsb st).size → in_use st' j ≡ (if b == j then false else in_use st j)
      bits j lt =
          ap (λ sb. bit_at (st'.buf (bblock sb j)) (j % bpb)) same_super
          ∙ elim (Bool-cases (j / bpb == b / bpb)) [
            | inl at ↦
                let e : j / bpb ≡ b / bpb = ground arith in
                ap (λ q. bit_at (st'.buf (q + (readsb st).ninodes / ipb + 3)) (j % bpb)) e
                ∙ ap (λ d. bit_at d (j % bpb)) w.at
                ∙ bit_at-without_bit (st.buf (bblock (readsb st) b)) (b % bpb) (j % bpb)
                ∙ same_block j e
            | inr off ↦
                let ne : j / bpb ≢ b / bpb = ground arith in
                ap (λ d. bit_at d (j % bpb)) (w.others (bblock (readsb st) j) (omega arith))
                ∙ ground arith
          ]
        where
          same_block :
              (i : ℕ)
              → i / bpb ≡ b / bpb
              → (if b % bpb == i % bpb
                  then false
                  else bit_at (st.buf (bblock (readsb st) b)) (i % bpb))
                ≡ (if b == i then false else in_use st i)
          same_block i e =
              let m : (b % bpb == i % bpb) ≡ (b == i) = ground arith in
              rw m (
                ap
                  (λ q.
                    if b == i
                    then false
                    else bit_at (st.buf (q + (readsb st).ninodes / ipb + 3)) (i % bpb))
                  (sym e))

  -- `bfree` of a block that is marked in use succeeds when the log has room; then the block is
  -- marked free, all other marks are as before, and no block but the bitmap block has changed.
  -- On a block that is marked free it panics.
  bfree-Freed :
      (in_use st b ≡ true → (st' : Store) × (bfree b st ≡ done st') × Freed st k b st')
      × (in_use st b ≡ false → bfree b st ≡ panic)
  unfolding bfree
  bfree-Freed = (
    λ on.
        let s = bblock (readsb st) b in
        let (st', e, w) = write_logged-Wrote s (without_bit (st.buf s) (b % bpb)) k st room in
        (st', rw (on, e) refl, freed st' w),
    λ off. rw off refl,
  )

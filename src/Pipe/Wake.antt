-- ===== src/Pipe/Wake.antt =====
-- pipe.c, how each side of a pipe wakes the other.
use osce.Prelude.{
  ℕ, zero, suc, ◌≡◌, ◌≢◌, refl, true, List, [], ◌∷◌, ◌||◌, ◌&&◌, not, arith, Bool-cases, inl, inr,
  ◌⊎◌, Always,
}
use osce.Proc.Table.{PTable, proc_at, wakeup, same_chan, sleeping, runnable, Chan}
use osce.Proc.Wakeup.{sleep_start-done, proc_at-wakeup, proc_at-assign}
use osce.Pipe.{
  Pipe, chan_nread, chan_nwrite, is_full, is_empty, put_byte, WriteReply, refused, pipewrite,
  ReadReply, killed, read_loop, piperead,
}

-- The process `r` sleeps on the channel.
abbrev pub SleepsOn : Chan → ℕ → PTable → Type 0
SleepsOn c r t = ((proc_at t r).state ≡ sleeping) × ((proc_at t r).chan ≡ c)

woken :
    (c : Chan) (r : ℕ) (t : PTable)
    → same_chan c c ≡ true
    → SleepsOn c r t
    → (proc_at (wakeup c t) r).state ≡ runnable
woken c r t self s = ground (arith, proc_at-wakeup c t r)

module _ (me r : ℕ) (ne : r ≢ me) where
  -- Another process `r` sleeps for bytes of the pipe, which is not at NULL. A `pipewrite` that
  -- has sent all its bytes, or that goes to sleep, has made `r` runnable.
  pipewrite-wakes :
      (src : List ℕ) (p : Pipe) (t : PTable)
      → p.addr ≢ 0
      → SleepsOn (chan_nread p) r t
      → Always
          (λ (res : WriteReply × Pipe × PTable).
            (res.0 ≡ refused) ⊎ ((proc_at res.2 r).state ≡ runnable))
          (pipewrite me src p t)
  unfolding pipewrite
  pipewrite-wakes [] p t at s = inr (woken (chan_nread p) r t (ground arith) s)
  pipewrite-wakes (x ∷ xs) p t at s = elim (Bool-cases (is_full p)) [
    | inl full ↦ rw full (elim (Bool-cases (not p.readopen || (proc_at t me).killed)) [
      | inl stop ↦ rw stop (inl refl)
      | inr go ↦
          let t' = wakeup (chan_nread p) t in
          let up : (proc_at t' r).state ≡ runnable = woken (chan_nread p) r t (ground arith) s in
          rw go (
            rw (sleep_start-done me (chan_nwrite p) p.addr t' at) (
              inr (
                ground (
                  arith,
                  up,
                  proc_at-assign t' me r (λ q. record q { chan = chan_nwrite p; state = sleeping }),
                ))))
    ])
    | inr room ↦ rw room (pipewrite-wakes xs (put_byte x p) t at s)
  ]

  addr-read_loop : (n : ℕ) (p : Pipe) → (read_loop n p).1.addr ≡ p.addr
  unfolding read_loop
  addr-read_loop zero p = refl
  addr-read_loop (suc n) p = elim (Bool-cases (is_empty p)) [
    | inl nothing ↦ rw nothing refl
    | inr some_left ↦ rw some_left (addr-read_loop n _)
  ]

  -- Another process `r` sleeps for room in the pipe, which is not at NULL. A `piperead` that
  -- returns bytes has made `r` runnable.
  piperead-wakes :
      (n : ℕ) (p : Pipe) (t : PTable)
      → p.addr ≢ 0
      → SleepsOn (chan_nwrite p) r t
      → Always
          (λ (res : ReadReply × Pipe × PTable).
            (res.0 ≡ killed) ⊎ (res.0 ≡ ReadReply.sleeping) ⊎ ((proc_at res.2 r).state ≡ runnable))
          (piperead me n p t)
  unfolding piperead
  piperead-wakes n p t at s = elim (Bool-cases (is_empty p && p.writeopen)) [
    | inl nothing ↦ rw nothing (elim (Bool-cases (proc_at t me).killed) [
      | inl dead ↦ rw dead (inl refl)
      | inr alive ↦ rw alive (rw (sleep_start-done me (chan_nread p) p.addr t at) (inr (inl refl)))
    ])
    | inr ready ↦ rw ready (inr (inr (up (read_loop n p).1 (addr-read_loop n p))))
  ]
    where
      up : (q : Pipe) → q.addr ≡ p.addr → (proc_at (wakeup (chan_nwrite q) t) r).state ≡ runnable
      up q e = rw e (woken (chan_nwrite p) r t (ground arith) s)

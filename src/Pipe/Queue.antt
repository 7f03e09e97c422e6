-- ===== src/Pipe/Queue.antt =====
-- pipe.c, a pipe as a queue of bytes, across the wrap of its counters.
use osce.Prelude.{
  ℕ, zero, suc, ◌+◌, ◌-◌, ◌%◌, ◌^◌, ◌<◌, ◌≤◌, ◌≡◌, ◌≢◌, refl, sym, ◌∙◌, ap, true, false, List, [],
  ◌∷◌, ◌++◌, ◌||◌, ◌&&◌, not, length, get_or, set, arith, get_or-set, length-set, Bool-cases, inl,
  inr, Outcome, done, Always,
}
use Prim.Native.Nat.{min}
use mathlib.Core.Path.{ap₂}
use mathlib.Core.List.{append_assoc, append-nil}
use osce.Proc.Table.{PTable, proc_at, wakeup}
use osce.Proc.Wakeup.{sleep_start-done}
use osce.Pipe.{
  Pipe, chan_nread, chan_nwrite, pipesize, next_uint, is_full, is_empty, put_byte, drop_byte,
  WriteReply, wrote, refused, waiting, pipewrite, ReadReply, got, killed, sleeping, read_loop,
  piperead,
}

-- The number of bytes between the counters.
abbrev pub used : Pipe → ℕ
used p = (p.nwrite + 2 ^ 32 - p.nread) % 2 ^ 32

pub record IsValid (p : Pipe) : Type 0 where
  pub placed : p.addr ≢ 0
  pub size : length p.buf ≡ pipesize
  pub reads : p.nread < 2 ^ 32
  pub writes : p.nwrite < 2 ^ 32
  pub fits : used p ≤ pipesize

-- `k` bytes from counter `c` on.
abbrev pub window : List ℕ → ℕ → ℕ → List ℕ
window buf c zero = []
window buf c (suc k) = get_or buf (c % pipesize) 0 ∷ window buf (next_uint c) k

-- The bytes in the pipe, oldest first.
abbrev pub contents : Pipe → List ℕ
contents p = window p.buf p.nread (used p)

window_put :
    (buf : List ℕ) (x k c w : ℕ)
    → length buf ≡ pipesize
    → k < pipesize
    → c < 2 ^ 32
    → w ≡ (c + k) % 2 ^ 32
    → window (set buf (w % pipesize) x) c (suc k) ≡ window buf c k ++ (x ∷ [])
window_put buf x zero c w len small range e =
    let i : w % pipesize ≡ c % pipesize = omega arith in
    rw i (ap (λ b. b ∷ []) (ground (arith, get_or-set buf (c % pipesize) (c % pipesize) x 0)))
window_put buf x (suc k) c w len small range e =
    let i : w % pipesize ≢ c % pipesize = omega arith in
    ap₂ ◌∷◌ (ground (arith, get_or-set buf (w % pipesize) (c % pipesize) x 0))
      (window_put buf x k (next_uint c) w len (omega arith) (omega arith) (omega arith))

-- With room, a byte goes to the end of the queue.
put_byte-contents :
    (x : ℕ) (p : Pipe)
    → IsValid p
    → is_full p ≡ false
    → IsValid (put_byte x p) × (contents (put_byte x p) ≡ contents p ++ (x ∷ []))
put_byte-contents x p v room = (
  record {
    placed = v.placed;
    size = length-set p.buf (p.nwrite % pipesize) x ∙ v.size;
    reads = v.reads;
    writes = omega arith;
    fits = omega (arith, more, below);
  },
  ap (λ k. window (set p.buf (p.nwrite % pipesize) x) p.nread k) more
      ∙ window_put p.buf x (used p) p.nread p.nwrite v.size below v.reads
          (omega (arith, v.reads, v.writes)),
)
  where
    not_full : p.nwrite ≢ (p.nread + pipesize) % 2 ^ 32
    not_full = ground arith

    below : used p < pipesize
    below = omega (arith, v.reads, v.writes, v.fits, not_full)

    more : used (put_byte x p) ≡ suc (used p)
    more = omega (arith, v.reads, v.writes, below)

-- What `pipewrite` has done when it returns or sleeps.
abbrev pub Written : List ℕ → Pipe → WriteReply → Pipe → Type 0
Written src p wrote p' = IsValid p' × (contents p' ≡ contents p ++ src)
Written src p refused p' =
    IsValid p'
    × ((sent : List ℕ) × (rest : List ℕ) × (src ≡ sent ++ rest)
        × (contents p' ≡ contents p ++ sent))
    × (used p' ≡ pipesize)
Written src p (waiting rest) p' =
    IsValid p'
    × ((sent : List ℕ) × (src ≡ sent ++ rest) × (contents p' ≡ contents p ++ sent))
    × (used p' ≡ pipesize)
    × (p'.readopen ≡ true)

module _ (me : ℕ) where
  abbrev pub Writes : List ℕ → Pipe → WriteReply × Pipe × PTable → Type 0
  Writes src p (reply, p', t') = Written src p reply p'

  one_more :
      (x : ℕ) (xs : List ℕ) (p : Pipe) (reply : WriteReply) (p' : Pipe)
      → contents (put_byte x p) ≡ contents p ++ (x ∷ [])
      → Written xs (put_byte x p) reply p'
      → Written (x ∷ xs) p reply p'
  one_more x xs p wrote p' e (v, c) =
      (v, c ∙ ap (λ l. l ++ xs) e ∙ append_assoc (contents p) (x ∷ []) xs)
  one_more x xs p refused p' e (v, (sent, rest, s, c), u) = (
    v,
    (
      x ∷ sent,
      rest,
      ap (λ l. x ∷ l) s,
      c ∙ ap (λ l. l ++ sent) e ∙ append_assoc (contents p) (x ∷ []) sent,
    ),
    u,
  )
  one_more x xs p (waiting rest) p' e (v, (sent, s, c), u, o) = (
    v,
    (
      x ∷ sent,
      ap (λ l. x ∷ l) s,
      c ∙ ap (λ l. l ++ sent) e ∙ append_assoc (contents p) (x ∷ []) sent,
    ),
    u,
    o,
  )

  full-used : (p : Pipe) → IsValid p → is_full p ≡ true → used p ≡ pipesize
  full-used p v full =
      let e : p.nwrite ≡ (p.nread + pipesize) % 2 ^ 32 = ground arith in
      omega (arith, v.reads, v.writes)

  -- On a valid pipe whatever `pipewrite` comes to leaves a valid pipe. With all bytes sent the
  -- contents are the old ones followed by `src`; with -1 or asleep the contents are the old
  -- ones followed by a prefix of `src` and the pipe is full, and a sleeper's remaining bytes
  -- are the rest of `src` and the read end is open.
  pub pipewrite-Written :
      (src : List ℕ) (p : Pipe) (t : PTable)
      → IsValid p
      → Always (Writes src p) (pipewrite me src p t)
  unfolding pipewrite
  pipewrite-Written [] p t v = (v, sym (append-nil (contents p)))
  pipewrite-Written (x ∷ xs) p t v = elim (Bool-cases (is_full p)) [
    | inl full ↦ rw full (elim (Bool-cases (not p.readopen || (proc_at t me).killed)) [
      | inl stop ↦
          rw stop (v, ([], x ∷ xs, refl, sym (append-nil (contents p))), full-used p v full)
      | inr go ↦
          let stays : Written (x ∷ xs) p (waiting (x ∷ xs)) p =
            (v, ([], refl, sym (append-nil (contents p))), full-used p v full, ground arith) in
          rw go (
            rw (sleep_start-done me (chan_nwrite p) p.addr (wakeup (chan_nread p) t) v.placed)
              stays)
    ])
    | inr room ↦ rw room (
        let (v', e) = put_byte-contents x p v room in
        step (pipewrite me xs (put_byte x p) t) e (pipewrite-Written xs (put_byte x p) t v'))
  ]
    where
      step :
          (o : Outcome (WriteReply × Pipe × PTable))
          → contents (put_byte x p) ≡ contents p ++ (x ∷ [])
          → Always (Writes xs (put_byte x p)) o
          → Always (Writes (x ∷ xs) p) o
      step (done (reply, p', t')) e w = one_more x xs p reply p' e w
      step Outcome.panic e w = w
      step Outcome.out_of_fuel e w = w

  read_loop-contents :
      (n : ℕ) (p : Pipe)
      → IsValid p
      → let (bytes, p') = read_loop n p in
        IsValid p' × (contents p ≡ bytes ++ contents p') × (length bytes ≡ min n (used p))
  unfolding read_loop
  read_loop-contents zero p v = (v, refl, omega arith)
  read_loop-contents (suc n) p v = elim (Bool-cases (is_empty p)) [
    | inl nothing ↦ rw nothing (v, refl, ground (arith, v.reads, v.writes))
    | inr some_left ↦
        let ne : p.nread ≢ p.nwrite = ground arith in
        let less : used p ≡ suc (used (drop_byte p)) = omega (arith, v.reads, v.writes) in
        let v' : IsValid (drop_byte p) = record {
          placed = v.placed;
          size = v.size;
          reads = omega arith;
          writes = v.writes;
          fits = omega (arith, less, v.fits);
        } in
        let (w, e, count) = read_loop-contents n (drop_byte p) v' in
        rw some_left (
          w,
          ap (λ k. window p.buf p.nread k) less
              ∙ ap (λ l. get_or p.buf (p.nread % pipesize) 0 ∷ l) e,
          omega (arith, count, less),
        )
  ]

  -- What `piperead` has done when it returns or sleeps.
  abbrev pub Read : ℕ → Pipe → ReadReply → Pipe → Type 0
  Read n p (got bytes) p' =
      IsValid p'
      × (contents p ≡ bytes ++ contents p')
      × (length bytes ≡ min n (used p))
      × ((contents p ≡ []) → p.writeopen ≡ false)
  Read n p killed p' = (p' ≡ p) × (contents p ≡ []) × (p.writeopen ≡ true)
  Read n p sleeping p' = (p' ≡ p) × (contents p ≡ []) × (p.writeopen ≡ true)

  abbrev pub Reads : ℕ → Pipe → ReadReply × Pipe × PTable → Type 0
  Reads n p (reply, p', t') = Read n p reply p'

  empty-contents : (p : Pipe) → IsValid p → is_empty p ≡ true → contents p ≡ []
  empty-contents p v nothing =
      let zero_used : used p ≡ 0 = ground (arith, v.reads, v.writes) in
      ap (λ k. window p.buf p.nread k) zero_used

  nonempty-contents : (p : Pipe) → IsValid p → contents p ≡ [] → is_empty p ≡ true
  nonempty-contents p v e = elim (Bool-cases (is_empty p)) [
    | inl nothing ↦ nothing
    | inr some_left ↦
        let ne : p.nread ≢ p.nwrite = ground arith in
        let less : used p ≡ suc (used (drop_byte p)) = omega (arith, v.reads, v.writes) in
        cc (sym (ap (λ k. window p.buf p.nread k) less) ∙ e)
  ]

  -- On a valid pipe `piperead` returns the oldest bytes in order, as many as asked for or all
  -- that there are, and leaves the rest in a valid pipe, and if it returns from an empty pipe
  -- the write end is closed; it sleeps, or returns -1, only if the pipe is empty and open for
  -- writing, and then leaves the pipe as it was.
  pub piperead-Read :
      (n : ℕ) (p : Pipe) (t : PTable) → IsValid p → Always (Reads n p) (piperead me n p t)
  unfolding piperead
  piperead-Read n p t v = elim (Bool-cases (is_empty p && p.writeopen)) [
    | inl nothing ↦
        let e : is_empty p ≡ true = ground arith in
        let same : Read n p sleeping p = (refl, empty-contents p v e, ground arith) in
        rw nothing (elim (Bool-cases (proc_at t me).killed) [
          | inl dead ↦ rw dead same
          | inr alive ↦ rw alive (rw (sleep_start-done me (chan_nread p) p.addr t v.placed) same)
        ])
    | inr ready ↦
        let (w, e, count) = read_loop-contents n p v in
        rw ready (w, e, count, λ none_left. ground (arith, nonempty-contents p v none_left))
  ]

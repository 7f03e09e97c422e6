-- ===== src/Console/Editing.antt =====
-- console.c: the line that is edited and the bytes that are passed on.
use osce.Prelude.{
  ℕ, zero, suc, ◌+◌, ◌-◌, ◌%◌, ◌^◌, ◌<◌, ◌≤◌, ◌≡◌, ◌≢◌, refl, sym, ◌∙◌, ap, Bool, true, false, not,
  ◌&&◌, ◌||◌, ltb, ◌==◌, if◌then◌else◌, arith, Bool-cases, ==_iff, inl, inr,
}
use mathlib.Core.Path.{subst}
use osce.Console.{
  Input, input_buf, ctrl_d, ctrl_h, ctrl_p, ctrl_u, dec, inc, kill_from, kill_line, backspace,
  put_char, is_end, type_byte, consoleintr_byte,
}

-- The bytes that a reader may take, and all bytes in the ring.
abbrev pub passed : Input → ℕ
passed s = (s.w + 2 ^ 32 - s.r) % 2 ^ 32

abbrev pub held : Input → ℕ
held s = (s.e + 2 ^ 32 - s.r) % 2 ^ 32

-- The byte at place `i` behind the read index.
abbrev pub byte_at : Input → ℕ → ℕ
byte_at s i = s.buf ((s.r + i) % 2 ^ 32 % input_buf)

-- The line that is edited, behind the bytes that are passed on, has no newline.
pub record IsRing (s : Input) : Type 0 where
  pub reads : s.r < 2 ^ 32
  pub writes : s.w < 2 ^ 32
  pub edits : s.e < 2 ^ 32
  pub order : passed s ≤ held s
  pub fits : held s ≤ input_buf
  pub line : (i : ℕ) → passed s ≤ i → i < held s → byte_at s i ≢ 10

-- The ring behind a key: its first bytes are as before, and none more is passed on.
pub record IsEdited (s s' : Input) (n : ℕ) : Type 0 where
  pub ring : IsRing s'
  pub same_read : s'.r ≡ s.r
  pub held_now : held s' ≡ n
  pub passed_now : passed s' ≡ passed s
  pub kept : (i : ℕ) → i < n → byte_at s' i ≡ byte_at s i

-- Bytes are taken off the end of the line.
cut :
    (s : Input) (e' : ℕ)
    → IsRing s
    → e' < 2 ^ 32
    → passed s ≤ (e' + 2 ^ 32 - s.r) % 2 ^ 32
    → (e' + 2 ^ 32 - s.r) % 2 ^ 32 ≤ held s
    → IsEdited s (record s { e = e' }) ((e' + 2 ^ 32 - s.r) % 2 ^ 32)
cut s e' ring lt lo hi = record {
  ring = record {
    reads = ring.reads;
    writes = ring.writes;
    edits = lt;
    order = lo;
    fits = omega (arith, ring.fits);
    line = λ i a b. ring.line i a (omega arith);
  };
  same_read = refl;
  held_now = refl;
  passed_now = refl;
  kept = λ i lt. refl;
}

-- One index below.
dec_held :
    (r e : ℕ)
    → r < 2 ^ 32
    → e < 2 ^ 32
    → 0 < (e + 2 ^ 32 - r) % 2 ^ 32
    → suc ((dec e + 2 ^ 32 - r) % 2 ^ 32) ≡ (e + 2 ^ 32 - r) % 2 ^ 32
dec_held r e lr le pos = omega arith

dec_place :
    (r e : ℕ) → r < 2 ^ 32 → e < 2 ^ 32 → (r + (dec e + 2 ^ 32 - r) % 2 ^ 32) % 2 ^ 32 ≡ dec e
dec_place r e lr le = omega arith

apart_held :
    (r w e : ℕ)
    → r < 2 ^ 32
    → w < 2 ^ 32
    → e < 2 ^ 32
    → e ≢ w
    → (w + 2 ^ 32 - r) % 2 ^ 32 ≤ (e + 2 ^ 32 - r) % 2 ^ 32
    → (w + 2 ^ 32 - r) % 2 ^ 32 < (e + 2 ^ 32 - r) % 2 ^ 32
apart_held r w e lr lw le ne order = omega arith

-- A byte is taken off a line that is not empty.
cut_one :
    (s : Input)
    → IsRing s
    → s.e ≢ s.w
    → (suc (held (record s { e = dec s.e })) ≡ held s)
      × IsEdited s (record s { e = dec s.e }) (held (record s { e = dec s.e }))
cut_one s ring ne =
    let more = apart_held s.r s.w s.e ring.reads ring.writes ring.edits ne ring.order in
    let one = dec_held s.r s.e ring.reads ring.edits (omega arith) in
    (one, cut s (dec s.e) ring (omega arith) (omega arith) (omega arith))

-- The whole line is killed.
kill_from-end :
    (n : ℕ) (s : Input)
    → IsRing s
    → n ≡ (s.e + 2 ^ 32 - s.w) % 2 ^ 32
    → kill_from n s ≡ record s { e = s.w }
unfolding kill_from
kill_from-end zero s ring e =
    let lw = ring.writes in
    let le = ring.edits in
    let same : s.e ≡ s.w = omega arith in ap (λ (x : ℕ). record s { e = x }) same
kill_from-end (suc n) s ring e =
    let lw = ring.writes in
    let le = ring.edits in
    let ne : s.e ≢ s.w = omega arith in
    let (one, short) = cut_one s ring ne in
    let more = apart_held s.r s.w s.e ring.reads lw le ne ring.order in
    let byte = ring.line (held (record s { e = dec s.e })) (omega arith) (omega arith) in
    let place = dec_place s.r s.e ring.reads le in
    let other : s.buf (dec s.e % input_buf) ≢ 10 =
      λ q. byte (ap (λ i. s.buf (i % input_buf)) place ∙ q) in
    let test : (not (s.e == s.w) && not (s.buf (dec s.e % input_buf) == 10)) ≡ true =
      ground arith in
    rw test (kill_from-end n (record s { e = dec s.e }) short.ring (omega arith))

kill_line-IsEdited : (s : Input) → IsRing s → IsEdited s (kill_line s) (passed s)
unfolding kill_line
kill_line-IsEdited s ring =
    rw (kill_from-end ((s.e + 2 ^ 32 - s.w) % 2 ^ 32) s ring refl)
      (cut s s.w ring ring.writes (omega arith) ring.order)

backspace-IsEdited :
    (s : Input) → IsRing s → IsEdited s (backspace s) (if s.e == s.w then held s else held s - 1)
backspace-IsEdited s ring = elim (Bool-cases (s.e == s.w)) [
  | inl empty ↦ rw empty (cut s s.e ring ring.edits ring.order (omega arith))
  | inr more ↦
      let ne : s.e ≢ s.w = λ q. absurd (ground arith) in
      let (one, short) = cut_one s ring ne in
      let n : held (record s { e = dec s.e }) ≡ held s - 1 = omega arith in rw (more, sym n) short
]

-- A byte behind the others.
pub record IsTyped (c : ℕ) (s s' : Input) (ends : Bool) : Type 0 where
  pub ring : IsRing s'
  pub same_read : s'.r ≡ s.r
  pub one_more : held s' ≡ suc (held s)
  pub passed_now : passed s' ≡ (if ends then suc (held s) else passed s)
  pub last : byte_at s' (held s) ≡ c
  pub kept : (i : ℕ) → i < held s → byte_at s' i ≡ byte_at s i

put_char-held :
    (r e : ℕ)
    → r < 2 ^ 32
    → e < 2 ^ 32
    → (e + 2 ^ 32 - r) % 2 ^ 32 < input_buf
    → (inc e + 2 ^ 32 - r) % 2 ^ 32 ≡ suc ((e + 2 ^ 32 - r) % 2 ^ 32)
put_char-held r e lr le room = omega arith

put_char-place :
    (r e : ℕ)
    → r < 2 ^ 32
    → e < 2 ^ 32
    → (r + (e + 2 ^ 32 - r) % 2 ^ 32) % 2 ^ 32 % input_buf ≡ e % input_buf
put_char-place r e lr le = omega arith

put_char-apart :
    (r e i : ℕ)
    → r < 2 ^ 32
    → e < 2 ^ 32
    → (e + 2 ^ 32 - r) % 2 ^ 32 < input_buf
    → i < (e + 2 ^ 32 - r) % 2 ^ 32
    → (r + i) % 2 ^ 32 % input_buf ≢ e % input_buf
put_char-apart r e i lr le room lt = omega arith

full_index :
    (r e : ℕ)
    → r < 2 ^ 32
    → e < 2 ^ 32
    → (e == (r + input_buf) % 2 ^ 32) ≡ ((e + 2 ^ 32 - r) % 2 ^ 32 == input_buf)
full_index r e lr le = ground arith

module _ (c : ℕ) (s : Input) (ring : IsRing s) (room : held s < input_buf) where
  here : byte_at (put_char c s) (held s) ≡ c
  here =
      let place = put_char-place s.r s.e ring.reads ring.edits in
      let test : ((s.r + held s) % 2 ^ 32 % input_buf == s.e % input_buf) ≡ true = ground arith in
      rw test refl

  old : (i : ℕ) → i < held s → byte_at (put_char c s) i ≡ byte_at s i
  old i lt =
      let ne = put_char-apart s.r s.e i ring.reads ring.edits room lt in
      let test : ((s.r + i) % 2 ^ 32 % input_buf == s.e % input_buf) ≡ false = ground arith in
      rw test refl

  more : held (put_char c s) ≡ suc (held s)
  more = put_char-held s.r s.e ring.reads ring.edits room

  -- The line goes on.
  put_char-IsTyped : c ≢ 10 → IsTyped c s (put_char c s) false
  put_char-IsTyped ne = record {
    ring = record {
      reads = ring.reads;
      writes = ring.writes;
      edits = omega arith;
      order = omega (arith, more, ring.order);
      fits = omega (arith, more);
      line = λ i lo hi. elim (Bool-cases (i == held s)) [
        | inl last ↦
            let e : i ≡ held s = (==_iff i (held s)).0 last in
            λ q. ne (sym here ∙ ap (byte_at (put_char c s)) (sym e) ∙ q)
        | inr other ↦
            let lt : i < held s = omega (arith, more, not_last i other) in
            λ q. ring.line i lo lt (sym (old i lt) ∙ q)
      ];
    };
    same_read = refl;
    one_more = more;
    passed_now = refl;
    last = here;
    kept = old;
  }
    where
      not_last : (i : ℕ) → (i == held s) ≡ false → i ≢ held s
      not_last i h q = absurd (ground arith)

  -- The line is passed on.
  pass-IsTyped : IsTyped c s (record (put_char c s) { w = inc s.e }) true
  pass-IsTyped = record {
    ring = record {
      reads = ring.reads;
      writes = omega arith;
      edits = omega arith;
      order = omega arith;
      fits = omega (arith, more);
      line = λ i lo hi. absurd (omega arith);
    };
    same_read = refl;
    one_more = more;
    passed_now = more;
    last = here;
    kept = old;
  }

-- What a key does. A carriage return is a newline. The line is passed on at its end or when the ring
-- is full.
abbrev pub newline_of : ℕ → ℕ
newline_of c = if c == 13 then 10 else c

abbrev pub ends_line : ℕ → Input → Bool
ends_line c s = c == 10 || c == ctrl_d || suc (held s) == input_buf

abbrev pub Keyed : ℕ → Input → Bool × Input → Type 0
Keyed c s r =
    if c == ctrl_p
    then r ≡ (false, s)
    else if c == ctrl_u
    then (r.0 ≡ false) × IsEdited s r.1 (passed s)
    else if c == ctrl_h || c == 127
    then (r.0 ≡ false) × IsEdited s r.1 (if s.e == s.w then held s else held s - 1)
    else if not (c == 0) && ltb (held s) input_buf
    then (r.0 ≡ ends_line (newline_of c) s) × IsTyped (newline_of c) s r.1 r.0
    else r ≡ (false, s)

type_lem :
    (c : ℕ) (s : Input)
    → IsRing s
    → held s < input_buf
    → (r : Bool × Input) × ((if is_end c (put_char c s)
          then (true, record (put_char c s) { w = (put_char c s).e })
          else (false, put_char c s))
        ≡ r)
      × (r.0 ≡ ends_line c s)
      × IsTyped c s r.1 r.0
type_lem c s ring room =
    let full : (inc s.e == (s.r + input_buf) % 2 ^ 32) ≡ (suc (held s) == input_buf) =
      full_index s.r (inc s.e) ring.reads (omega arith)
      ∙ ap (λ n. n == input_buf) (more c s ring room) in
    elim (Bool-cases (ends_line c s)) [
      | inl ends ↦ (
        (true, record (put_char c s) { w = inc s.e }),
        rw (full, ends) refl,
        sym ends,
        pass-IsTyped c s ring room,
      )
      | inr goes ↦
          let ne : c ≢ 10 = λ q. absurd (ground arith) in
          ((false, put_char c s), rw (full, goes) refl, sym goes, put_char-IsTyped c s ring room ne)
    ]

default_lem :
    (c : ℕ) (s : Input)
    → IsRing s
    → (c == ctrl_p) ≡ false
    → (c == ctrl_u) ≡ false
    → (c == ctrl_h || c == 127) ≡ false
    → Keyed c s (type_byte c s)
unfolding type_byte
default_lem c s ring np nu nh = elim (Bool-cases (not (c == 0) && ltb (held s) input_buf)) [
  | inl takes ↦
      let room : held s < input_buf = ground arith in
      let (r, run, ends, typed) = type_lem (newline_of c) s ring room in
      rw (np, nu, nh, takes, run) (ends, typed)
  | inr drops ↦ rw (np, nu, nh, drops) refl
]

-- In the input ring the bytes that are passed on come first, then the line that is edited,
-- without a newline, 128 bytes at most together. Every byte that `consoleintr` takes keeps this.
-- Control-P does nothing, control-U drops the line, backspace its last byte if there is one; any
-- other byte but 0 goes behind the line if there is room, as a newline if it is a carriage
-- return, and else nothing changes. The line is passed on and the readers are woken exactly at a
-- newline, at control-D or when the ring is full. All other bytes stay as they are, across the
-- wrap of the indices.
pub consoleintr_byte-Keyed : (c : ℕ) (s : Input) → IsRing s → Keyed c s (consoleintr_byte c s)
unfolding consoleintr_byte
consoleintr_byte-Keyed c s ring = elim (Bool-cases (c == ctrl_p)) [
  | inl p ↦ rw p refl
  | inr np ↦ elim (Bool-cases (c == ctrl_u)) [
    | inl u ↦ rw (np, u) (refl, kill_line-IsEdited s ring)
    | inr nu ↦ elim (Bool-cases (c == ctrl_h || c == 127)) [
      | inl h ↦ rw (np, nu, h) (refl, backspace-IsEdited s ring)
      | inr nh ↦ subst (Keyed c s) (dispatch np nu nh) (default_lem c s ring np nu nh)
    ]
  ]
]
  where
    dispatch :
        (c == ctrl_p) ≡ false
        → (c == ctrl_u) ≡ false
        → (c == ctrl_h || c == 127) ≡ false
        → type_byte c s ≡ consoleintr_byte c s
    dispatch np nu nh = rw (np, nu, nh) refl

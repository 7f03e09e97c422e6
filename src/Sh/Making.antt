-- ===== src/Sh/Making.antt =====
-- sh.c: `getJob`, with the `strcpy` of the line.
use osce.Prelude.{
  ℕ, zero, suc, ◌+◌, ◌-◌, leb, ◌&&◌, ◌≡◌, ◌≢◌, refl, sym, ◌∙◌, ap, true, false, some, ◌==◌,
  if◌then◌else◌, arith, done, Bool-cases, inl, inr,
}
use osce.Sh.Lexer.{Line}
use osce.Sh.Jobs.{Job, Store, Heap, foreground, put, copy_text, get_job}
use osce.Sh.Chains.{put-same, put-other, nonzero}
use osce.Sh.Words.{IsLine}

-- `g` is `h` but for the job at `a`, which is `j`.
pub record IsPut (h g : Store Job) (a : ℕ) (j : Job) : Type 0 where
  pub at : g a ≡ some j
  pub off : (x : ℕ) → x ≢ a → g x ≡ h x

pub put-IsPut :
    (h g : Store Job) (a : ℕ) (j k : Job) → IsPut h g a j → IsPut h (put a (some k) g) a k
put-IsPut h g a j k ok = record {
  at = put-same a (some k) g;
  off = λ x ne. put-other a x (some k) g (λ q. ne (sym q)) ∙ ok.off x ne;
}

-- The line and its 0 stand at `text`, and every other byte is as before.
abbrev pub Stored : ℕ → Line → ℕ → (ℕ → ℕ) → (ℕ → ℕ) → Type 0
Stored text b es old bytes =
    (a : ℕ) → bytes a ≡ (if leb text a && leb a (text + es) then b (a - text) else old a)

-- `strcpy` of a string copies it with its 0.
copy_text-Stored :
    (b : Line) (es n i to : ℕ) (bytes : ℕ → ℕ)
    → IsLine b es
    → i + n ≡ es
    → (bytes' : ℕ → ℕ) × (copy_text (suc n) b i to bytes ≡ done bytes')
      × ((a : ℕ) → bytes' a ≡ (if leb to a && leb a (to + n) then b (i + (a - to)) else bytes a))
unfolding copy_text
copy_text-Stored b es zero i to bytes line e =
    let last : (b i == 0) ≡ true = ground (arith, line.end) in
    (
      (λ a. if a == to then b i else bytes a),
      rw last refl,
      λ a. elim (Bool-cases (a == to)) [
        | inl at ↦
            let g : (leb to a && leb a (to + 0)) ≡ true = ground arith in
            let k : i + (a - to) ≡ i = ground arith in rw (at, g, k) refl
        | inr off ↦ let g : (leb to a && leb a (to + 0)) ≡ false = ground arith in rw (off, g) refl
      ],
    )
copy_text-Stored b es (suc n) i to bytes line e =
    let stored : ℕ → ℕ = λ a. if a == to then b i else bytes a in
    let more : (b i == 0) ≡ false = ground (arith, line.full i) in
    let (bytes', run, ok) = copy_text-Stored b es n (i + 1) (to + 1) stored line (omega arith) in
    (
      bytes',
      rw more run,
      λ a. ok a ∙ elim (Bool-cases (a == to)) [
        | inl at ↦
            let g : (leb to a && leb a (to + suc n)) ≡ true = ground arith in
            let g2 : (leb (to + 1) a && leb a (to + 1 + n)) ≡ false = ground arith in
            let k : i + (a - to) ≡ i = ground arith in rw (at, g, g2, k) refl
        | inr off ↦ elim (Bool-cases (leb (to + 1) a && leb a (to + 1 + n))) [
          | inl inside ↦
              let g : (leb to a && leb a (to + suc n)) ≡ true = ground arith in
              let k : i + 1 + (a - (to + 1)) ≡ i + (a - to) = ground arith in rw (inside, g, k) refl
          | inr outside ↦
              let g : (leb to a && leb a (to + suc n)) ≡ false = ground arith in
              rw (off, outside, g) refl
        ]
      ],
    )

-- `newJob` as `getJob` returns it.
abbrev pub fresh_job : ℕ → ℕ → ℕ → Job
fresh_job id input_fd text = record {
  id = id;
  next = 0;
  processes = 0;
  in_fd = input_fd;
  kind = foreground;
  cmd = text;
}

-- `getJob` with addresses that are not NULL.
pub get_job_lem :
    (new text id input_fd : ℕ) (b : Line) (es : ℕ) (h : Heap)
    → new ≢ 0
    → text ≢ 0
    → IsLine b es
    → (g : Heap) × (get_job new text id input_fd b es h ≡ done g)
      × IsPut h.jobs g.jobs new (fresh_job id input_fd text)
      × (g.processes ≡ h.processes)
      × Stored text b es h.bytes g.bytes
      × (g.texts text ≡ some es)
unfolding get_job
get_job_lem new text id input_fd b es h nz tz line =
    let (bytes, run, ok) = copy_text-Stored b es es 0 text h.bytes line (omega arith) in
    let j = fresh_job id input_fd text in
    (
      record h {
        jobs = put new (some j) h.jobs;
        texts = put text (some es) h.texts;
        bytes = bytes;
      },
      rw (nonzero new nz, nonzero text tz, run) refl,
      record {
        at = put-same new (some j) h.jobs;
        off = λ x ne. put-other new x (some j) h.jobs (λ q. ne (sym q));
      },
      refl,
      λ a.
          let z : 0 + (a - text) ≡ a - text = omega arith in
          ok a ∙ ap (λ k. if leb text a && leb a (text + es) then b k else h.bytes a) z,
      put-same text (some es) h.texts,
    )

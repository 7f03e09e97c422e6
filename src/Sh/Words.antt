-- ===== src/Sh/Words.antt =====
-- sh.c: what `gettoken` and `peek` find in a line.
use osce.Prelude.{
  ℕ, zero, suc, ◌+◌, ◌-◌, ◌<◌, ◌≤◌, ◌≡◌, ◌≢◌, refl, sym, ◌∙◌, ap, Bool, true, false, not, ◌&&◌,
  List, ◌==◌, arith, Bool-cases, inl, inr,
}
use osce.Ulib.{strchr}
use osce.Sh.Lexer.{
  Line, whitespace, symbols, is_in, skip_from, skip, word_from, Token, word_tok, is_single,
  token_at, gettoken, peek,
}

-- The line ends at `es` with its first 0.
pub record IsLine (b : Line) (es : ℕ) : Type 0 where
  pub end : b es ≡ 0
  pub full : (j : ℕ) → j < es → b j ≢ 0

-- A byte of a word.
abbrev pub is_word : ℕ → Bool
is_word c = not (is_in whitespace c) && not (is_in symbols c)

-- A word from `q` up to `e`, where it ends.
pub record IsWord (b : Line) (es q e : ℕ) : Type 0 where
  pub some_ : q < e
  pub inside : e ≤ es
  pub bytes : (j : ℕ) → q ≤ j → j < e → is_word (b j) ≡ true
  pub stop : e < es → is_word (b e) ≡ false

skip_from-bounds :
    (b : Line) (n s : ℕ)
    → (s ≤ skip_from b n s)
      × (skip_from b n s ≤ s + n)
      × (skip_from b n s < s + n → is_in whitespace (b (skip_from b n s)) ≡ false)
unfolding skip_from
skip_from-bounds b zero s = (omega arith, omega arith, λ lt. absurd (omega arith))
skip_from-bounds b (suc n) s = elim (Bool-cases (is_in whitespace (b s))) [
  | inl white ↦
      let (lo, hi, stop) = skip_from-bounds b n (s + 1) in
      rw white (omega arith, omega arith, λ lt. stop (omega arith))
  | inr black ↦ rw black (omega arith, omega arith, λ _. black)
]

from_first :
    (p : ℕ → Bool) (s r : ℕ)
    → p s ≡ true
    → ((j : ℕ) → s + 1 ≤ j → j < r → p j ≡ true)
    → (j : ℕ) → s ≤ j
    → j < r
    → p j ≡ true
from_first p s r first rest j lo hi = elim (Bool-cases (j == s)) [
  | inl here ↦ let e : j ≡ s = ground arith in ap p e ∙ first
  | inr there ↦ rest j (ground arith) hi
]

word_from-bounds :
    (b : Line) (n s : ℕ)
    → (s ≤ word_from b n s)
      × (word_from b n s ≤ s + n)
      × ((j : ℕ) → s ≤ j → j < word_from b n s → is_word (b j) ≡ true)
      × (word_from b n s < s + n → is_word (b (word_from b n s)) ≡ false)
unfolding word_from
word_from-bounds b zero s =
    (omega arith, omega arith, λ j lo hi. absurd (omega arith), λ lt. absurd (omega arith))
word_from-bounds b (suc n) s = elim (Bool-cases (is_word (b s))) [
  | inl word ↦
      let (lo, hi, bytes, stop) = word_from-bounds b n (s + 1) in
      rw word (
        omega arith,
        omega arith,
        from_first (λ j. is_word (b j)) s _ word bytes,
        λ lt. stop (omega arith),
      )
  | inr other ↦ rw other (omega arith, omega arith, λ j lo hi. absurd (omega arith), λ _. other)
]

symbols_split : (c : ℕ) → is_single c ≡ false → (c == 62) ≡ false → is_in symbols c ≡ false
unfolding is_in strchr
symbols_split c single angle = ground arith

-- What `gettoken` returns: it stays in the line, passes at least the token, and a word is a word.
pub record IsToken (b : Line) (es s : ℕ) (t : Token) : Type 0 where
  pub from : s ≤ t.ps
  pub to : t.ps ≤ es
  pub passes : t.tok ≢ 0 → s < t.ps
  pub none_ : t.tok ≡ 0 → b t.q ≡ 0
  pub start : (s ≤ t.q) × (t.q ≤ t.ps)
  pub word : t.tok ≡ word_tok → IsWord b es t.q t.eq_

module _ (b : Line) (es : ℕ) (line : IsLine b es) where
  skip-bounds :
      (s : ℕ)
      → s ≤ es
      → (s ≤ skip b es s)
        × (skip b es s ≤ es)
        × (skip b es s < es → is_in whitespace (b (skip b es s)) ≡ false)
  unfolding skip
  skip-bounds s le =
      let (lo, hi, stop) = skip_from-bounds b (es - s) s in
      (lo, omega arith, λ lt. stop (omega arith))

  before_end : (s : ℕ) → s ≤ es → b s ≢ 0 → s < es
  before_end s le ne = elim (Bool-cases (s == es)) [
    | inl at ↦ let e : s ≡ es = ground arith in absurd (ne (ap b e ∙ line.end))
    | inr off ↦ ground arith
  ]

  passes_word :
      (s : ℕ)
      → s < es
      → is_in whitespace (b s) ≡ false
      → is_in symbols (b s) ≡ false
      → s < word_from b (es - s) s
  passes_word s lt black plain =
      let (lo, hi, bytes, stop) = word_from-bounds b (es - s) s in
      let first : is_word (b s) ≡ true = ground (arith, black, plain) in
      elim (Bool-cases (word_from b (es - s) s == s)) [
        | inl at ↦
            let e : word_from b (es - s) s ≡ s = ground arith in
            absurd (cc (stop (omega arith), ap (λ j. is_word (b j)) e, first))
        | inr off ↦ ground (arith, lo)
      ]

  -- At `s`, behind white space.
  abbrev TokenAt : ℕ → ℕ × ℕ → Type 0
  TokenAt s (tok, e) =
      (s ≤ e)
      × (e ≤ es)
      × (tok ≢ 0 → s < e)
      × (tok ≡ 0 → b s ≡ 0)
      × (tok ≡ word_tok → IsWord b es s e)

  token_at-TokenAt :
      (s : ℕ) → s ≤ es → (s < es → is_in whitespace (b s) ≡ false) → TokenAt s (token_at b es s)
  unfolding token_at
  token_at-TokenAt s le black = elim (Bool-cases (b s == 0)) [
    | inl end ↦
        rw end (
          omega arith,
          le,
          λ ne. absurd (ne refl),
          λ _. ground arith,
          λ e. absurd (omega (arith, e)),
        )
    | inr more ↦
        let lt = before_end s le (ground arith) in
        elim (Bool-cases (is_single (b s))) [
          | inl one ↦
              rw (more, one)
                (omega arith, omega arith, λ _. omega arith, λ e. e, λ e. absurd (ground arith))
          | inr none_ ↦ elim (Bool-cases (b s == 62)) [
            | inl angle ↦ elim (Bool-cases (b (s + 1) == 62)) [
              | inl twice ↦
                  let lt2 = before_end (s + 1) (omega arith) (ground arith) in
                  rw (more, none_, angle, twice)
                    (
                      omega arith,
                      omega arith,
                      λ _. omega arith,
                      λ e. absurd (omega (arith, e)),
                      λ e. absurd (omega (arith, e)),
                    )
              | inr once ↦
                  rw (more, none_, angle, once)
                    (
                      omega arith,
                      omega arith,
                      λ _. omega arith,
                      λ e. absurd (omega (arith, e)),
                      λ e. absurd (omega (arith, e)),
                    )
            ]
            | inr other ↦
                let (lo, hi, bytes, stop) = word_from-bounds b (es - s) s in
                let moved = passes_word s lt (black lt) (symbols_split (b s) none_ other) in
                rw (more, none_, other)
                  (
                    lo,
                    omega arith,
                    λ _. moved,
                    λ e. absurd (omega (arith, e)),
                    λ _. record {
                      some_ = moved;
                      inside = omega arith;
                      bytes = bytes;
                      stop = λ lt'. stop (omega arith);
                    },
                  )
          ]
        ]
  ]

  pub gettoken-IsToken : (s : ℕ) → s ≤ es → IsToken b es s (gettoken b es s)
  unfolding gettoken
  gettoken-IsToken s le =
      let (lo, hi, black) = skip-bounds s le in
      let (lo2, hi2, passes, none_, word) = token_at-TokenAt (skip b es s) hi black in
      let (lo3, hi3, _) = skip-bounds (token_at b es (skip b es s)).1 hi2 in
      record {
        from = omega arith;
        to = omega arith;
        passes = λ ne. omega (arith, passes ne);
        none_ = none_;
        start = (lo, omega arith);
        word = word;
      }

  -- `gettoken` at a byte that is not 0 passes it.
  pub gettoken_moves : (s : ℕ) → s ≤ es → b s ≢ 0 → s < (gettoken b es s).ps
  gettoken_moves s le ne =
      let t = gettoken-IsToken s le in
      elim (Bool-cases ((gettoken b es s).tok == 0)) [
        | inl none_ ↦ elim (Bool-cases ((gettoken b es s).q == s)) [
          | inl at ↦
              let e : (gettoken b es s).q ≡ s = ground arith in
              absurd (ne (ap b (sym e) ∙ t.none_ (ground arith)))
          | inr off ↦ ground (arith, t.start)
        ]
        | inr some_ ↦ t.passes (ground arith)
      ]

  -- `peek` stays in the line, and what it finds is not the end.
  pub peek-bounds :
      (s : ℕ) (toks : List ℕ)
      → s ≤ es
      → (s ≤ (peek b es s toks).0)
        × ((peek b es s toks).0 ≤ es)
        × ((peek b es s toks).1 ≡ true → b (peek b es s toks).0 ≢ 0)
  unfolding peek
  peek-bounds s toks le =
      let (lo, hi, _) = skip-bounds s le in (lo, hi, λ hit e. ground (arith, hit, e))

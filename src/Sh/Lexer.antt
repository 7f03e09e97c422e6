-- ===== src/Sh/Lexer.antt =====
-- sh.c, `gettoken` and `peek`. A pointer into the line is its index, `es` the index of the last 0.
use osce.Prelude.{
  ℕ, zero, suc, ◌+◌, ◌-◌, Bool, not, ◌&&◌, ◌||◌, is_some, List, [], ◌∷◌, ◌==◌, if◌then◌else◌,
}
use osce.Ulib.{strchr}

abbrev pub Line : Type 0
Line = ℕ → ℕ

abbrev pub whitespace : List ℕ
whitespace = 32 ∷ 9 ∷ 13 ∷ 10 ∷ 11 ∷ []

abbrev pub symbols : List ℕ
symbols = 60 ∷ 124 ∷ 62 ∷ 38 ∷ 59 ∷ 40 ∷ 41 ∷ []

-- `strchr(toks, c) != 0`
unfoldable pub is_in : List ℕ → ℕ → Bool
unfolding strchr
is_in toks c = is_some (strchr toks c)

-- `while(s < es && strchr(whitespace, *s)) s++;`, with `n` bytes before `es`
unfoldable pub skip_from : Line → ℕ → ℕ → ℕ
unfolding is_in
skip_from b zero s = s
skip_from b (suc n) s =
    let rest = skip_from b n (s + 1) in if is_in whitespace (b s) then rest else s

unfoldable pub skip : Line → ℕ → ℕ → ℕ
unfolding skip_from
skip b es s = skip_from b (es - s) s

-- The loop over a word, with `n` bytes before `es`.
unfoldable pub word_from : Line → ℕ → ℕ → ℕ
unfolding is_in
word_from b zero s = s
word_from b (suc n) s =
    let rest = word_from b n (s + 1) in
    if not (is_in whitespace (b s)) && not (is_in symbols (b s)) then rest else s

-- What `gettoken` returns and stores: the token, `*q`, `*eq` and `*ps`.
pub record Token : Type 0 where
  pub tok : ℕ
  pub q : ℕ
  pub eq_ : ℕ
  pub ps : ℕ

-- The bytes `a` and `+`, which stand for a word and for `>>`.
abbrev pub word_tok : ℕ
word_tok = 97

abbrev pub append_tok : ℕ
append_tok = 43

-- `|`, `(`, `)`, `;`, `&` and `<`
abbrev pub is_single : ℕ → Bool
is_single c = c == 124 || c == 40 || c == 41 || c == 59 || c == 38 || c == 60

-- The `switch` of `gettoken` at `s`: the token, and the place behind it.
unfoldable pub token_at : Line → ℕ → ℕ → ℕ × ℕ
unfolding word_from
token_at b es s =
    if b s == 0
    then (0, s)
    else if is_single (b s)
    then (b s, s + 1)
    else if b s == 62
    then (if b (s + 1) == 62 then (append_tok, s + 2) else (62, s + 1))
    else (word_tok, word_from b (es - s) s)

unfoldable pub gettoken : Line → ℕ → ℕ → Token
unfolding skip token_at
gettoken b es ps =
    let s = skip b es ps in
    let t = token_at b es s in record { tok = t.0; q = s; eq_ = t.1; ps = skip b es t.1 }

-- The new `*ps`, and whether the next token starts with one of `toks`.
unfoldable pub peek : Line → ℕ → ℕ → List ℕ → ℕ × Bool
unfolding skip is_in
peek b es ps toks = let s = skip b es ps in (s, not (b s == 0) && is_in toks (b s))

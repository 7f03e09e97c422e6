-- ===== src/Grep.antt =====
-- grep.c: the matcher for patterns of ^ . * and $. A string is the list of its bytes, without the 0.
pub mod Pattern
pub mod Match
mod Tests
use osce.Prelude.{ℕ, Bool, true, false, ◌&&◌, ◌||◌, List, [], ◌∷◌, ◌==◌, if◌then◌else◌}

-- The bytes `^`, `$`, `.` and `*`.
abbrev pub caret : ℕ
caret = 94

abbrev pub dollar : ℕ
dollar = 36

abbrev pub dot : ℕ
dot = 46

abbrev pub asterisk : ℕ
asterisk = 42

-- `matchstar`, on the `matchhere` of its pattern.
unfoldable pub matchstar : (List ℕ → Bool) → ℕ → List ℕ → Bool
matchstar here c [] = here []
matchstar here c (x ∷ text) = here (x ∷ text) || ((x == c || c == dot) && matchstar here c text)

-- The last two lines of `matchhere`.
abbrev pub matchbyte : (List ℕ → Bool) → ℕ → List ℕ → Bool
matchbyte here c [] = false
matchbyte here c (x ∷ text) = (c == dot || c == x) && here text

abbrev pub at_end : List ℕ → Bool
at_end [] = true
at_end (x ∷ text) = false

unfoldable pub matchhere : List ℕ → List ℕ → Bool
unfolding matchstar
matchhere [] text = true
matchhere (c ∷ []) text = if c == dollar then at_end text else matchbyte (λ rest. true) c text
matchhere (c ∷ d ∷ re) text =
    if d == asterisk then matchstar (matchhere re) c text else matchbyte (matchhere (d ∷ re)) c text

-- The loop of `match`.
unfoldable pub match_from : List ℕ → List ℕ → Bool
unfolding matchhere
match_from re [] = matchhere re []
match_from re (x ∷ text) = matchhere re (x ∷ text) || match_from re text

unfoldable pub match : List ℕ → List ℕ → Bool
unfolding match_from
match [] text = match_from [] text
match (c ∷ re) text = if c == caret then matchhere re text else match_from (c ∷ re) text

-- ===== src/Grep/Tests.antt =====
-- Runs of the matcher (grep.c).
use osce.Prelude.{ℕ, ◌≡◌, ◌↔◌, true, List, [], ◌∷◌}
use osce.Grep.{match}
use osce.Grep.Pattern.{Means}
use osce.Grep.Match.{match-Means}

-- "^a.*$" and "abc"
abbrev pattern_ : List ℕ
pattern_ = 94 ∷ 97 ∷ 46 ∷ 42 ∷ 36 ∷ []

abbrev abc : List ℕ
abc = 97 ∷ 98 ∷ 99 ∷ []

match-Means_example : (match pattern_ abc ≡ true) ↔ Means pattern_ abc
match-Means_example = match-Means pattern_ abc

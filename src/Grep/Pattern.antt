-- ===== src/Grep/Pattern.antt =====
-- What the patterns of grep.c mean, apart from how the matcher searches.
use osce.Prelude.{ℕ, ◌≡◌, Bool, true, ◌||◌, List, [], ◌∷◌, ◌++◌, ◌==◌, if◌then◌else◌}
use osce.Grep.{caret, dollar, dot, asterisk}

pub data Item : Type 0 where
  one : ℕ → Item
  many : ℕ → Item
  stop : Item

abbrev pub accepts : ℕ → ℕ → Bool
accepts c x = c == dot || c == x

-- The items of a pattern without its `^`.
abbrev pub items : List ℕ → List Item
items [] = []
items (c ∷ []) = if c == dollar then stop ∷ [] else one c ∷ []
items (c ∷ d ∷ re) = if d == asterisk then many c ∷ items re else one c ∷ items (d ∷ re)

-- The items match at the beginning of the text.
pub data Matches : List Item → List ℕ → Type 0 where
  empty : (text : List ℕ) → Matches [] text
  ends : (is : List Item) → Matches (stop ∷ is) []
  byte :
      {c x : ℕ} {is : List Item} {text : List ℕ}
      → accepts c x ≡ true
      → Matches is text
      → Matches (one c ∷ is) (x ∷ text)
  leave : {c : ℕ} {is : List Item} {text : List ℕ} → Matches is text → Matches (many c ∷ is) text
  take :
      {c x : ℕ} {is : List Item} {text : List ℕ}
      → accepts c x ≡ true
      → Matches (many c ∷ is) text
      → Matches (many c ∷ is) (x ∷ text)

-- A pattern occurs in a text: at its beginning after a `^`, and else behind any prefix.
abbrev pub Occurs : List ℕ → List ℕ → Type 0
Occurs re text = (pre : List ℕ) × (rest : List ℕ) × (text ≡ pre ++ rest) × Matches (items re) rest

abbrev pub Means : List ℕ → List ℕ → Type 0
Means [] text = Occurs [] text
Means (c ∷ re) text = if c == caret then Matches (items re) text else Occurs (c ∷ re) text

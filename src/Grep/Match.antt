-- ===== src/Grep/Match.antt =====
-- The matcher of grep.c decides what a pattern means.
use osce.Prelude.{
  ℕ, ◌≡◌, refl, ap, Bool, true, ◌&&◌, ◌||◌, List, [], ◌∷◌, ◌==◌, ◌⊎◌, inl, inr, ◌↔◌, Bool-cases,
  arith,
}
use osce.Grep.{
  caret, dollar, dot, asterisk, matchstar, matchbyte, at_end, matchhere, match_from, match,
}
use osce.Grep.Pattern.{
  Item, one, many, stop, accepts, items, Matches, empty, ends, byte, leave, take, Occurs, Means,
}

stop_inv : {is : List Item} (text : List ℕ) → Matches (stop ∷ is) text → at_end text ≡ true
stop_inv [] (ends is) = refl
stop_inv (x ∷ text) m = elim m [ ]

one_inv :
    {c x : ℕ} {is : List Item} {text : List ℕ}
    → Matches (one c ∷ is) (x ∷ text)
    → (accepts c x ≡ true) × Matches is text
one_inv (byte ok m) = (ok, m)

one_empty : {c : ℕ} {is : List Item} → ¬ Matches (one c ∷ is) []
one_empty m = elim m [ ]

many_inv :
    {c x : ℕ} {is : List Item} {text : List ℕ}
    → Matches (many c ∷ is) (x ∷ text)
    → Matches is (x ∷ text) ⊎ ((accepts c x ≡ true) × Matches (many c ∷ is) text)
many_inv (leave m) = inl m
many_inv (take ok m) = inr (ok, m)

many_empty : {c : ℕ} {is : List Item} → Matches (many c ∷ is) [] → Matches is []
many_empty (leave m) = m

-- One step of `matchstar`.
star_step :
    (here : List ℕ → Bool) (is : List Item)
    → ((t : List ℕ) → (here t ≡ true) ↔ Matches is t)
    → (c x : ℕ) (text : List ℕ) → (matchstar here c text ≡ true) ↔ Matches (many c ∷ is) text
    → ((here (x ∷ text) || ((x == c || c == dot) && matchstar here c text)) ≡ true)
      ↔ Matches (many c ∷ is) (x ∷ text)
star_step here is h c x text ih = (
  λ e. elim (Bool-cases (here (x ∷ text))) [
    | inl now ↦ leave ((h (x ∷ text)).0 now)
    | inr later ↦ take (ground arith) (ih.0 (ground arith))
  ],
  λ m. back (many_inv m),
)
  where
    back :
        Matches is (x ∷ text) ⊎ ((accepts c x ≡ true) × Matches (many c ∷ is) text)
        → (here (x ∷ text) || ((x == c || c == dot) && matchstar here c text)) ≡ true
    back (inl m) = let e = (h (x ∷ text)).1 m in ground arith
    back (inr (ok, m)) = let e = ih.1 m in ground arith

-- A matcher that decides `is` gives one that decides a repetition before it.
matchstar-Matches :
    (here : List ℕ → Bool) (is : List Item)
    → ((t : List ℕ) → (here t ≡ true) ↔ Matches is t)
    → (c : ℕ) (text : List ℕ) → (matchstar here c text ≡ true) ↔ Matches (many c ∷ is) text
unfolding matchstar
matchstar-Matches here is h c [] = (λ e. leave ((h []).0 e), λ m. (h []).1 (many_empty m))
matchstar-Matches here is h c (x ∷ text) =
    star_step here is h c x text (matchstar-Matches here is h c text)

matchbyte-Matches :
    (here : List ℕ → Bool) (is : List Item)
    → ((t : List ℕ) → (here t ≡ true) ↔ Matches is t)
    → (c : ℕ) (text : List ℕ) → (matchbyte here c text ≡ true) ↔ Matches (one c ∷ is) text
matchbyte-Matches here is h c [] = (λ e. ground arith, λ m. absurd (one_empty m))
matchbyte-Matches here is h c (x ∷ text) = (
  λ e. byte (ground arith) ((h text).0 (ground arith)),
  λ m. let ok = (one_inv m).0 in let e = (h text).1 (one_inv m).1 in ground arith,
)

at_end-Matches : (text : List ℕ) → (at_end text ≡ true) ↔ Matches (stop ∷ []) text
at_end-Matches [] = (λ e. ends [], λ m. refl)
at_end-Matches (x ∷ text) = (λ e. ground arith, λ m. stop_inv (x ∷ text) m)

pub matchhere-Matches : (re text : List ℕ) → (matchhere re text ≡ true) ↔ Matches (items re) text
unfolding matchhere
matchhere-Matches [] text = (λ e. empty text, λ m. refl)
matchhere-Matches (c ∷ []) text = elim (Bool-cases (c == dollar)) [
  | inl at ↦ rw at (at_end-Matches text)
  | inr off ↦ rw off (matchbyte-Matches (λ rest. true) [] (λ t. (λ e. empty t, λ m. refl)) c text)
]
matchhere-Matches (c ∷ d ∷ re) text = elim (Bool-cases (d == asterisk)) [
  | inl at ↦
      rw at (matchstar-Matches (matchhere re) (items re) (λ t. matchhere-Matches re t) c text)
  | inr off ↦ rw off (
      matchbyte-Matches (matchhere (d ∷ re)) (items (d ∷ re)) (λ t. matchhere-Matches (d ∷ re) t) c
        text)
]

Occurs-nil : (re : List ℕ) → Occurs re [] → Matches (items re) []
Occurs-nil re ([], rest, e, m) = rw e m
Occurs-nil re (y ∷ pre, rest, e, m) = ground arith

Occurs-cons :
    (re : List ℕ) (x : ℕ) (text : List ℕ)
    → Occurs re (x ∷ text)
    → Matches (items re) (x ∷ text) ⊎ Occurs re text
Occurs-cons re x text ([], rest, e, m) = inl (rw e m)
Occurs-cons re x text (y ∷ pre, rest, e, m) = inr (pre, rest, ground arith, m)

from_step :
    (re : List ℕ) (x : ℕ) (text : List ℕ)
    → (match_from re text ≡ true) ↔ Occurs re text
    → ((matchhere re (x ∷ text) || match_from re text) ≡ true) ↔ Occurs re (x ∷ text)
from_step re x text ih = (
  λ e. elim (Bool-cases (matchhere re (x ∷ text))) [
    | inl now ↦ ([], x ∷ text, refl, here.0 now)
    | inr later ↦
        let (pre, rest, s, m) = ih.0 (ground arith) in (x ∷ pre, rest, ap (λ l. x ∷ l) s, m)
  ],
  λ o. back (Occurs-cons re x text o),
)
  where
    here : (matchhere re (x ∷ text) ≡ true) ↔ Matches (items re) (x ∷ text)
    here = matchhere-Matches re (x ∷ text)

    back :
        Matches (items re) (x ∷ text) ⊎ Occurs re text
        → (matchhere re (x ∷ text) || match_from re text) ≡ true
    back (inl m) = let e = here.1 m in ground arith
    back (inr o) = let e = ih.1 o in ground arith

match_from-Occurs : (re text : List ℕ) → (match_from re text ≡ true) ↔ Occurs re text
unfolding match_from
match_from-Occurs re [] = (
  λ e. ([], [], refl, (matchhere-Matches re []).0 e),
  λ o. (matchhere-Matches re []).1 (Occurs-nil re o),
)
match_from-Occurs re (x ∷ text) = from_step re x text (match_from-Occurs re text)

-- `match` decides the meaning of a pattern: it returns true exactly when the items of the
-- pattern, of which each is a byte or `.`, starred or not, with `$` as a last item, match the
-- text at some place, or at its start if the pattern begins with `^`.
pub match-Means : (re text : List ℕ) → (match re text ≡ true) ↔ Means re text
unfolding match
match-Means [] text = match_from-Occurs [] text
match-Means (c ∷ re) text = elim (Bool-cases (c == caret)) [
  | inl at ↦ rw at (matchhere-Matches re text)
  | inr off ↦ rw off (match_from-Occurs (c ∷ re) text)
]

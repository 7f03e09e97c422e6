-- ===== src/Sh/Strings.antt =====
-- sh.c: all strings of a command, and where they end.
use osce.Prelude.{
  ℕ, ◌<◌, ◌≡◌, ap, true, false, ◌||◌, List, [], ◌∷◌, ◌++◌, length, ◌==◌, arith, Bool-cases, inl,
  inr,
}
use osce.Sh.Lexer.{Line, append_tok}
use osce.Sh.Words.{is_word}
use osce.Sh.Parser.{
  Slice, Redir, Cmd, exec, redir, pipe, list, back, maxargs, redirs_of, add_redirs, end_at,
  end_args, nulterminate,
}

-- All strings of a command satisfy `P`, and no command has too many arguments.
abbrev pub AllArgs : (Slice → Type 0) → List Slice → Type 0
AllArgs P [] = Unit
AllArgs P (a ∷ args) = P a × AllArgs P args

abbrev pub AllFiles : (Slice → Type 0) → List Redir → Type 0
AllFiles P [] = Unit
AllFiles P (r ∷ rs) = P r.file × AllFiles P rs

abbrev pub AllStrings : (Slice → Type 0) → Cmd → Type 0
AllStrings P (exec args) = (length args < maxargs) × AllArgs P args
AllStrings P (redir c r) = AllStrings P c × P r.file
AllStrings P (pipe l r) = AllStrings P l × AllStrings P r
AllStrings P (list l r) = AllStrings P l × AllStrings P r
AllStrings P (back c) = AllStrings P c

module _ (P Q : Slice → Type 0) (f : (a : Slice) → P a → Q a) where
  pub AllArgs-mono : (args : List Slice) → AllArgs P args → AllArgs Q args
  AllArgs-mono [] all = tt
  AllArgs-mono (a ∷ args) (p, all) = (f a p, AllArgs-mono args all)

  pub AllStrings-mono : (c : Cmd) → AllStrings P c → AllStrings Q c
  AllStrings-mono (exec args) (few, all) = (few, AllArgs-mono args all)
  AllStrings-mono (redir c r) (all, p) = (AllStrings-mono c all, f r.file p)
  AllStrings-mono (pipe l r) (all, all') = (AllStrings-mono l all, AllStrings-mono r all')
  AllStrings-mono (list l r) (all, all') = (AllStrings-mono l all, AllStrings-mono r all')
  AllStrings-mono (back c) all = AllStrings-mono c all

module _ (P Q R : Slice → Type 0) (f : (a : Slice) → P a → Q a → R a) where
  AllArgs-both : (args : List Slice) → AllArgs P args → AllArgs Q args → AllArgs R args
  AllArgs-both [] p q = tt
  AllArgs-both (a ∷ args) (p, ps) (q, qs) = (f a p q, AllArgs-both args ps qs)

  pub AllStrings-both : (c : Cmd) → AllStrings P c → AllStrings Q c → AllStrings R c
  AllStrings-both (exec args) (few, p) (_, q) = (few, AllArgs-both args p q)
  AllStrings-both (redir c r) (p, pr) (q, qr) = (AllStrings-both c p q, f r.file pr qr)
  AllStrings-both (pipe l r) (p, pr) (q, qr) = (AllStrings-both l p q, AllStrings-both r pr qr)
  AllStrings-both (list l r) (p, pr) (q, qr) = (AllStrings-both l p q, AllStrings-both r pr qr)
  AllStrings-both (back c) p q = AllStrings-both c p q

module _ (P : Slice → Type 0) where
  pub AllArgs-snoc :
      (args : List Slice) (a : Slice) → AllArgs P args → P a → AllArgs P (args ++ a ∷ [])
  AllArgs-snoc [] a all p = (p, tt)
  AllArgs-snoc (x ∷ args) a (px, all) p = (px, AllArgs-snoc args a all p)

  pub AllFiles-++ : (rs rs' : List Redir) → AllFiles P rs → AllFiles P rs' → AllFiles P (rs ++ rs')
  AllFiles-++ [] rs' all all' = all'
  AllFiles-++ (r ∷ rs) rs' (p, all) all' = (p, AllFiles-++ rs rs' all all')

  pub AllFiles-redirs_of : (tok : ℕ) (file : Slice) → P file → AllFiles P (redirs_of tok file)
  AllFiles-redirs_of tok file p = elim (Bool-cases (tok == 60)) [
    | inl in_ ↦ rw in_ (p, tt)
    | inr out ↦ elim (Bool-cases (tok == 62 || tok == append_tok)) [
      | inl on ↦ rw (out, on) (p, tt)
      | inr off ↦ rw (out, off) tt
    ]
  ]

  pub AllStrings-add_redirs :
      (c : Cmd) (rs : List Redir) → AllStrings P c → AllFiles P rs → AllStrings P (add_redirs c rs)
  unfolding add_redirs
  AllStrings-add_redirs c [] all files = all
  AllStrings-add_redirs c (r ∷ rs) all (p, files) =
      AllStrings-add_redirs (redir c r) rs (all, p) files

-- The line as far as `b` has words, with some bytes between them set to 0.
abbrev pub SameWords : Line → ℕ → Line → Type 0
SameWords b es d = (j : ℕ) → j < es → is_word (b j) ≡ true → d j ≡ b j

-- A string ends at the end of a word.
abbrev pub Stops : Line → ℕ → Slice → Type 0
Stops b es a = a.1 < es → is_word (b a.1) ≡ false

SameWords-end_at :
    (b : Line) (es : ℕ) (a : Slice) (d : Line)
    → Stops b es a
    → SameWords b es d
    → SameWords b es (end_at a.1 d)
SameWords-end_at b es a d stop same j lt word = elim (Bool-cases (a.1 == j)) [
  | inl at ↦
      let e : a.1 ≡ j = ground arith in
      absurd (cc (stop (omega (arith, e)), ap (λ i. is_word (b i)) e, word))
  | inr off ↦ rw off (same j lt word)
]

-- What was 0 stays 0.
end_at-zero : (e : ℕ) (d : Line) (j : ℕ) → d j ≡ 0 → end_at e d j ≡ 0
end_at-zero e d j z = ground (arith, z)

end_args-zero : (args : List Slice) (d : Line) (j : ℕ) → d j ≡ 0 → end_args args d j ≡ 0
end_args-zero [] d j z = z
end_args-zero (a ∷ args) d j z = end_args-zero args (end_at a.1 d) j (end_at-zero a.1 d j z)

nulterminate-zero : (c : Cmd) (d : Line) (j : ℕ) → d j ≡ 0 → nulterminate c d j ≡ 0
unfolding nulterminate
nulterminate-zero (exec args) d j z = end_args-zero args d j z
nulterminate-zero (redir c r) d j z =
    end_at-zero r.file.1 (nulterminate c d) j (nulterminate-zero c d j z)
nulterminate-zero (pipe l r) d j z =
    nulterminate-zero r (nulterminate l d) j (nulterminate-zero l d j z)
nulterminate-zero (list l r) d j z =
    nulterminate-zero r (nulterminate l d) j (nulterminate-zero l d j z)
nulterminate-zero (back c) d j z = nulterminate-zero c d j z

-- The string ends in the line `d`.
abbrev pub Ended : Line → Slice → Type 0
Ended d a = d a.1 ≡ 0

end_args-Ended : (args : List Slice) (d : Line) → AllArgs (Ended (end_args args d)) args
end_args-Ended [] d = tt
end_args-Ended (a ∷ args) d =
    (end_args-zero args (end_at a.1 d) a.1 (ground arith), end_args-Ended args (end_at a.1 d))

pub nulterminate-Ended :
    (P : Slice → Type 0) (c : Cmd) (d : Line)
    → AllStrings P c
    → AllStrings (Ended (nulterminate c d)) c
unfolding nulterminate
nulterminate-Ended P (exec args) d (few, _) = (few, end_args-Ended args d)
nulterminate-Ended P (redir c r) d (all, _) = (
  AllStrings-mono (Ended (nulterminate c d)) (Ended (end_at r.file.1 (nulterminate c d)))
      (λ a z. end_at-zero r.file.1 (nulterminate c d) a.1 z) c (nulterminate-Ended P c d all),
  ground arith,
)
nulterminate-Ended P (pipe l r) d (all, all') = (
  AllStrings-mono (Ended (nulterminate l d)) (Ended (nulterminate r (nulterminate l d)))
      (λ a z. nulterminate-zero r (nulterminate l d) a.1 z) l (nulterminate-Ended P l d all),
  nulterminate-Ended P r (nulterminate l d) all',
)
nulterminate-Ended P (list l r) d (all, all') = (
  AllStrings-mono (Ended (nulterminate l d)) (Ended (nulterminate r (nulterminate l d)))
      (λ a z. nulterminate-zero r (nulterminate l d) a.1 z) l (nulterminate-Ended P l d all),
  nulterminate-Ended P r (nulterminate l d) all',
)
nulterminate-Ended P (back c) d all = nulterminate-Ended P c d all

module _ (b : Line) (es : ℕ) where
  end_args-SameWords :
      (args : List Slice) (d : Line)
      → AllArgs (Stops b es) args
      → SameWords b es d
      → SameWords b es (end_args args d)
  end_args-SameWords [] d all same = same
  end_args-SameWords (a ∷ args) d (p, all) same =
      end_args-SameWords args (end_at a.1 d) all (SameWords-end_at b es a d p same)

  pub nulterminate-SameWords :
      (c : Cmd) (d : Line)
      → AllStrings (Stops b es) c
      → SameWords b es d
      → SameWords b es (nulterminate c d)
  unfolding nulterminate
  nulterminate-SameWords (exec args) d (few, all) same = end_args-SameWords args d all same
  nulterminate-SameWords (redir c r) d (all, p) same =
      SameWords-end_at b es r.file (nulterminate c d) p (nulterminate-SameWords c d all same)
  nulterminate-SameWords (pipe l r) d (all, all') same =
      nulterminate-SameWords r (nulterminate l d) all' (nulterminate-SameWords l d all same)
  nulterminate-SameWords (list l r) d (all, all') same =
      nulterminate-SameWords r (nulterminate l d) all' (nulterminate-SameWords l d all same)
  nulterminate-SameWords (back c) d all same = nulterminate-SameWords c d all same

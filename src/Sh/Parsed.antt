-- ===== src/Sh/Parsed.antt =====
-- sh.c: what `parsecmd` makes of a line.
use osce.Prelude.{
  ℕ, zero, suc, ◌+◌, ◌<◌, ◌≤◌, ◌≡◌, ◌≢◌, refl, sym, Bool, true, false, not, List, [], ◌∷◌, ◌++◌,
  length, ◌==◌, leb, Outcome, arith, Ends, Ends-done, Ends-panic, Ends-bind, Ends-if, Ends-mono,
}
use osce.Sh.Lexer.{Line, gettoken, peek, word_tok}
use osce.Sh.Words.{IsLine, IsWord, gettoken-IsToken, gettoken_moves, peek-bounds}
use osce.Sh.Parser.{
  Slice, Redir, Cmd, exec, back, maxargs, parseredirs, parse_args, parse_close, parseblock,
  parseexec, parsepipe, parse_backs, parseline, nulterminate, parsecmd,
}
use osce.Sh.Strings.{
  AllArgs, AllFiles, AllStrings, AllArgs-snoc, AllFiles-++, AllFiles-redirs_of,
  AllStrings-add_redirs, AllStrings-mono, AllStrings-both, Stops, Ended, nulterminate-Ended,
  nulterminate-SameWords,
}

equal : (x y : ℕ) → not (x == y) ≡ false → x ≡ y
equal x y e = ground arith

differ : (x y : ℕ) → (x == y) ≡ false → x ≢ y
differ x y e = ground arith

below : (n : ℕ) → leb maxargs n ≡ false → n < maxargs
below n e = ground arith

holds : (c : Bool) → not c ≡ false → c ≡ true
holds true e = refl
holds false e = sym e

module _ (b : Line) (es : ℕ) (line : IsLine b es) where
  abbrev W : Slice → Type 0
  W (q, e) = IsWord b es q e

  -- The place is in the line and not before `s`; what was read are words.
  abbrev RedirsAt : ℕ → List Redir × ℕ → Type 0
  RedirsAt s (rs, ps) = (s ≤ ps) × (ps ≤ es) × AllFiles W rs

  abbrev ArgsAt : ℕ → List Slice × List Redir × ℕ → Type 0
  ArgsAt s (args, rs, ps) =
      (s ≤ ps) × (ps ≤ es) × (length args < maxargs) × AllArgs W args × AllFiles W rs

  abbrev CmdAt : ℕ → Cmd × ℕ → Type 0
  CmdAt s (c, ps) = (s ≤ ps) × (ps ≤ es) × AllStrings W c

  parseredirs-Ends :
      (fuel s : ℕ) → s ≤ es → es < s + fuel → Ends (RedirsAt s) (parseredirs b es fuel s)
  unfolding parseredirs
  parseredirs-Ends zero s le enough = absurd (omega arith)
  parseredirs-Ends (suc fuel) s le enough =
      let (lo, hi, _) = peek-bounds b es line s (60 ∷ 62 ∷ []) le in
      let p = peek b es s (60 ∷ 62 ∷ []) in
      let t = gettoken-IsToken b es line p.0 hi in
      let f = gettoken-IsToken b es line (gettoken b es p.0).ps t.to in
      Ends-if (RedirsAt s) (not p.1) _ _ (λ _. Ends-done (RedirsAt s) _ (lo, hi, tt))
        (λ _.
          Ends-if (RedirsAt s) (not ((gettoken b es (gettoken b es p.0).ps).tok == word_tok)) _ _
            (λ _. Ends-panic (RedirsAt s))
            (λ is_w.
              let w = equal (gettoken b es (gettoken b es p.0).ps).tok word_tok is_w in
              let on = f.passes (λ z. absurd (omega (arith, w, z))) in
              let lo' = t.from in
              Ends-bind (RedirsAt (gettoken b es (gettoken b es p.0).ps).ps) (RedirsAt s) _ _
                (parseredirs-Ends fuel _ f.to (omega arith))
                (λ (rs, ps') (lo2, hi2, all). Ends-done (RedirsAt s) _ (
                  omega arith,
                  hi2,
                  AllFiles-++ W _ rs (AllFiles-redirs_of W (gettoken b es p.0).tok _ (f.word w))
                      all,
                ))))

  parse_args-Ends :
      (fuel : ℕ) (args : List Slice) (rs : List Redir) (s : ℕ)
      → s ≤ es
      → es < s + fuel
      → length args < maxargs
      → AllArgs W args
      → AllFiles W rs
      → Ends (ArgsAt s) (parse_args b es fuel args rs s)
  unfolding parse_args
  parse_args-Ends zero args rs s le enough few words files = absurd (omega arith)
  parse_args-Ends (suc fuel) args rs s le enough few words files =
      let (lo, hi, _) = peek-bounds b es line s (124 ∷ 41 ∷ 38 ∷ 59 ∷ []) le in
      let p = peek b es s (124 ∷ 41 ∷ 38 ∷ 59 ∷ []) in
      let t = gettoken b es p.0 in
      let is_t = gettoken-IsToken b es line p.0 hi in
      let lo_t = is_t.from in
      Ends-if (ArgsAt s) p.1 _ _ (λ _. Ends-done (ArgsAt s) _ (lo, hi, few, words, files))
        (λ _.
          Ends-if (ArgsAt s) (t.tok == 0) _ _
            (λ _. Ends-done (ArgsAt s) _ (omega arith, is_t.to, few, words, files))
            (λ _.
              Ends-if (ArgsAt s) (not (t.tok == word_tok)) _ _ (λ _. Ends-panic (ArgsAt s))
                (λ is_w.
                  Ends-if (ArgsAt s) (leb maxargs (length (args ++ (t.q, t.eq_) ∷ []))) _ _
                    (λ _. Ends-panic (ArgsAt s))
                    (λ short.
                      let w = equal t.tok word_tok is_w in
                      let on = is_t.passes (λ z. absurd (omega (arith, w, z))) in
                      Ends-bind (RedirsAt t.ps) (ArgsAt s) _ _
                        (parseredirs-Ends (es + 1) t.ps is_t.to (omega arith))
                        (λ (rs', ps') (lo2, hi2, files').
                          Ends-mono (ArgsAt ps') (ArgsAt s) _
                            (parse_args-Ends fuel (args ++ (t.q, t.eq_) ∷ []) (rs ++ rs') ps' hi2
                              (omega arith) (below _ short)
                              (AllArgs-snoc W args (t.q, t.eq_) words (is_t.word w))
                              (AllFiles-++ W rs rs' files files'))
                            (λ (args2, rs2, ps2) (lo3, hi3, few3, words3, files3).
                              (omega arith, hi3, few3, words3, files3)))))))

  parse_close-Ends :
      (c : Cmd) (ps : ℕ) (found : Bool)
      → ps ≤ es
      → AllStrings W c
      → Ends (CmdAt ps) (parse_close b es c (ps, found))
  unfolding parse_close
  parse_close-Ends c ps found le good =
      let is_t = gettoken-IsToken b es line ps le in
      Ends-if (CmdAt ps) (not found) _ _ (λ _. Ends-panic (CmdAt ps))
        (λ _.
          Ends-bind (RedirsAt (gettoken b es ps).ps) (CmdAt ps) _ _
            (parseredirs-Ends (es + 1) (gettoken b es ps).ps is_t.to (omega arith))
            (λ (rs, ps') (lo, hi, files).
              let lo_t = is_t.from in
              Ends-done (CmdAt ps) _ (omega arith, hi, AllStrings-add_redirs W c rs good files)))

  -- `next` is `parseline` on what is behind a byte at least.
  module _ (next : ℕ → Outcome (Cmd × ℕ)) (n : ℕ)
      (later : (s : ℕ) → s ≤ es → es < s + n → Ends (CmdAt s) (next s)) where
    parseblock-Ends : (s : ℕ) → s ≤ es → es < s + suc n → Ends (CmdAt s) (parseblock b es next s)
    unfolding parseblock
    parseblock-Ends s le enough =
        let (lo, hi, some_) = peek-bounds b es line s (40 ∷ []) le in
        let p = peek b es s (40 ∷ []) in
        let is_t = gettoken-IsToken b es line p.0 hi in
        Ends-if (CmdAt s) (not p.1) _ _ (λ _. Ends-panic (CmdAt s))
          (λ hit.
            let on = gettoken_moves b es line p.0 hi (some_ (holds p.1 hit)) in
            Ends-bind (CmdAt (gettoken b es p.0).ps) (CmdAt s) _ _
              (later (gettoken b es p.0).ps is_t.to (omega arith))
              (λ (c, ps1) (lo1, hi1, good).
                let (lo2, hi2, _) = peek-bounds b es line ps1 (41 ∷ []) hi1 in
                Ends-mono (CmdAt (peek b es ps1 (41 ∷ [])).0) (CmdAt s) _
                  (parse_close-Ends c _ (peek b es ps1 (41 ∷ [])).1 hi2 good)
                  (λ (c', ps3) (lo3, hi3, good'). (omega arith, hi3, good'))))

    parseexec-Ends : (s : ℕ) → s ≤ es → es < s + suc n → Ends (CmdAt s) (parseexec b es next s)
    unfolding parseexec
    parseexec-Ends s le enough =
        let (lo, hi, _) = peek-bounds b es line s (40 ∷ []) le in
        let p = peek b es s (40 ∷ []) in
        Ends-if (CmdAt s) p.1 _ _
          (λ _.
            Ends-mono (CmdAt p.0) (CmdAt s) _ (parseblock-Ends p.0 hi (omega arith))
              (λ (c, ps) (lo2, hi2, good). (omega arith, hi2, good)))
          (λ _.
            Ends-bind (RedirsAt p.0) (CmdAt s) _ _ (parseredirs-Ends (es + 1) p.0 hi (omega arith))
              (λ (rs, ps1) (lo1, hi1, files).
                Ends-bind (ArgsAt ps1) (CmdAt s) _ _
                  (parse_args-Ends (es + 1) [] rs ps1 hi1 (omega arith) (omega arith) tt files)
                  (λ (args, rs', ps2) (lo2, hi2, few, words, files'). Ends-done (CmdAt s) _ (
                    omega arith,
                    hi2,
                    AllStrings-add_redirs W (exec args) rs' (few, words) files',
                  ))))

    parsepipe-Ends :
        (fuel s : ℕ)
        → s ≤ es
        → es < s + suc n
        → es < s + fuel
        → Ends (CmdAt s) (parsepipe b es next fuel s)
    unfolding parsepipe
    parsepipe-Ends zero s le enough more = absurd (omega arith)
    parsepipe-Ends (suc fuel) s le enough more =
        Ends-bind (CmdAt s) (CmdAt s) _ _ (parseexec-Ends s le enough) (λ (c, ps1) (lo1, hi1, good).
          let (lo, hi, some_) = peek-bounds b es line ps1 (124 ∷ []) hi1 in
          let p = peek b es ps1 (124 ∷ []) in
          let is_t = gettoken-IsToken b es line p.0 hi in
          Ends-if (CmdAt s) p.1 _ _
            (λ hit.
              let on = gettoken_moves b es line p.0 hi (some_ hit) in
              Ends-bind (CmdAt (gettoken b es p.0).ps) (CmdAt s) _ _
                (parsepipe-Ends fuel (gettoken b es p.0).ps is_t.to (omega arith) (omega arith))
                (λ (right, ps2) (lo2, hi2, good2).
                  Ends-done (CmdAt s) _ (omega arith, hi2, (good, good2))))
            (λ _. Ends-done (CmdAt s) _ (omega arith, hi, good)))

  parse_backs-Ends :
      (fuel : ℕ) (c : Cmd) (s : ℕ)
      → s ≤ es
      → es < s + fuel
      → AllStrings W c
      → Ends (CmdAt s) (parse_backs b es fuel c s)
  unfolding parse_backs
  parse_backs-Ends zero c s le enough good = absurd (omega arith)
  parse_backs-Ends (suc fuel) c s le enough good =
      let (lo, hi, some_) = peek-bounds b es line s (38 ∷ []) le in
      let p = peek b es s (38 ∷ []) in
      let is_t = gettoken-IsToken b es line p.0 hi in
      Ends-if (CmdAt s) p.1 _ _
        (λ hit.
          let on = gettoken_moves b es line p.0 hi (some_ hit) in
          Ends-mono (CmdAt (gettoken b es p.0).ps) (CmdAt s) _
            (parse_backs-Ends fuel (back c) (gettoken b es p.0).ps is_t.to (omega arith) good)
            (λ (c', ps) (lo2, hi2, good2). (omega arith, hi2, good2)))
        (λ _. Ends-done (CmdAt s) _ (lo, hi, good))

  parseline-Ends : (fuel s : ℕ) → s ≤ es → es < s + fuel → Ends (CmdAt s) (parseline b es fuel s)
  unfolding parseline
  parseline-Ends zero s le enough = absurd (omega arith)
  parseline-Ends (suc fuel) s le enough =
      Ends-bind (CmdAt s) (CmdAt s) _ _
        (parsepipe-Ends (λ i. parseline b es fuel i) fuel
          (λ i le' more. parseline-Ends fuel i le' more) (es + 1) s le enough (omega arith))
        (λ (c, ps1) (lo1, hi1, good1).
          Ends-bind (CmdAt ps1) (CmdAt s) _ _
            (parse_backs-Ends (es + 1) c ps1 hi1 (omega arith) good1)
            (λ (c', ps2) (lo2, hi2, good2).
              let (lo, hi, some_) = peek-bounds b es line ps2 (59 ∷ []) hi2 in
              let p = peek b es ps2 (59 ∷ []) in
              let is_t = gettoken-IsToken b es line p.0 hi in
              Ends-if (CmdAt s) p.1 _ _
                (λ hit.
                  let on = gettoken_moves b es line p.0 hi (some_ hit) in
                  Ends-bind (CmdAt (gettoken b es p.0).ps) (CmdAt s) _ _
                    (parseline-Ends fuel (gettoken b es p.0).ps is_t.to (omega arith))
                    (λ (right, ps3) (lo3, hi3, good3).
                      Ends-done (CmdAt s) _ (omega arith, hi3, (good2, good3))))
                (λ _. Ends-done (CmdAt s) _ (omega arith, hi, good2))))

-- A word of the line `b`, which is a string in `d`.
abbrev pub IsString : Line → ℕ → Line → Slice → Type 0
IsString b es d (q, e) = IsWord b es q e × ((j : ℕ) → q ≤ j → j < e → d j ≡ b j) × (d e ≡ 0)

strings :
    (b : Line) (es : ℕ) (c : Cmd)
    → AllStrings (λ a. IsWord b es a.0 a.1) c
    → AllStrings (IsString b es (nulterminate c b)) c
strings b es c all =
    let d = nulterminate c b in
    let same =
      nulterminate-SameWords b es c b
        (AllStrings-mono (λ a. IsWord b es a.0 a.1) (Stops b es) (λ a w. w.stop) c all)
        (λ j lt word. refl) in
    AllStrings-both (λ a. IsWord b es a.0 a.1) (Ended d) (IsString b es d)
      (λ a w end.
        (w, λ j lo hi. let inside = w.inside in same j (omega arith) (w.bytes j lo hi), end))
      c all (nulterminate-Ended (λ a. IsWord b es a.0 a.1) c b all)

-- On a line with its first 0 at `es`, `parsecmd` runs out of rounds in none of its loops and
-- recursions, so it comes to a syntax error or returns. In a command that it returns each `exec`
-- has fewer than MAXARGS arguments, and each argument and each file name is a word of the line,
-- as long as it can be, which `nulterminate` leaves as it was and ends with a 0, whatever it
-- writes for the other strings.
pub parsecmd-IsString :
    (b : Line) (es : ℕ)
    → IsLine b es
    → Ends (λ (c, d). AllStrings (IsString b es d) c) (parsecmd b es)
unfolding parsecmd
parsecmd-IsString b es line =
    Ends-bind (CmdAt b es line 0) (λ (c, d). AllStrings (IsString b es d) c) _ _
      (parseline-Ends b es line (es + 1) 0 (omega arith) (omega arith))
      (λ (c, ps) (lo, hi, good).
        Ends-if (λ (c, d). AllStrings (IsString b es d) c) ((peek b es ps []).0 == es) _ _
          (λ _. Ends-done (λ (c, d). AllStrings (IsString b es d) c) _ (strings b es c good))
          (λ _. Ends-panic (λ (c, d). AllStrings (IsString b es d) c)))

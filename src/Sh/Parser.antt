-- ===== src/Sh/Parser.antt =====
-- sh.c, from `parsecmd` to `nulterminate`. A `panic` of the shell, which exits, is a `panic`.
use osce.Prelude.{
  ℕ, zero, suc, ◌+◌, Bool, not, ◌||◌, List, [], ◌∷◌, ◌++◌, length, ◌==◌, leb, if◌then◌else◌,
  Outcome, done, panic, out_of_fuel, ◌>>=◌,
}
use osce.Sh.Lexer.{Line, gettoken, peek, word_tok, append_tok}

-- Where a string of the command starts, and where its 0 is put.
abbrev pub Slice : Type 0
Slice = ℕ × ℕ

-- The fields of `struct redircmd` but `cmd`.
pub record Redir : Type 0 where
  pub file : Slice
  pub mode : ℕ
  pub fd : ℕ

-- `struct cmd`, with `argv` and `eargv` up to the NULL.
pub data Cmd : Type 0 where
  exec : List Slice → Cmd
  redir : Cmd → Redir → Cmd
  pipe : Cmd → Cmd → Cmd
  list : Cmd → Cmd → Cmd
  back : Cmd → Cmd

abbrev pub maxargs : ℕ
maxargs = 10

-- `O_RDONLY`, and `O_WRONLY|O_CREATE`
abbrev pub o_rdonly : ℕ
o_rdonly = 0

abbrev pub o_wronly_create : ℕ
o_wronly_create = 0x201

-- The `switch` of `parseredirs`.
abbrev pub redirs_of : ℕ → Slice → List Redir
redirs_of tok file =
    if tok == 60
    then record { file = file; mode = o_rdonly; fd = 0 } ∷ []
    else if tok == 62 || tok == append_tok
    then record { file = file; mode = o_wronly_create; fd = 1 } ∷ []
    else []

-- A command with the redirections around it, the first one innermost. In `parseexec` further
-- arguments reach the command inside, through the pointer to it.
unfoldable pub add_redirs : Cmd → List Redir → Cmd
add_redirs c [] = c
add_redirs c (r ∷ rs) = add_redirs (redir c r) rs

module _ (b : Line) (es : ℕ) where
  -- `parseredirs` from `ps`: the redirections in order, and the new `*ps`.
  unfoldable pub parseredirs : ℕ → ℕ → Outcome (List Redir × ℕ)
  unfolding gettoken peek
  parseredirs zero ps = out_of_fuel
  parseredirs (suc fuel) ps =
      let p = peek b es ps (60 ∷ 62 ∷ []) in
      let t = gettoken b es p.0 in
      let f = gettoken b es t.ps in
      let more = (do
        (rs, ps') ← parseredirs fuel f.ps
        done (redirs_of t.tok (f.q, f.eq_) ++ rs, ps')) in
      if not p.1 then done ([], p.0) else if not (f.tok == word_tok) then panic else more

  -- The loop of `parseexec`, with the arguments and redirections so far.
  unfoldable pub parse_args :
      ℕ → List Slice → List Redir → ℕ → Outcome (List Slice × List Redir × ℕ)
  unfolding gettoken peek parseredirs
  parse_args zero args rs ps = out_of_fuel
  parse_args (suc fuel) args rs ps =
      let p = peek b es ps (124 ∷ 41 ∷ 38 ∷ 59 ∷ []) in
      let t = gettoken b es p.0 in
      let args' = args ++ (t.q, t.eq_) ∷ [] in
      let more = (do
        (rs', ps') ← parseredirs (es + 1) t.ps
        parse_args fuel args' (rs ++ rs') ps') in
      if p.1
      then done (args, rs, p.0)
      else if t.tok == 0
      then done (args, rs, t.ps)
      else if not (t.tok == word_tok)
      then panic
      else if leb maxargs (length args')
      then panic
      else more

  -- `parseblock` behind its command.
  unfoldable pub parse_close : Cmd → ℕ × Bool → Outcome (Cmd × ℕ)
  unfolding gettoken parseredirs add_redirs
  parse_close c (ps, found) =
      let end = (do
        (rs, ps') ← parseredirs (es + 1) (gettoken b es ps).ps
        done (add_redirs c rs, ps')) in
      if not found then panic else end

  -- `line` is `parseline` on what is left.
  module _ (line : ℕ → Outcome (Cmd × ℕ)) where
    unfoldable pub parseblock : ℕ → Outcome (Cmd × ℕ)
    unfolding gettoken peek parse_close
    parseblock ps =
        let p = peek b es ps (40 ∷ []) in
        let inside = (do
          (c, ps1) ← line (gettoken b es p.0).ps
          parse_close c (peek b es ps1 (41 ∷ []))) in
        if not p.1 then panic else inside

    unfoldable pub parseexec : ℕ → Outcome (Cmd × ℕ)
    unfolding peek parseblock parse_args add_redirs
    parseexec ps =
        let p = peek b es ps (40 ∷ []) in
        let words = (do
          (rs, ps1) ← parseredirs (es + 1) p.0
          (args, rs', ps2) ← parse_args (es + 1) [] rs ps1
          done (add_redirs (exec args) rs', ps2)) in
        if p.1 then parseblock p.0 else words

    unfoldable pub parsepipe : ℕ → ℕ → Outcome (Cmd × ℕ)
    unfolding gettoken peek parseexec
    parsepipe zero ps = out_of_fuel
    parsepipe (suc fuel) ps = do
      (c, ps1) ← parseexec ps
      let p = peek b es ps1 (124 ∷ [])
      let more = (do (right, ps2) ← parsepipe fuel (gettoken b es p.0).ps; done (pipe c right, ps2))
      if p.1 then more else done (c, p.0)

  -- `while(peek(ps, es, "&"))` of `parseline`.
  unfoldable pub parse_backs : ℕ → Cmd → ℕ → Outcome (Cmd × ℕ)
  unfolding gettoken peek
  parse_backs zero c ps = out_of_fuel
  parse_backs (suc fuel) c ps =
      let p = peek b es ps (38 ∷ []) in
      let rest = parse_backs fuel (back c) (gettoken b es p.0).ps in
      if p.1 then rest else done (c, p.0)

  unfoldable pub parseline : ℕ → ℕ → Outcome (Cmd × ℕ)
  unfolding gettoken peek parsepipe parse_backs
  parseline zero ps = out_of_fuel
  parseline (suc fuel) ps = do
    (c, ps1) ← parsepipe (λ s. parseline fuel s) (es + 1) ps
    (c', ps2) ← parse_backs (es + 1) c ps1
    let p = peek b es ps2 (59 ∷ [])
    let more = (do (right, ps3) ← parseline fuel (gettoken b es p.0).ps; done (list c' right, ps3))
    if p.1 then more else done (c', p.0)

-- `*eargv[i] = 0`
abbrev pub end_at : ℕ → Line → Line
end_at e b j = if e == j then 0 else b j

abbrev pub end_args : List Slice → Line → Line
end_args [] b = b
end_args ((q, e) ∷ args) b = end_args args (end_at e b)

unfoldable pub nulterminate : Cmd → Line → Line
nulterminate (exec args) b = end_args args b
nulterminate (redir c r) b = end_at r.file.1 (nulterminate c b)
nulterminate (pipe l r) b = nulterminate r (nulterminate l b)
nulterminate (list l r) b = nulterminate r (nulterminate l b)
nulterminate (back c) b = nulterminate c b

-- `es` is `strlen` of the line. Each round of a loop takes at least one byte.
unfoldable pub parsecmd : Line → ℕ → Outcome (Cmd × Line)
unfolding peek parseline nulterminate
parsecmd b es = do
  (c, ps) ← parseline b es (es + 1) 0
  if (peek b es ps []).0 == es then done (c, nulterminate c b) else panic

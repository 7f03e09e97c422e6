-- ===== src/Sh/Tests.antt =====
-- Runs of sh.c: the line `ls a >f` with its newline, which `getcmd` leaves in place, and a few jobs.
use osce.Prelude.{
  ℕ, zero, suc, ◌<◌, ◌≡◌, ◌≢◌, refl, true, false, none, some, List, [], ◌∷◌, ◌==◌, if◌then◌else◌,
  arith, get_or, Outcome, done, panic, Ends, ◌>>=◌,
}
use osce.Sh.Lexer.{Line}
use osce.Sh.Parser.{Cmd, exec, redir, parsecmd, nulterminate, o_wronly_create}
use osce.Sh.Words.{IsLine}
use osce.Sh.Strings.{AllStrings}
use osce.Sh.Parsed.{IsString, parsecmd-IsString}
use osce.Ulib.{atoi}
use osce.Sh.Jobs.{Job, Process, Store, Heap, foreground, background, put, clear_zombie_processes}
use osce.Sh.Chains.{Node, process, Chain}
use osce.Sh.Zombies.{IsCleared}
use osce.Sh.Losses.{lives, clear_zombie_processes-lives, clear_zombie_processes-last}
use osce.Sh.Commands.{clear_job_list, Shell, start, resume, bytes_of, main_line, start_job}
use osce.Sh.Resume.{main_line-resume}
use osce.Sh.Started.{IsStarted, start_job-IsStarted}

abbrev line : Line
line j = get_or (108 ∷ 115 ∷ 32 ∷ 97 ∷ 32 ∷ 62 ∷ 102 ∷ 10 ∷ []) j 0

full : (j : ℕ) → j < 8 → line j ≢ 0
full zero h = omega arith
full (suc zero) h = omega arith
full (suc (suc zero)) h = omega arith
full (suc (suc (suc zero))) h = omega arith
full (suc (suc (suc (suc zero)))) h = omega arith
full (suc (suc (suc (suc (suc zero))))) h = omega arith
full (suc (suc (suc (suc (suc (suc zero)))))) h = omega arith
full (suc (suc (suc (suc (suc (suc (suc zero))))))) h = omega arith
full (suc (suc (suc (suc (suc (suc (suc (suc j)))))))) h = absurd (omega arith)

line-IsLine : IsLine line 8
line-IsLine = record { end = refl; full = full }

abbrev tree : Outcome (Cmd × Line) → Outcome Cmd
tree m = do (c, d) ← m; done c

abbrev command : Cmd
command =
    redir (exec ((0, 2) ∷ (3, 4) ∷ [])) (record { file = (6, 7); mode = o_wronly_create; fd = 1 })

-- The command is `exec` of "ls" and "a" under a redirection to "f".
line-tree : tree (parsecmd line 8) ≡ done command
unfolding parsecmd
line-tree = refl

parsecmd-IsString_example : Ends (λ (c, d). AllStrings (IsString line 8 d) c) (parsecmd line 8)
parsecmd-IsString_example = parsecmd-IsString line 8 line-IsLine

-- Pids 3, 4, 5, 6 at the addresses 8, 16, 24, 32.
abbrev processes : Store Process
processes a =
    if a == 8
    then some (process 3 16)
    else if a == 16
    then some (process 4 24)
    else if a == 24
    then some (process 5 32)
    else if a == 32
    then some (process 6 0)
    else none

abbrev nodes : List Node
nodes = (8, 3) ∷ (16, 4) ∷ (24, 5) ∷ (32, 6) ∷ []

nodes-Chain : Chain processes 8 nodes
nodes-Chain = (
  refl,
  omega arith,
  (
    16,
    refl,
    (
      refl,
      omega arith,
      (24, refl, (refl, omega arith, (32, refl, (refl, omega arith, (0, refl, refl))))),
    ),
  ),
)

clear_zombie_processes-lives_example :
    (r : ℕ × Store Process) × (clear_zombie_processes (λ p. p == 4) 5 8 processes ≡ done r)
    × IsCleared processes r.1 r.0 nodes (lives (λ p. p == 4) nodes)
clear_zombie_processes-lives_example =
    clear_zombie_processes-lives (λ p. p == 4) 5 processes 8 nodes (omega arith) (omega arith)
      nodes-Chain
      (
        λ (q : false ≡ true). cc,
        (λ q. (refl, refl), (λ (q : false ≡ true). cc, (λ (q : false ≡ true). cc, tt))),
      )

clear_zombie_processes-last_example : clear_zombie_processes (λ p. p == 6) 5 8 processes ≡ panic
clear_zombie_processes-last_example =
    clear_zombie_processes-last (λ p. p == 6) 5 processes 8 (8, 3) ((16, 4) ∷ (24, 5) ∷ []) (32, 6)
      (omega arith) (omega arith) nodes-Chain (refl, (refl, (refl, tt))) refl

-- Job 1 at 40 runs the process 3 in the background.
abbrev job : Job
job = record { id = 1; next = 0; processes = 8; in_fd = 4; kind = background; cmd = 72 }

abbrev heap : Heap
heap = record {
  jobs = λ a. if a == 40 then some job else none;
  processes = λ a. if a == 8 then some (process 3 0) else none;
  texts = λ a. if a == 72 then some 5 else none;
  bytes = λ a. 255;
}

abbrev shell : Shell
shell = record { head = 40; count = 1; heap = heap }

-- `fg 1`, for the digit 49
abbrev fg_line : ℕ → Line
fg_line digit j = get_or (102 ∷ 103 ∷ 32 ∷ digit ∷ 10 ∷ []) j 0

-- The list is the same behind `clearJobList`, which stores the list of processes again.
abbrev cleared : Heap
cleared = record heap { jobs = put 40 (some job) heap.jobs }

shell-cleared : clear_job_list (λ p. false) 3 40 heap ≡ done (40, cleared)
unfolding clear_job_list
shell-cleared = refl

fg_line-atoi : atoi (bytes_of (fg_line 49) 3 1) ≡ 1
unfolding atoi bytes_of
fg_line-atoi = refl

main_line-resume_example :
    main_line (λ p. false) 3 48 80 6 [] (fg_line 49) 5 shell
    ≡ done (
      resume,
      record {
        head = 40;
        count = 1;
        heap = record cleared {
          jobs = put 40 (some (record job { kind = foreground })) cleared.jobs;
        };
      },
    )
unfolding atoi bytes_of
main_line-resume_example =
    main_line-resume (λ p. false) 3 48 80 6 [] (fg_line 49) 5 shell 40 cleared ((40, job) ∷ [])
      shell-cleared (refl, omega arith, refl, refl) (omega arith) refl refl refl refl

-- The command `ls a >f` runs as pid 7, behind a process that sends the byte 200.
abbrev two_pids : List (ℕ × ℕ)
two_pids = (200, 56) ∷ (7, 64) ∷ []

line-parsed : parsecmd line 8 ≡ done (command, nulterminate command line)
unfolding parsecmd
line-parsed = refl

-- The text of the new job, 8 bytes at 80, has its 0 behind them, at 88.
start_job-IsStarted_example :
    (s' : Shell) × (start_job 48 80 6 two_pids line 8 shell ≡ done (start 48 command, s'))
    × IsStarted 48 80 6 two_pids line 8 command shell s' ((40, job) ∷ []) (((8, 3) ∷ []) ∷ [])
start_job-IsStarted_example =
    start_job-IsStarted 48 80 6 two_pids line 8 shell command (nulterminate command line)
      ((40, job) ∷ []) (((8, 3) ∷ []) ∷ []) (omega arith) (omega arith) line-IsLine (omega arith)
      (refl, omega arith, refl, refl) ((refl, omega arith, (0, refl, refl)), tt) (omega arith)
      (omega arith) line-parsed

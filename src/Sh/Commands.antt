-- ===== src/Sh/Commands.antt =====
-- sh.c: the list of jobs, and the body of the loop of `main`, which reads a line.
use osce.Prelude.{
  ℕ, zero, suc, ◌+◌, ◌-◌, ◌^◌, Bool, true, false, not, ◌&&◌, none, some, List, [], ◌∷◌, ◌==◌, ltb,
  if◌then◌else◌, Outcome, done, out_of_fuel, ◌>>=◌,
}
use osce.Ulib.{atoi}
use osce.Sh.Lexer.{Line}
use osce.Sh.Parser.{Cmd, exec, redir, pipe, list, back, parsecmd}
use osce.Sh.Jobs.{
  Job, Process, Heap, Store, foreground, background, load, put, add_process_to_job, get_job,
  find_job_by_id, find_foreground_job, clear_zombie_processes,
}

module _ (gone : ℕ → Bool) (rounds : ℕ) where
  -- The first loop of `clearJobList`: `newHead`. `rounds` are those of the loops over processes.
  unfoldable pub first_job : ℕ → ℕ → Heap → Outcome (ℕ × Heap)
  unfolding clear_zombie_processes
  first_job zero cur h = out_of_fuel
  first_job (suc fuel) cur h =
      let step = (do
        c ← load h.jobs cur
        (head, ps) ← clear_zombie_processes gone rounds c.processes h.processes
        let jobs = put cur (some (record c { processes = head })) h.jobs
        let rest =
            first_job fuel c.next (record h {
              jobs = put cur none jobs;
              processes = ps;
              texts = put c.cmd none h.texts;
            })
        if head == 0 then rest else done (cur, record h { jobs = jobs; processes = ps })) in
      if cur == 0 then done (0, h) else step

  -- The second loop.
  unfoldable pub clear_jobs_behind : ℕ → ℕ → ℕ → Heap → Outcome Heap
  unfolding clear_zombie_processes
  clear_jobs_behind zero prev cur h = out_of_fuel
  clear_jobs_behind (suc fuel) prev cur h =
      let step = (do
        c ← load h.jobs cur
        (head, ps) ← clear_zombie_processes gone rounds c.processes h.processes
        let jobs = put cur (some (record c { processes = head })) h.jobs
        let unlink = (do
          p ← load jobs prev
          let h1 : Heap = record h {
            jobs = put cur none (put prev (some (record p { next = c.next })) jobs);
            processes = ps;
            texts = put c.cmd none h.texts;
          }
          p1 ← load h1.jobs prev
          let jump = (do n ← load h1.jobs p1.next; clear_jobs_behind fuel prev n.next h1)
          let stop = clear_jobs_behind fuel prev 0 h1
          if p1.next == 0 then stop else jump)
        let keep = clear_jobs_behind fuel cur c.next (record h { jobs = jobs; processes = ps })
        if head == 0 then unlink else keep) in
      if cur == 0 then done h else step

  unfoldable pub clear_job_list : ℕ → Heap → Outcome (ℕ × Heap)
  unfolding first_job clear_jobs_behind
  clear_job_list head h = do
    (new_head, h1) ← first_job rounds head h
    let rest = (do
      n ← load h1.jobs new_head
      h2 ← clear_jobs_behind rounds new_head n.next h1
      done (new_head, h2))
    if new_head == 0 then done (0, h1) else rest

-- The inner loop of `deleteJobList`.
unfoldable pub delete_processes : ℕ → ℕ → Store Process → Outcome (Store Process)
delete_processes zero cur h = out_of_fuel
delete_processes (suc fuel) cur h =
    let step = (do c ← load h cur; delete_processes fuel c.next (put cur none h)) in
    if cur == 0 then done h else step

unfoldable pub delete_job_list : ℕ → ℕ → ℕ → Heap → Outcome Heap
unfolding delete_processes
delete_job_list rounds zero cur h = out_of_fuel
delete_job_list rounds (suc fuel) cur h =
    let step = (do
      c ← load h.jobs cur
      ps ← delete_processes rounds c.processes h.processes
      delete_job_list rounds fuel c.next (record h {
        jobs = put cur none h.jobs;
        processes = ps;
        texts = put c.cmd none h.texts;
      })) in
    if cur == 0 then done h else step

-- `p->type = …`
unfoldable pub set_kind : ℕ → ℕ → Store Job → Outcome (Store Job)
set_kind job kind h = do j ← load h job; done (put job (some (record j { kind = kind })) h)

-- The bytes from `s` up to `e`.
unfoldable pub bytes_of : Line → ℕ → ℕ → List ℕ
bytes_of b s zero = []
bytes_of b s (suc n) = b s ∷ bytes_of b (s + 1) n

-- `jobsHead`, `jobCount`, and the memory.
pub record Shell : Type 0 where
  pub head : ℕ
  pub count : ℕ
  pub heap : Heap

-- What a line is taken for: input of a job, `cd`, `jobs`, `fg`, or a command that is started.
pub data Effect : Type 0 where
  feed : ℕ → List ℕ → Effect
  change_dir : List ℕ → Effect
  print_jobs : Effect
  resume : Effect
  start : ℕ → Cmd → Effect

-- `(int)*pidBuf`: the first byte, a `char`.
abbrev pub received_pid : ℕ → ℕ
received_pid c = if ltb c 128 then c else c + 2 ^ 32 - 256

-- The loop that reads the pids: for each `read`, the first byte and what `malloc` returns.
unfoldable pub add_received : ℕ → List (ℕ × ℕ) → Heap → Outcome Heap
unfolding add_process_to_job
add_received job [] h = done h
add_received job ((c, new) ∷ pids) h = do
  h' ← add_process_to_job new job (received_pid c) h
  add_received job pids h'

-- `newcmd->type == BACK`
abbrev pub is_back : Cmd → Bool
is_back (back c) = true
is_back (exec args) = false
is_back (redir c r) = false
is_back (pipe l r) = false
is_back (list l r) = false

-- The kind of the new job, and its link to the old ones.
unfoldable pub link_job : ℕ → Cmd → ℕ → Store Job → Outcome (Store Job)
link_job new c head jobs1 = do
  jobs2 ← if is_back c then set_kind new background jobs1 else done jobs1
  j ← load jobs2 new
  done (if head == 0 then jobs2 else put new (some (record j { next = head })) jobs2)

-- The start of a job, as the parent sees it. `new` and `text` are the addresses that `malloc`
-- returns in `getJob`, `input_fd` is `jobInput[1]`, and `pids` is what comes through the pipe
-- `jobPids`.
unfoldable pub start_job : ℕ → ℕ → ℕ → List (ℕ × ℕ) → Line → ℕ → Shell → Outcome (Effect × Shell)
start_job new text input_fd pids b es s = do
  h1 ← get_job new text (s.count + 1) input_fd b es s.heap
  (c, d) ← parsecmd b es
  jobs2 ← link_job new c s.head h1.jobs
  h ← add_received new pids (record h1 { jobs = jobs2 })
  done (start new c, record { head = new; count = s.count + 1; heap = h })

module _ (gone : ℕ → Bool) (rounds : ℕ) where
  -- The body of the loop, with what `malloc`, `pipe` and `read` give if a job is started, where
  -- `pipe` and `fork` do not fail.
  unfoldable pub main_line : ℕ → ℕ → ℕ → List (ℕ × ℕ) → Line → ℕ → Shell → Outcome (Effect × Shell)
  unfolding clear_job_list find_foreground_job find_job_by_id set_kind start_job bytes_of atoi
  main_line new text input_fd pids b es s = do
    (head, h) ← clear_job_list gone rounds s.head s.heap
    let s1 : Shell = record { head = head; count = s.count; heap = h }
    job ← find_foreground_job rounds head h.jobs
    let input = (do j ← load h.jobs job; done (feed j.in_fd (bytes_of b 0 es), s1))
    let arg = bytes_of b 3 (es - 4)
    let fg_id = (do
      found_job ← find_job_by_id rounds head (atoi arg) h.jobs
      jobs ← set_kind found_job foreground h.jobs
      done (resume, record s1 { heap = record h { jobs = jobs } }))
    let fg = (do
      jobs ← set_kind head foreground h.jobs
      done (resume, record s1 { heap = record h { jobs = jobs } }))
    (if not (job == 0)
        then input
        else if b 0 == 99 && b 1 == 100 && b 2 == 32
        then done (change_dir arg, s1)
        else if b 0 == 106 && b 1 == 111 && b 2 == 98 && b 3 == 115
        then done (print_jobs, s1)
        else if b 0 == 102 && b 1 == 103 && b 2 == 32
        then fg_id
        else if b 0 == 102 && b 1 == 103
        then fg
        else start_job new text input_fd pids b es s1)

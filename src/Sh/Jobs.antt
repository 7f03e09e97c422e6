-- ===== src/Sh/Jobs.antt =====
-- sh.c: the jobs of the shell and their processes, two kinds of linked lists. A pointer is an
-- address, with 0 for NULL; an access through NULL or to a node that is free is a `panic`.
use osce.Prelude.{
  ℕ, zero, suc, Bool, Option, none, some, ◌==◌, if◌then◌else◌, Outcome, done, panic, out_of_fuel,
  ◌>>=◌, ◌+◌,
}
use osce.Sh.Lexer.{Line}

-- `struct jobprocess`
pub record Process : Type 0 where
  pub pid : ℕ
  pub next : ℕ

abbrev pub foreground : ℕ
foreground = 1

abbrev pub background : ℕ
background = 2

-- `struct job`
pub record Job : Type 0 where
  pub id : ℕ
  pub next : ℕ
  pub processes : ℕ
  pub in_fd : ℕ
  pub kind : ℕ
  pub cmd : ℕ

abbrev pub Store : Type 0 → Type 0
Store A = ℕ → Option A

-- The nodes of the lists, the size of the block that `malloc` gave for each text of a command, and
-- the bytes of the memory of these texts.
pub record Heap : Type 0 where
  pub jobs : Store Job
  pub processes : Store Process
  pub texts : Store ℕ
  pub bytes : ℕ → ℕ

abbrev pub found : {A : Type 0} → Option A → Outcome A
found none = panic
found (some n) = done n

abbrev pub load : {A : Type 0} → Store A → ℕ → Outcome A
load h a = if a == 0 then panic else found (h a)

abbrev pub put : {A : Type 0} → ℕ → Option A → Store A → Store A
put a v h b = if a == b then v else h b

-- `malloc` returns `new`. Where it is 0, the `memset` behind it writes through NULL.
unfoldable pub get_process : ℕ → ℕ → Store Process → Outcome (Store Process)
get_process new pid h =
    if new == 0 then panic else done (put new (some (record { pid = pid; next = 0 })) h)

unfoldable pub add_process_to_job : ℕ → ℕ → ℕ → Heap → Outcome Heap
unfolding get_process
add_process_to_job new job pid h = do
  ps ← get_process new pid h.processes
  p ← load ps new
  j ← load h.jobs job
  done (record h {
    jobs = put job (some (record j { processes = new })) h.jobs;
    processes = put new (some (record p { next = j.processes })) ps;
  })

-- The loop of `strcpy` (ulib.c), from the byte `i` of the string `b` to the address `to`.
unfoldable pub copy_text : ℕ → Line → ℕ → ℕ → (ℕ → ℕ) → Outcome (ℕ → ℕ)
copy_text zero b i to bytes = out_of_fuel
copy_text (suc fuel) b i to bytes =
    let stored : ℕ → ℕ = λ a. if a == to then b i else bytes a in
    let rest = copy_text fuel b (i + 1) (to + 1) stored in if b i == 0 then done stored else rest

-- `buf` is the string `b`, of length `es`. `new` and `text` are what the two calls of `malloc`
-- return; `memset` and `strcpy` write there without a test. The block at `text` has `strlen(buf)`
-- bytes, and `strcpy` writes one more.
unfoldable pub get_job : ℕ → ℕ → ℕ → ℕ → Line → ℕ → Heap → Outcome Heap
unfolding copy_text
get_job new text job_id input_fd b es h =
    if new == 0 then panic else if text == 0 then panic else do
      bytes ← copy_text (suc es) b 0 text h.bytes
      done (record h {
        jobs =
            put new
              (some (record {
                id = job_id;
                next = 0;
                processes = 0;
                in_fd = input_fd;
                kind = foreground;
                cmd = text;
              }))
              h.jobs;
        texts = put text (some es) h.texts;
        bytes = bytes;
      })

-- The loop of `findJobById` and of `findForegroundJob`: the first job with the test, or 0.
unfoldable pub find_from : (Job → Bool) → ℕ → ℕ → Store Job → Outcome ℕ
find_from test zero cur h = out_of_fuel
find_from test (suc fuel) cur h =
    let step = (do
      j ← load h cur
      let rest = find_from test fuel j.next h
      if test j then done cur else rest) in
    if cur == 0 then done 0 else step

unfoldable pub find_job_by_id : ℕ → ℕ → ℕ → Store Job → Outcome ℕ
unfolding find_from
find_job_by_id rounds head pid h = find_from (λ j. j.id == pid) rounds head h

unfoldable pub find_foreground_job : ℕ → ℕ → Store Job → Outcome ℕ
unfolding find_from
find_foreground_job rounds head h = find_from (λ j. j.kind == foreground) rounds head h

-- `gone pid`: `pstat(pid, &stat) < 0 || stat.state == ZOMBIE`. `pstat` is asked once about each.
module _ (gone : ℕ → Bool) where
  -- The first loop of `clearZombieProcesses`: `newHead`.
  unfoldable pub first_live : ℕ → ℕ → Store Process → Outcome (ℕ × Store Process)
  first_live zero cur h = out_of_fuel
  first_live (suc fuel) cur h =
      let step = (do
        c ← load h cur
        let rest = first_live fuel c.next (put cur none h)
        if gone c.pid then rest else done (cur, h)) in
      if cur == 0 then done (0, h) else step

  -- The second loop.
  unfoldable pub clear_behind : ℕ → ℕ → ℕ → Store Process → Outcome (Store Process)
  clear_behind zero prev cur h = out_of_fuel
  clear_behind (suc fuel) prev cur h =
      let step = (do
        c ← load h cur
        let unlink = (do
          p ← load h prev
          let h1 = put cur none (put prev (some (record p { next = c.next })) h)
          p1 ← load h1 prev
          n ← load h1 p1.next
          clear_behind fuel prev n.next h1)
        let keep = clear_behind fuel cur c.next h
        if gone c.pid then unlink else keep) in
      if cur == 0 then done h else step

  unfoldable pub clear_zombie_processes : ℕ → ℕ → Store Process → Outcome (ℕ × Store Process)
  unfolding first_live clear_behind
  clear_zombie_processes rounds head h = do
    (new_head, h1) ← first_live rounds head h
    let rest = (do
      n ← load h1 new_head
      h2 ← clear_behind rounds new_head n.next h1
      done (new_head, h2))
    if new_head == 0 then done (0, h1) else rest

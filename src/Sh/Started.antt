-- ===== src/Sh/Started.antt =====
-- sh.c: the job that `main` starts for a command, and its processes.
use osce.Prelude.{
  ℕ, ◌+◌, ◌-◌, ◌≡◌, ◌≢◌, refl, sym, ◌∙◌, ap, Bool, true, false, some, List, [], ◌∷◌, ◌==◌,
  if◌then◌else◌, arith, Outcome, done, ◌>>=◌, Bool-cases, inl, inr,
}
use osce.Sh.Lexer.{Line}
use osce.Sh.Parser.{Cmd, parsecmd}
use osce.Sh.Jobs.{Job, Store, Heap, foreground, background, put}
use osce.Sh.Chains.{Node, Chain, nonzero}
use osce.Sh.Commands.{Effect, start, Shell, is_back, set_kind, link_job, add_received, start_job}
use osce.Sh.Words.{IsLine}
use osce.Sh.Resume.{Jobs}
use osce.Sh.Received.{received, Fresh, AwayAll, Lists, Lists-kept, add_received-HasProcesses}
use osce.Sh.Making.{IsPut, put-IsPut, Stored, get_job_lem}

abbrev OffJobs : ℕ → List (ℕ × Job) → Type 0
OffJobs a [] = Unit
OffJobs a ((x, j) ∷ xs) = (a ≢ x) × OffJobs a xs

Jobs-agree :
    (h g : Store Job) (a b : ℕ) (xs : List (ℕ × Job))
    → ((x : ℕ) → x ≢ b → g x ≡ h x)
    → OffJobs b xs
    → Jobs h a xs
    → Jobs g a xs
Jobs-agree h g a b [] same off null = null
Jobs-agree h g a b ((x, j) ∷ xs) same (ne, off) (e, nz, at, rest) =
    (e, nz, same x (λ q. ne (sym q)) ∙ at, Jobs-agree h g j.next b xs same off rest)

-- `newJob` before its processes are read.
abbrev new_job : ℕ → ℕ → ℕ → ℕ → Cmd → Job
new_job id head input_fd text c = record {
  id = id;
  next = head;
  processes = 0;
  in_fd = input_fd;
  kind = if is_back c then background else foreground;
  cmd = text;
}

-- The job is in front of the list, with its processes, the last that was read first, and the
-- lists of the old jobs are as they were.
pub record IsStarted (new text input_fd : ℕ) (pids : List (ℕ × ℕ)) (b : Line) (es : ℕ) (c : Cmd)
    (s s' : Shell) (xs : List (ℕ × Job)) (pss : List (List Node)) : Type 0 where
  pub front : s'.head ≡ new
  pub counted : s'.count ≡ s.count + 1
  pub first : ℕ
  pub jobs :
      Jobs s'.heap.jobs new
        ((new, record (new_job (s.count + 1) s.head input_fd text c) { processes = first }) ∷ xs)
  pub processes : Chain s'.heap.processes first (received pids [])
  pub lists : Lists s'.heap.processes xs pss
  pub stored : Stored text b es s.heap.bytes s'.heap.bytes
  pub block : s'.heap.texts text ≡ some es
  pub overrun : s'.heap.bytes (text + es) ≡ 0

abbrev read_pids : ℕ → List (ℕ × ℕ) → Shell → Cmd → Heap → Outcome (Effect × Shell)
read_pids new pids s c g = do
  h ← add_received new pids g
  done (start new c, record { head = new; count = s.count + 1; heap = h })

-- What `getJob` and the link to the old list have made of the memory.
record Linked (new text input_fd : ℕ) (b : Line) (es : ℕ) (c : Cmd) (s : Shell) (g : Heap)
    : Type 0 where
  here : g.jobs new ≡ some (new_job (s.count + 1) s.head input_fd text c)
  same : (x : ℕ) → x ≢ new → g.jobs x ≡ s.heap.jobs x
  processes : g.processes ≡ s.heap.processes
  stored : Stored text b es s.heap.bytes g.bytes
  block : g.texts text ≡ some es

-- Behind the pids, from a memory with the new job in front of the old list.
reading :
    (new text input_fd : ℕ) (pids : List (ℕ × ℕ)) (b : Line) (es : ℕ) (s : Shell) (c : Cmd)
    (g : Heap) (xs : List (ℕ × Job)) (pss : List (List Node))
    → new ≢ 0
    → IsLine b es
    → OffJobs new xs
    → Jobs s.heap.jobs s.head xs
    → Fresh pids []
    → AwayAll pids pss
    → Lists s.heap.processes xs pss
    → Linked new text input_fd b es c s g
    → (s' : Shell) × (read_pids new pids s c g ≡ done (start new c, s'))
      × IsStarted new text input_fd pids b es c s s' xs pss
reading new text input_fd pids b es s c g xs pss nz line off jobs fresh away lists made =
    let base = new_job (s.count + 1) s.head input_fd text c in
    let (h', run, ok) = add_received-HasProcesses new base pids [] g nz made.here refl fresh in
    let stored : Stored text b es s.heap.bytes h'.bytes = rw ok.bytes made.stored in
    (
      record { head = new; count = s.count + 1; heap = h' },
      rw run,
      record {
        front = refl;
        counted = refl;
        first = ok.first;
        jobs = (
          refl,
          nz,
          ok.here,
          Jobs-agree s.heap.jobs h'.jobs s.head new xs (λ x ne. ok.others x ne ∙ made.same x ne) off
              jobs,
        );
        processes = ok.chain;
        lists =
            Lists-kept g.processes h'.processes pids xs pss ok.kept away (rw made.processes lists);
        stored = stored;
        block = rw ok.texts made.block;
        overrun =
            let e : text + es - text ≡ es = omega arith in
            ground (arith, stored (text + es), line.end, e);
      },
    )

kind_lem :
    (h g : Store Job) (a : ℕ) (j : Job) (bg : Bool)
    → a ≢ 0
    → IsPut h g a j
    → (g2 : Store Job) × ((if bg then set_kind a background g else done g) ≡ done g2)
      × IsPut h g2 a (record j { kind = if bg then background else j.kind })
unfolding set_kind
kind_lem h g a j false nz ok = (g, refl, ok)
kind_lem h g a j true nz ok = (
  put a (some (record j { kind = background })) g,
  rw (nonzero a nz, ok.at),
  put-IsPut h g a j _ ok,
)

linked_lem :
    (h g : Store Job) (a head : ℕ) (j : Job)
    → j.next ≡ 0
    → IsPut h g a j
    → IsPut h
        (if head == 0 then g else put a (some (record j { next = head })) g)
        a
        (record j { next = head })
linked_lem h g a head j null ok = elim (Bool-cases (head == 0)) [
  | inl empty ↦
      let e : head ≡ j.next = ground arith in
      rw empty record { at = ok.at ∙ ap (λ n. some (record j { next = n })) (sym e); off = ok.off }
  | inr more ↦ rw more (put-IsPut h g a j _ ok)
]

link_job_lem :
    (h g : Store Job) (a head : ℕ) (j : Job) (c : Cmd)
    → a ≢ 0
    → j.next ≡ 0
    → IsPut h g a j
    → (g3 : Store Job) × (link_job a c head g ≡ done g3)
      × IsPut h g3 a (record j { next = head; kind = if is_back c then background else j.kind })
unfolding link_job
link_job_lem h g a head j c nz null ok =
    let (g2, marked, ok2) = kind_lem h g a j (is_back c) nz ok in
    let ok3 =
      linked_lem h g2 a head (record j { kind = if is_back c then background else j.kind }) null
        ok2 in
    (_, rw (marked, nonzero a nz, ok2.at) refl, ok3)

-- A string that parses starts a job when `malloc` returns addresses that are not NULL, the job's
-- not in use for a job and the processes' different from each other and from the nodes of the old
-- jobs' processes. The job stands in front of the old jobs with the next id, in the background
-- exactly if the command is a `BACK`, with the pids that were received, the last one first; the
-- old jobs and their lists of processes are as before. At its `cmd` stands the line, in a block
-- of as many bytes as the line has, and a 0 behind this block; all other bytes of texts are as
-- before.
pub start_job-IsStarted :
    (new text input_fd : ℕ) (pids : List (ℕ × ℕ)) (b : Line) (es : ℕ) (s : Shell) (c : Cmd)
    (d : Line) (xs : List (ℕ × Job)) (pss : List (List Node))
    → new ≢ 0
    → text ≢ 0
    → IsLine b es
    → OffJobs new xs
    → Jobs s.heap.jobs s.head xs
    → Lists s.heap.processes xs pss
    → Fresh pids []
    → AwayAll pids pss
    → parsecmd b es ≡ done (c, d)
    → (s' : Shell) × (start_job new text input_fd pids b es s ≡ done (start new c, s'))
      × IsStarted new text input_fd pids b es c s s' xs pss
unfolding start_job
start_job-IsStarted new text input_fd pids b es s c d xs pss nz tz line off jobs lists fresh away
      parsed =
    let (g1, made, ok1, ps, stored, block) =
      get_job_lem new text (s.count + 1) input_fd b es s.heap nz tz line in
    let (g2, linked, ok2) = link_job_lem s.heap.jobs g1.jobs new s.head _ c nz refl ok1 in
    rw (made, parsed, linked)
      (reading new text input_fd pids b es s c (record g1 { jobs = g2 }) xs pss nz line off jobs
        fresh away lists
        (record { here = ok2.at; same = ok2.off; processes = ps; stored = stored; block = block }))

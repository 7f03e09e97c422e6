-- ===== src/Sh/Received.antt =====
-- sh.c: the processes of a job that `main` starts, as their pids come through the pipe.
use osce.Prelude.{ℕ, ◌≡◌, ◌≢◌, refl, sym, ◌∙◌, some, List, [], ◌∷◌, done}
use osce.Sh.Jobs.{Job, Store, Heap, put, get_process, add_process_to_job, Process}
use osce.Sh.Chains.{Node, process, Chain, Apart, put-same, put-other, Chain-put, nonzero}
use osce.Sh.Commands.{received_pid, add_received}

-- The processes that are read go to the front one by one.
abbrev pub received : List (ℕ × ℕ) → List Node → List Node
received [] ps = ps
received ((c, new) ∷ pids) ps = received pids ((new, received_pid c) ∷ ps)

-- What `malloc` returns for them is not NULL, and not in use for a process of the list.
abbrev pub Fresh : List (ℕ × ℕ) → List Node → Type 0
Fresh [] ps = Unit
Fresh ((c, new) ∷ pids) ps = (new ≢ 0) × Apart new ps × Fresh pids ((new, received_pid c) ∷ ps)

-- None of them is in use for a process of this list, of none of these lists.
abbrev pub Away : List (ℕ × ℕ) → List Node → Type 0
Away [] ps = Unit
Away ((c, new) ∷ pids) ps = Apart new ps × Away pids ps

abbrev pub AwayAll : List (ℕ × ℕ) → List (List Node) → Type 0
AwayAll pids [] = Unit
AwayAll pids (ps ∷ pss) = Away pids ps × AwayAll pids pss

-- The processes of each job.
abbrev pub Lists : Store Process → List (ℕ × Job) → List (List Node) → Type 0
Lists h [] [] = Unit
Lists h ((x, j) ∷ xs) (ps ∷ pss) = Chain h j.processes ps × Lists h xs pss
Lists h [] (ps ∷ pss) = ⊥
Lists h (x ∷ xs) [] = ⊥

-- The job at `a` is `j` with these processes, and all else is as before.
pub record HasProcesses (h h' : Heap) (a : ℕ) (j : Job) (pids : List (ℕ × ℕ)) (ps : List Node)
    : Type 0 where
  pub texts : h'.texts ≡ h.texts
  pub bytes : h'.bytes ≡ h.bytes
  pub kept :
      (q : ℕ) (qs : List Node) → Away pids qs → Chain h.processes q qs → Chain h'.processes q qs
  pub first : ℕ
  pub here : h'.jobs a ≡ some (record j { processes = first })
  pub chain : Chain h'.processes first ps
  pub others : (b : ℕ) → b ≢ a → h'.jobs b ≡ h.jobs b

add_process : ℕ → ℕ → ℕ → Job → Heap → Heap
add_process new a pid j h = record h {
  jobs = put a (some (record j { processes = new })) h.jobs;
  processes = put new (some (process pid j.processes)) (put new (some (process pid 0)) h.processes);
}

add_process_to_job_lem :
    (new a pid : ℕ) (j : Job) (h : Heap)
    → new ≢ 0
    → a ≢ 0
    → h.jobs a ≡ some j
    → add_process_to_job new a pid h ≡ done (add_process new a pid j h)
unfolding add_process_to_job get_process add_process
add_process_to_job_lem new a pid j h nz na e =
    rw (nonzero new nz, put-same new (some (process pid 0)) h.processes, nonzero a na, e)

pub add_received-HasProcesses :
    (a : ℕ) (j : Job) (pids : List (ℕ × ℕ)) (ps : List Node) (h : Heap)
    → a ≢ 0
    → h.jobs a ≡ some j
    → Chain h.processes j.processes ps
    → Fresh pids ps
    → (h' : Heap) × (add_received a pids h ≡ done h')
      × HasProcesses h h' a j pids (received pids ps)
unfolding add_received add_process
add_received-HasProcesses a j [] ps h na e c fresh = (
  h,
  refl,
  record {
    texts = refl;
    bytes = refl;
    kept = λ q qs away ch. ch;
    first = j.processes;
    here = e;
    chain = c;
    others = λ b ne. refl;
  },
)
add_received-HasProcesses a j ((c, new) ∷ pids) ps h na e chain (nz, apart, fresh) =
    let pid = received_pid c in
    let h1 = add_process new a pid j h in
    let zeroed = put new (some (process pid 0)) h.processes in
    let (h', run, ok) =
      add_received-HasProcesses a (record j { processes = new }) pids ((new, received_pid c) ∷ ps)
        h1 na (put-same a _ h.jobs)
        (
          refl,
          nz,
          (
            j.processes,
            put-same new (some (process pid j.processes)) zeroed,
            Chain-put zeroed j.processes new _ ps apart
                (Chain-put h.processes j.processes new _ ps apart chain),
          ),
        )
        fresh in
    (
      h',
      rw (add_process_to_job_lem new a (received_pid c) j h nz na e) run,
      record {
        texts = ok.texts;
        bytes = ok.bytes;
        kept = λ q qs (off, away) ch.
            ok.kept q qs away
              (Chain-put zeroed q new _ qs off (Chain-put h.processes q new _ qs off ch));
        first = ok.first;
        here = ok.here;
        chain = ok.chain;
        others = λ b ne. ok.others b ne ∙ put-other a b _ h.jobs (λ q. ne (sym q));
      },
    )

pub Lists-kept :
    (h g : Store Process) (pids : List (ℕ × ℕ)) (xs : List (ℕ × Job)) (pss : List (List Node))
    → ((q : ℕ) (qs : List Node) → Away pids qs → Chain h q qs → Chain g q qs)
    → AwayAll pids pss
    → Lists h xs pss
    → Lists g xs pss
Lists-kept h g pids [] [] kept away ls = tt
Lists-kept h g pids ((x, j) ∷ xs) (ps ∷ pss) kept (a, away) (c, ls) =
    (kept j.processes ps a c, Lists-kept h g pids xs pss kept away ls)
Lists-kept h g pids [] (ps ∷ pss) kept away ls = elim ls [ ]
Lists-kept h g pids (x ∷ xs) [] kept away ls = elim ls [ ]

-- ===== src/Sh/Resume.antt =====
-- sh.c: `findJobById`, `findForegroundJob` and the command `fg N` of `main`.
use osce.Prelude.{
  ℕ, zero, suc, ◌-◌, ◌<◌, ◌≡◌, ◌≢◌, refl, Bool, Option, none, some, List, [], ◌∷◌, ◌==◌,
  if◌then◌else◌, arith, Outcome, done, panic, ◌>>=◌, length, Bool-cases, inl, inr,
}
use osce.Ulib.{atoi}
use osce.Sh.Lexer.{Line}
use osce.Sh.Jobs.{Job, Store, Heap, foreground, put, find_from, find_job_by_id, find_foreground_job}
use osce.Sh.Chains.{nonzero}
use osce.Sh.Commands.{clear_job_list, set_kind, bytes_of, Shell, Effect, resume, main_line}

-- A list of these jobs, with their addresses, starts at `a`.
abbrev pub Jobs : Store Job → ℕ → List (ℕ × Job) → Type 0
Jobs h a [] = a ≡ 0
Jobs h a ((x, j) ∷ xs) = (a ≡ x) × (x ≢ 0) × (h x ≡ some j) × Jobs h j.next xs

-- The first with the test.
abbrev pub pick : (Job → Bool) → List (ℕ × Job) → Option (ℕ × Job)
pick test [] = none
pick test (x ∷ xs) = let rest = pick test xs in if test x.1 then some x else rest

abbrev address : Option (ℕ × Job) → ℕ
address none = 0
address (some (x, j)) = x

find_from-pick :
    (test : Job → Bool) (fuel head : ℕ) (h : Store Job) (xs : List (ℕ × Job))
    → length xs < fuel
    → Jobs h head xs
    → find_from test fuel head h ≡ done (address (pick test xs))
unfolding find_from
find_from-pick test zero head h xs lt c = absurd (omega arith)
find_from-pick test (suc fuel) head h [] lt null = rw null
find_from-pick test (suc fuel) head h ((x, j) ∷ xs) lt (same, nz, e, c) =
    elim (Bool-cases (test j)) [
      | inl hit ↦ rw (same, nonzero x nz, e, hit)
      | inr miss ↦
          rw (same, nonzero x nz, e, miss) (find_from-pick test fuel j.next h xs (omega arith) c)
    ]

-- What is found is in the memory, and not at 0.
abbrev There : Store Job → Option (ℕ × Job) → Type 0
There h none = Unit
There h (some (x, j)) = (x ≢ 0) × (h x ≡ some j)

pick-There :
    (test : Job → Bool) (head : ℕ) (h : Store Job) (xs : List (ℕ × Job))
    → Jobs h head xs
    → There h (pick test xs)
pick-There test head h [] null = tt
pick-There test head h ((x, j) ∷ xs) (same, nz, e, c) = elim (Bool-cases (test j)) [
  | inl hit ↦ rw hit (nz, e)
  | inr miss ↦ rw miss (pick-There test j.next h xs c)
]

-- The command `fg N` behind its search.
abbrev resumed : ℕ → ℕ → Heap → Option (ℕ × Job) → Outcome (Effect × Shell)
resumed head count h none = panic
resumed head count h (some (x, j)) = done (
  resume,
  record {
    head = head;
    count = count;
    heap = record h { jobs = put x (some (record j { kind = foreground })) h.jobs };
  },
)

set_kind_lem :
    (head count : ℕ) (h : Heap) (r : Option (ℕ × Job))
    → There h.jobs r
    → (do
      jobs ← set_kind (address r) foreground h.jobs
      done (resume, record { head = head; count = count; heap = record h { jobs = jobs } }))
      ≡ resumed head count h r
unfolding set_kind
set_kind_lem head count h none at = refl
set_kind_lem head count h (some (x, j)) (nz, e) = rw (nonzero x nz, e)

-- When the jobs that `clearJobList` leaves, fewer than the rounds, have none in the foreground, a
-- line that starts with `fg` and a space moves the first job whose id is the number behind it to
-- the foreground and changes nothing else; if no job has that id, it writes through NULL.
pub main_line-resume :
    (gone : ℕ → Bool) (rounds new text input_fd : ℕ) (pids : List (ℕ × ℕ)) (b : Line) (es : ℕ)
    (s : Shell) (head : ℕ) (h : Heap) (xs : List (ℕ × Job))
    → clear_job_list gone rounds s.head s.heap ≡ done (head, h)
    → Jobs h.jobs head xs
    → length xs < rounds
    → pick (λ j. j.kind == foreground) xs ≡ none
    → b 0 ≡ 102
    → b 1 ≡ 103
    → b 2 ≡ 32
    → main_line gone rounds new text input_fd pids b es s
      ≡ resumed head s.count h (pick (λ j. j.id == atoi (bytes_of b 3 (es - 4))) xs)
unfolding main_line find_job_by_id find_foreground_job
main_line-resume gone rounds new text input_fd pids b es s head h xs cleared c lt free b0 b1 b2 =
    let none_fg = find_from-pick (λ j. j.kind == foreground) rounds head h.jobs xs lt c in
    let by_id =
      find_from-pick (λ j. j.id == atoi (bytes_of b 3 (es - 4))) rounds head h.jobs xs lt c in
    let there = pick-There (λ j. j.id == atoi (bytes_of b 3 (es - 4))) head h.jobs xs c in
    rw (cleared, none_fg, free, b0, b1, b2, by_id) (set_kind_lem head s.count h _ there)

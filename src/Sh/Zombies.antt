-- ===== src/Sh/Zombies.antt =====
-- sh.c: what `clearZombieProcesses` makes of a list of processes.
use osce.Prelude.{
  ℕ, zero, suc, ◌<◌, ◌≤◌, ◌≡◌, ◌≢◌, refl, sym, ◌∙◌, ap, Bool, false, Option, none, some, List, [],
  ◌∷◌, ◌==◌, if◌then◌else◌, arith, Outcome, done, panic, ◌>>=◌, length, Bool-cases, inl, inr,
}
use osce.Sh.Jobs.{Process, Store, load, put, first_live, clear_behind, clear_zombie_processes}
use osce.Sh.Chains.{Node, process, Chain, Apart, AllApart, put-other, load-some, Chain-put, nonzero}
use osce.Sh.Unlink.{cons, live_from, left_of, Swept, clear_behind-Swept}

-- The memory and the list behind a part of the pass.
pub record IsCleared (h h' : Store Process) (head : ℕ) (xs ys : List Node) : Type 0 where
  pub chain : Chain h' head ys
  pub frame : (a : ℕ) → Apart a xs → h' a ≡ h a

abbrev pub Cleared :
    Store Process → List Node → Option (List Node) → Outcome (ℕ × Store Process) → Type 0
Cleared h xs none m = m ≡ panic
Cleared h xs (some ys) m = (r : ℕ × Store Process) × (m ≡ done r) × IsCleared h r.1 r.0 xs ys

module _ (gone : ℕ → Bool) where
  Apart-live : (a : ℕ) (xs : List Node) → Apart a xs → Apart a (live_from gone xs)
  Apart-live a [] ap_ = ap_
  Apart-live a ((x, p) ∷ xs) (ne, ap_) = elim (Bool-cases (gone p)) [
    | inl dead ↦ rw dead (Apart-live a xs ap_)
    | inr alive ↦ rw alive (ne, ap_)
  ]

  AllApart-live : (xs : List Node) → AllApart xs → AllApart (live_from gone xs)
  AllApart-live [] all = all
  AllApart-live ((x, p) ∷ xs) (ax, all) = elim (Bool-cases (gone p)) [
    | inl dead ↦ rw dead (AllApart-live xs all)
    | inr alive ↦ rw alive (ax, all)
  ]

  length-live : (xs : List Node) → length (live_from gone xs) ≤ length xs
  length-live [] = omega arith
  length-live ((x, p) ∷ xs) = elim (Bool-cases (gone p)) [
    | inl dead ↦ rw dead (omega (arith, length-live xs))
    | inr alive ↦ rw alive (omega arith)
  ]

  first_live-Cleared :
      (fuel : ℕ) (h : Store Process) (cur : ℕ) (xs : List Node)
      → length xs < fuel
      → AllApart xs
      → Chain h cur xs
      → Cleared h xs (some (live_from gone xs)) (first_live gone fuel cur h)
  unfolding first_live
  first_live-Cleared zero h cur xs lt all c = absurd (omega arith)
  first_live-Cleared (suc fuel) h cur [] lt all null =
      ((0, h), rw null, record { chain = refl; frame = λ a ap_. refl })
  first_live-Cleared (suc fuel) h cur ((x, p) ∷ xs) lt (ax, all) (same, nz, (n, ex, c)) =
      elim (Bool-cases (gone p)) [
        | inl dead ↦
            let ((a, h'), e, ok) =
              first_live-Cleared fuel (put x none h) n xs (omega arith) all
                (Chain-put h n x none xs ax c) in
            rw dead (
              (a, h'),
              rw (same, nonzero x nz, ex, dead) e,
              record {
                chain = ok.chain;
                frame = λ b (ne, ap_). ok.frame b ap_ ∙ put-other x b none h (λ q. ne (sym q));
              },
            )
        | inr alive ↦ rw alive (
          (cur, h),
          rw (same, nonzero x nz, ex, alive),
          record { chain = (same, nz, (n, ex, c)); frame = λ b ap_. refl },
        )
      ]

  -- What the pass leaves: nothing, or the first process that is live and what is left behind it.
  abbrev pub left : List Node → Option (List Node)
  left [] = some []
  left (x ∷ xs) = cons x (left_of gone false xs)

  Swept-Cleared :
      (h h1 : Store Process) (x p : ℕ) (xs ys : List Node) (r : Option (List Node))
      (m : Outcome (Store Process))
      → x ≢ 0
      → ((a : ℕ) → Apart a xs → (h1 a ≡ h a) × Apart a ((x, p) ∷ ys))
      → Swept gone h1 x p ys r m
      → Cleared h xs (cons (x, p) r) (do h2 ← m; done (x, h2))
  Swept-Cleared h h1 x p xs ys none m nz sub s = rw s
  Swept-Cleared h h1 x p xs ys (some zs) m nz sub (h', e, ok) = (
    (x, h'),
    rw e,
    record {
      chain = (refl, nz, (ok.next, ok.here, ok.chain));
      frame = λ a ap_. let (same, (ne, rest)) = sub a ap_ in ok.frame a ne rest ∙ same;
    },
  )

  behind : ℕ → ℕ → Store Process → Outcome (ℕ × Store Process)
  behind fuel head h1 = do
    n ← load h1 head
    h2 ← clear_behind gone fuel head n.next h1
    done (head, h2)

  behind_eq :
      (fuel x : ℕ) (h1 : Store Process) (c : Process)
      → x ≢ 0
      → h1 x ≡ some c
      → behind fuel x h1 ≡ (do h2 ← clear_behind gone fuel x c.next h1; done (x, h2))
  unfolding behind
  behind_eq fuel x h1 c nz e =
      ap (λ m. m >>= (λ (n : Process). do h2 ← clear_behind gone fuel x n.next h1; done (x, h2)))
        (load-some h1 x c nz e)

  rest_lem :
      (fuel : ℕ) (h h1 : Store Process) (head : ℕ) (xs ys : List Node)
      → length ys < fuel
      → AllApart ys
      → ((a : ℕ) → Apart a xs → (h1 a ≡ h a) × Apart a ys)
      → Chain h1 head ys
      → Cleared h xs (left ys) (if head == 0 then done (0, h1) else behind fuel head h1)
  rest_lem fuel h h1 head xs [] lt all sub null =
      ((0, h1), rw null, record { chain = refl; frame = λ a ap_. (sub a ap_).0 })
  rest_lem fuel h h1 head xs ((x, p) ∷ ys) lt (ax, all) sub (same, nz, (n, ex, c)) =
      rw (same, nonzero x nz, behind_eq fuel x h1 (process p n) nz ex)
        (Swept-Cleared h h1 x p xs ys (left_of gone false ys) _ nz sub
          (clear_behind-Swept gone fuel false h1 x p n ys (omega arith) nz ax all (ex, c)))

  -- Clear.
  pub clear_zombie_processes-Cleared :
      (rounds : ℕ) (h : Store Process) (head : ℕ) (xs : List Node)
      → length xs < rounds
      → AllApart xs
      → Chain h head xs
      → Cleared h xs (left (live_from gone xs)) (clear_zombie_processes gone rounds head h)
  unfolding clear_zombie_processes behind
  clear_zombie_processes-Cleared rounds h head xs lt all c =
      let ((a, h1), e, ok) = first_live-Cleared rounds h head xs lt all c in
      rw e (
        rest_lem rounds h h1 a xs (live_from gone xs) (omega (arith, length-live xs))
          (AllApart-live xs all) (λ b ap_. (ok.frame b ap_, Apart-live b xs ap_)) ok.chain)

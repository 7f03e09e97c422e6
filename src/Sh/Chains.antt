-- ===== src/Sh/Chains.antt =====
-- sh.c: linked lists of processes in the shell's memory, as lists of addresses with their pids.
use osce.Prelude.{ℕ, ◌≡◌, ◌≢◌, ◌∙◌, false, Option, some, List, [], ◌∷◌, ◌==◌, arith, done}
use osce.Sh.Jobs.{Process, Store, load, put}

-- An address and the pid of the node there.
abbrev pub Node : Type 0
Node = ℕ × ℕ

abbrev pub process : ℕ → ℕ → Process
process pid next = record { pid = pid; next = next }

-- A list of these nodes starts at `a`.
abbrev pub Chain : Store Process → ℕ → List Node → Type 0
Chain h a [] = a ≡ 0
Chain h a ((x, pid) ∷ xs) =
    (a ≡ x) × (x ≢ 0) × ((n : ℕ) × (h x ≡ some (process pid n)) × Chain h n xs)

-- The address is none of the list's.
abbrev pub Apart : ℕ → List Node → Type 0
Apart a [] = Unit
Apart a ((x, pid) ∷ xs) = (a ≢ x) × Apart a xs

abbrev pub AllApart : List Node → Type 0
AllApart [] = Unit
AllApart ((x, pid) ∷ xs) = Apart x xs × AllApart xs

pub put-same : {A : Type 0} (a : ℕ) (v : Option A) (h : Store A) → put a v h a ≡ v
put-same a v h = ground arith

pub put-other : {A : Type 0} (a b : ℕ) (v : Option A) (h : Store A) → a ≢ b → put a v h b ≡ h b
put-other a b v h ne = ground arith

pub load-some :
    {A : Type 0} (h : Store A) (a : ℕ) (n : A) → a ≢ 0 → h a ≡ some n → load h a ≡ done n
load-some h a n ne e = ground arith

-- A list is not touched by what is written elsewhere.
pub Chain-put :
    (h : Store Process) (a b : ℕ) (v : Option Process) (xs : List Node)
    → Apart b xs
    → Chain h a xs
    → Chain (put b v h) a xs
Chain-put h a b v [] apart e = e
Chain-put h a b v ((x, pid) ∷ xs) (ne, apart) (e, nz, (n, eq, rest)) =
    (e, nz, (n, put-other b x v h ne ∙ eq, Chain-put h n b v xs apart rest))

pub nonzero : (a : ℕ) → a ≢ 0 → (a == 0) ≡ false
nonzero a ne = ground arith

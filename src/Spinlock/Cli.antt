-- ===== src/Spinlock/Cli.antt =====
-- spinlock.c, nested calls of `pushcli` and `popcli`.
use osce.Prelude.{
  ℕ, zero, suc, ◌+◌, ◌<◌, ◌^◌, ◌≡◌, refl, ◌∙◌, ap, false, arith, Outcome, done, ◌>>=◌,
}
use osce.Spinlock.{Cpu, pushcli, popcli}

-- `n` calls in a row.
pub pushes : ℕ → Cpu → Cpu
pushes zero c = c
pushes (suc n) c = pushes n (pushcli c)

pub pops : ℕ → Cpu → Outcome Cpu
pops zero c = done c
pops (suc n) c = do c' ← pops n c; popcli c'

inner_pair :
    (c : Cpu) → 0 < c.ncli → c.ncli + 1 < 2 ^ 31 → c.flag ≡ false → popcli (pushcli c) ≡ done c
unfolding pushcli popcli
inner_pair c some_left small off = ground arith

pushcli-off :
    (c : Cpu) (n : ℕ)
    → c.ncli + suc n < 2 ^ 31
    → (0 < (pushcli c).ncli) × ((pushcli c).ncli + n < 2 ^ 31) × ((pushcli c).flag ≡ false)
unfolding pushcli
pushcli-off c n small = (omega arith, omega arith, refl)

pops-pushes :
    (n : ℕ) (c : Cpu)
    → 0 < c.ncli
    → c.ncli + n < 2 ^ 31
    → c.flag ≡ false
    → pops n (pushes n c) ≡ done c
unfolding pushes pops
pops-pushes zero c some_left small off = refl
pops-pushes (suc n) c some_left small off =
    let (pos, less, down) = pushcli-off c n small in
    ap (λ o. o >>= popcli) (pops-pushes n (pushcli c) pos less down)
    ∙ inner_pair c some_left (omega arith) off

pushes-off : (n : ℕ) (c : Cpu) → c.flag ≡ false → (pushes n c).flag ≡ false
unfolding pushes pushcli
pushes-off zero c off = off
pushes-off (suc n) c off = pushes-off n (pushcli c) refl

outer_pair : (c : Cpu) → c.ncli ≡ 0 → popcli (pushcli c) ≡ done (record c { intena = c.flag })
unfolding pushcli popcli
outer_pair c none_left = ground arith

-- From `ncli` 0, after `n + 1` calls of `pushcli` interrupts are off, and as many calls of
-- `popcli` do not panic and bring the interrupt flag and `ncli` back; `intena` keeps the flag.
-- The `int` does not overflow.
pops-pushes-flag :
    (n : ℕ) (c : Cpu)
    → c.ncli ≡ 0
    → suc n < 2 ^ 31
    → ((pushes (suc n) c).flag ≡ false)
      × (pops (suc n) (pushes (suc n) c) ≡ done (record c { intena = c.flag }))
unfolding pushes pops
pops-pushes-flag n c none_left small =
    let (pos, less, down) = pushcli-off c n (omega arith) in
    (
      pushes-off n (pushcli c) down,
      ap (λ o. o >>= popcli) (pops-pushes n (pushcli c) pos less down) ∙ outer_pair c none_left,
    )

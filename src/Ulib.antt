-- ===== src/Ulib.antt =====
-- ulib.c and printf.c: `atoi`, `strchr`, `strcmp` and `strcpy` of the user library, and `printint`.
-- An array is the list of its bytes; an `int` is its bit pattern, with its wrap-around written out.
pub mod Numbers
mod Tests
use osce.Prelude.{
  ℕ, zero, suc, ◌+◌, ◌-◌, ◌*◌, ◌/◌, ◌%◌, ◌^◌, Bool, true, false, not, ◌&&◌, Option, none, some,
  List, [], ◌∷◌, ◌==◌, ltb, leb, if◌then◌else◌, Outcome, done, out_of_fuel, ◌>>=◌,
}

-- The loop of `atoi` with `n` read so far. A byte above 127 is a negative `char`, so no digit.
unfoldable pub atoi_from : ℕ → List ℕ → ℕ
atoi_from n [] = n
atoi_from n (c ∷ s) =
    let rest = atoi_from ((n * 10 + c + 2 ^ 32 - 48) % 2 ^ 32) s in
    if leb 48 c && leb c 57 then rest else n

unfoldable pub atoi : List ℕ → ℕ
unfolding atoi_from
atoi s = atoi_from 0 s

-- The string from the first `c` on. `c` is not 0.
unfoldable pub strchr : List ℕ → ℕ → Option (List ℕ)
strchr [] c = none
strchr (x ∷ s) c =
    let rest = strchr s c in if x == 0 then none else if x == c then some (x ∷ s) else rest

-- The two bytes that `strcmp` subtracts.
unfoldable pub strcmp : List ℕ → List ℕ → ℕ × ℕ
strcmp [] q = (0, 0)
strcmp (a ∷ p) [] = (a, 0)
strcmp (a ∷ p) (b ∷ q) = if not (a == 0) && a == b then strcmp p q else (a, b)

-- `s` has room for the string `t`.
unfoldable pub strcpy : List ℕ → List ℕ → List ℕ
strcpy [] t = []
strcpy (d ∷ s) [] = d ∷ s
strcpy (d ∷ s) (c ∷ t) = let rest = strcpy s t in if c == 0 then 0 ∷ s else c ∷ rest

-- `digits[d]`
abbrev pub digit : ℕ → ℕ
digit d = if ltb d 10 then 48 + d else 55 + d

-- The loop over the digits of `printint`. `buf` holds the bytes from `buf[i - 1]` down to `buf[0]`.
unfoldable pub digits_loop : ℕ → ℕ → ℕ → List ℕ → Outcome (List ℕ)
digits_loop zero base x buf = out_of_fuel
digits_loop (suc fuel) base x buf =
    let buf' = digit (x % base) ∷ buf in
    let rest = digits_loop fuel base (x / base) buf' in if x / base == 0 then done buf' else rest

-- `x` for the `int` `xx`, negated if that is to be printed with its sign.
abbrev pub magnitude : Bool → ℕ → ℕ
magnitude neg xx = if neg then (2 ^ 32 - xx) % 2 ^ 32 else xx

-- `printint` behind its first `if`: what it prints are the bytes of `buf` from the last.
unfoldable pub print_magnitude : ℕ → Bool → ℕ → ℕ → Outcome (List ℕ)
unfolding digits_loop
print_magnitude fuel neg base x = do
  buf ← digits_loop fuel base x []
  done (if neg then 45 ∷ buf else buf)

-- In base 2 a `uint` has 32 digits at most.
unfoldable pub printint : ℕ → ℕ → Bool → Outcome (List ℕ)
unfolding print_magnitude
printint xx base sgn =
    let neg = sgn && leb (2 ^ 31) xx in print_magnitude 32 neg base (magnitude neg xx)

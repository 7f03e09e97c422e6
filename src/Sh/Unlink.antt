-- ===== src/Sh/Unlink.antt =====
-- sh.c: one round of the second loop of `clearZombieProcesses`, and the loop.
use osce.Prelude.{
  ℕ, zero, suc, ◌<◌, ◌≡◌, ◌≢◌, refl, sym, ◌∙◌, ap, Bool, true, false, Option, none, some, List, [],
  ◌∷◌, if◌then◌else◌, arith, Outcome, done, panic, ◌>>=◌, length, Bool-cases, inl, inr,
}
use osce.Sh.Jobs.{Process, Store, load, put, clear_behind}
use osce.Sh.Chains.{Node, process, Chain, Apart, AllApart, load-some, Chain-put, nonzero}

abbrev pub cons : Node → Option (List Node) → Option (List Node)
cons x none = none
cons x (some xs) = some (x ∷ xs)

module _ (gone : ℕ → Bool) where
  -- Without the processes at the front that are gone.
  abbrev pub live_from : List Node → List Node
  live_from [] = []
  live_from (x ∷ xs) = let rest = live_from xs in if gone x.1 then rest else x ∷ xs

  -- What is left of the processes behind a live one; `none` where the code reads through NULL.
  -- `jumped`: one was removed last, so that the code jumps over the next one. If the one behind
  -- that is gone, it unlinks both.
  abbrev pub left_of : Bool → List Node → Option (List Node)
  left_of false [] = some []
  left_of false (x ∷ xs) =
      let unlink = left_of true xs in
      let keep = left_of false xs in if gone x.1 then unlink else cons x keep
  left_of true [] = none
  left_of true (y ∷ []) = some (y ∷ [])
  left_of true (y ∷ z ∷ zs) =
      let unlink = left_of true zs in
      let keep = left_of false zs in if gone z.1 then unlink else cons y (cons z keep)

  -- The code is at the successor of `prev`, or has just unlinked that one's predecessor.
  abbrev pub At : Bool → Store Process → ℕ → ℕ → ℕ → List Node → Type 0
  At false h prev pid cur xs = (h prev ≡ some (process pid cur)) × Chain h cur xs
  At true h prev pid cur [] = ⊥
  At true h prev pid cur (y ∷ ys) =
      (h prev ≡ some (process pid y.0))
      × (y.0 ≢ 0)
      × (h y.0 ≡ some (process y.1 cur))
      × Chain h cur ys

  -- The memory behind the pass, for a list behind `prev` of which `ys` is left.
  pub record IsLeft (h h' : Store Process) (prev pid : ℕ) (xs ys : List Node) : Type 0 where
    pub next : ℕ
    pub here : h' prev ≡ some (process pid next)
    pub chain : Chain h' next ys
    pub frame : (a : ℕ) → a ≢ prev → Apart a xs → h' a ≡ h a

  abbrev pub Swept :
      Store Process → ℕ → ℕ → List Node → Option (List Node) → Outcome (Store Process) → Type 0
  Swept h prev pid xs none m = m ≡ panic
  Swept h prev pid xs (some ys) m =
      (h' : Store Process) × (m ≡ done h') × IsLeft h h' prev pid xs ys

  -- `unlink` of the second loop.
  abbrev unlinked : ℕ → ℕ → ℕ → ℕ → Store Process → Outcome (Store Process)
  unlinked fuel prev cur next h = do
    p ← load h prev
    let h1 = put cur none (put prev (some (record p { next = next })) h)
    p1 ← load h1 prev
    n ← load h1 p1.next
    clear_behind gone fuel prev n.next h1

  abbrev without : ℕ → ℕ → ℕ → ℕ → Store Process → Store Process
  without prev pid cur next h = put cur none (put prev (some (process pid next)) h)

  without-prev :
      (prev pid cur next : ℕ) (h : Store Process)
      → cur ≢ prev
      → without prev pid cur next h prev ≡ some (process pid next)
  without-prev prev pid cur next h ne = ground arith

  without-Chain :
      (prev pid cur next a : ℕ) (h : Store Process) (xs : List Node)
      → Apart prev xs
      → Apart cur xs
      → Chain h a xs
      → Chain (without prev pid cur next h) a xs
  without-Chain prev pid cur next a h xs ap ac c =
      Chain-put _ a cur none xs ac (Chain-put h a prev (some (process pid next)) xs ap c)

  jump : ℕ → ℕ → ℕ → Store Process → Outcome (Store Process)
  jump fuel prev next h = do n ← load h next; clear_behind gone fuel prev n.next h

  unlinked_eq :
      (fuel prev pid old cur next : ℕ) (h : Store Process)
      → prev ≢ 0
      → cur ≢ prev
      → h prev ≡ some (process pid old)
      → unlinked fuel prev cur next h ≡ jump fuel prev next (without prev pid cur next h)
  unfolding jump
  unlinked_eq fuel prev pid old cur next h nz ne e =
      ap
        (λ m. m >>= (λ (p : Process). do
          let h1 = put cur none (put prev (some (record p { next = next })) h)
          p1 ← load h1 prev
          n ← load h1 p1.next
          clear_behind gone fuel prev n.next h1))
        (load-some h prev _ nz e)
      ∙ ap (λ m. m >>= (λ (p1 : Process). jump fuel prev p1.next (without prev pid cur next h)))
          (load-some (without prev pid cur next h) prev _ nz (without-prev prev pid cur next h ne))

  jump_eq :
      (fuel prev next : ℕ) (h : Store Process) (p n : ℕ)
      → next ≢ 0
      → h next ≡ some (process p n)
      → jump fuel prev next h ≡ clear_behind gone fuel prev n h
  unfolding jump
  jump_eq fuel prev next h p n nz e =
      ap (λ m. m >>= (λ (c : Process). clear_behind gone fuel prev c.next h))
        (load-some h next _ nz e)

  jump_null : (fuel prev : ℕ) (h : Store Process) → jump fuel prev 0 h ≡ panic
  unfolding jump
  jump_null fuel prev h = refl

  Swept-eq :
      (h : Store Process) (prev pid : ℕ) (xs : List Node) (r : Option (List Node))
      (m m' : Outcome (Store Process))
      → m ≡ m'
      → Swept h prev pid xs r m'
      → Swept h prev pid xs r m
  Swept-eq h prev pid xs r m m' e s = rw e s

  -- The memory behind the unlinking is that of the rest of the pass.
  unlinked_lem :
      (fuel prev pid old cur next : ℕ) (h : Store Process) (xs : List Node)
      → prev ≢ 0
      → cur ≢ prev
      → h prev ≡ some (process pid old)
      → Apart prev xs
      → Apart cur xs
      → Chain h next xs
      → ((to : ℕ)
          → At true (without prev pid cur next h) prev pid to xs
          → Swept
              (without prev pid cur next h)
              prev
              pid
              xs
              (left_of true xs)
              (clear_behind gone fuel prev to (without prev pid cur next h)))
      → Swept
          (without prev pid cur next h)
          prev
          pid
          xs
          (left_of true xs)
          (unlinked fuel prev cur next h)
  unlinked_lem fuel prev pid old cur next h [] nz ne e ap_ ac c rest =
      unlinked_eq fuel prev pid old cur next h nz ne e
      ∙ ap (λ a. jump fuel prev a (without prev pid cur next h)) c
      ∙ jump_null fuel prev _
  unlinked_lem fuel prev pid old cur next h ((y, py) ∷ ys) nz ne e ap_ ac (c, nzy, (n, ey, cy))
        rest =
      let h1 = without prev pid cur next h in
      let (same, nzy', (n', ey', cy')) =
        without-Chain prev pid cur next y h ((y, py) ∷ ys) ap_ ac (refl, nzy, (n, ey, cy)) in
      let here = without-prev prev pid cur next h ne in
      Swept-eq h1 prev pid ((y, py) ∷ ys) (left_of true ((y, py) ∷ ys)) _ _
        (unlinked_eq fuel prev pid old cur next h nz ne e
          ∙ jump_eq fuel prev next h1 py n' (λ z. nzy (sym c ∙ z)) (ap h1 c ∙ ey'))
        (rest n' (here ∙ ap (λ a. some (process pid a)) c, nzy, ey', cy'))

  Swept-frame :
      (h h1 : Store Process) (prev pid : ℕ) (xs ys : List Node) (r : Option (List Node))
      (m : Outcome (Store Process))
      → ((a : ℕ) → a ≢ prev → Apart a xs → (h1 a ≡ h a) × Apart a ys)
      → Swept h1 prev pid ys r m
      → Swept h prev pid xs r m
  Swept-frame h h1 prev pid xs ys none m sub s = s
  Swept-frame h h1 prev pid xs ys (some zs) m sub (h', e, left) = (
    h',
    e,
    record {
      next = left.next;
      here = left.here;
      chain = left.chain;
      frame = λ a ne ap_. let (same, apart) = sub a ne ap_ in left.frame a ne apart ∙ same;
    },
  )

  -- The pass goes on behind `x`, which stays linked behind `prev`.
  Swept-cons :
      (h : Store Process) (prev pid x p : ℕ) (xs : List Node) (r : Option (List Node))
      (m : Outcome (Store Process))
      → x ≢ 0
      → x ≢ prev
      → Apart prev xs
      → h prev ≡ some (process pid x)
      → Swept h x p xs r m
      → Swept h prev pid ((x, p) ∷ xs) (cons (x, p) r) m
  Swept-cons h prev pid x p xs none m nz ne ap_ e s = s
  Swept-cons h prev pid x p xs (some zs) m nz ne ap_ e (h', e', left) = (
    h',
    e',
    record {
      next = x;
      here = left.frame prev (λ q. ne (sym q)) ap_ ∙ e;
      chain = (refl, nz, (left.next, left.here, left.chain));
      frame = λ a other (ax, apart). left.frame a ax apart;
    },
  )

  -- One round at `cur`.
  round_of : ℕ → ℕ → ℕ → Process → Store Process → Outcome (Store Process)
  round_of fuel prev cur c h =
      if gone c.pid then unlinked fuel prev cur c.next h else clear_behind gone fuel cur c.next h

  clear_behind-round :
      (fuel prev cur : ℕ) (h : Store Process) (c : Process)
      → cur ≢ 0
      → h cur ≡ some c
      → clear_behind gone (suc fuel) prev cur h ≡ round_of fuel prev cur c h
  unfolding clear_behind round_of
  clear_behind-round fuel prev cur h c nz e = rw (nonzero cur nz, e)

  clear_behind-end :
      (fuel prev : ℕ) (h : Store Process) → clear_behind gone (suc fuel) prev 0 h ≡ done h
  unfolding clear_behind
  clear_behind-end fuel prev h = refl

  without-other :
      (prev pid cur next a : ℕ) (h : Store Process)
      → a ≢ prev
      → a ≢ cur
      → without prev pid cur next h a ≡ h a
  without-other prev pid cur next a h ne nc = ground arith

  -- A round at `x`, the first of the list that the code has reached.
  round_lem :
      (fuel prev pid old x p n : ℕ) (h : Store Process) (xs ys : List Node)
      (keep : Option (List Node))
      → prev ≢ 0
      → prev ≢ x
      → h prev ≡ some (process pid old)
      → Apart prev xs
      → Apart x xs
      → Chain h n xs
      → ((a : ℕ) → Apart a ys → Apart a ((x, p) ∷ xs))
      → Swept h prev pid ys keep (clear_behind gone fuel x n h)
      → ((to : ℕ)
          → At true (without prev pid x n h) prev pid to xs
          → Swept
              (without prev pid x n h)
              prev
              pid
              xs
              (left_of true xs)
              (clear_behind gone fuel prev to (without prev pid x n h)))
      → Swept h prev pid ys
          (if gone p then left_of true xs else keep)
          (round_of fuel prev x (process p n) h)
  unfolding round_of
  round_lem fuel prev pid old x p n h xs ys keep nz ne e ap_ ax c sub kept unlink =
      elim (Bool-cases (gone p)) [
        | inl dead ↦ rw dead (
            Swept-frame h (without prev pid x n h) prev pid ys xs _ _
              (λ a other apart.
                let (ax_, rest) = sub a apart in (without-other prev pid x n a h other ax_, rest))
              (unlinked_lem fuel prev pid old x n h xs nz (λ q. ne (sym q)) e ap_ ax c unlink))
        | inr alive ↦ rw alive kept
      ]

  pub clear_behind-Swept :
      (fuel : ℕ) (jumped : Bool) (h : Store Process) (prev pid cur : ℕ) (xs : List Node)
      → length xs < fuel
      → prev ≢ 0
      → Apart prev xs
      → AllApart xs
      → At jumped h prev pid cur xs
      → Swept h prev pid xs (left_of jumped xs) (clear_behind gone fuel prev cur h)
  clear_behind-Swept zero jumped h prev pid cur xs lt nz ap_ all at = absurd (omega arith)
  clear_behind-Swept (suc fuel) false h prev pid cur [] lt nz ap_ all (e, null) = (
    h,
    ap (λ a. clear_behind gone (suc fuel) prev a h) null ∙ clear_behind-end fuel prev h,
    record { next = cur; here = e; chain = null; frame = λ a ne apart. refl },
  )
  clear_behind-Swept (suc fuel) true h prev pid cur [] lt nz ap_ all at = elim at [ ]
  clear_behind-Swept (suc fuel) true h prev pid cur ((y, py) ∷ []) lt nz ap_ all
        (e, nzy, ey, null) =
      (
        h,
        ap (λ a. clear_behind gone (suc fuel) prev a h) null ∙ clear_behind-end fuel prev h,
        record {
          next = y;
          here = e;
          chain = (refl, nzy, (cur, ey, null));
          frame = λ a ne apart. refl;
        },
      )
  clear_behind-Swept (suc fuel) false h prev pid cur ((x, p) ∷ xs) lt nz (ne, ap_) (ax, all)
        (e, (same, nzx, (n, ex, c))) =
      Swept-eq h prev pid ((x, p) ∷ xs) _ _ _
        (ap (λ a. clear_behind gone (suc fuel) prev a h) same
          ∙ clear_behind-round fuel prev x h (process p n) nzx ex)
        (round_lem fuel prev pid cur x p n h xs ((x, p) ∷ xs) (cons (x, p) (left_of false xs)) nz ne
          e ap_ ax c (λ a apart. apart)
          (Swept-cons h prev pid x p xs (left_of false xs) _ nzx (λ q. ne (sym q)) ap_
            (e ∙ ap (λ a. some (process pid a)) same)
            (clear_behind-Swept fuel false h x p n xs (omega arith) nzx ax all (ex, c)))
          (λ to at.
            clear_behind-Swept fuel true (without prev pid x n h) prev pid to xs (omega arith) nz
              ap_ all at))
  clear_behind-Swept (suc fuel) true h prev pid cur ((y, py) ∷ (z, pz) ∷ zs) lt nz (ney, (nez, ap_))
        ((nyz, ay), (az, all)) (e, nzy, ey, (same, nzz, (n, ez, c))) =
      Swept-eq h prev pid ((y, py) ∷ (z, pz) ∷ zs) _ _ _
        (ap (λ a. clear_behind gone (suc fuel) prev a h) same
          ∙ clear_behind-round fuel prev z h (process pz n) nzz ez)
        (round_lem fuel prev pid y z pz n h zs ((y, py) ∷ (z, pz) ∷ zs)
          (cons (y, py) (cons (z, pz) (left_of false zs))) nz nez e ap_ az c (λ a apart. apart.1)
          (Swept-cons h prev pid y py ((z, pz) ∷ zs) (cons (z, pz) (left_of false zs)) _ nzy
            (λ q. ney (sym q)) (nez, ap_) e
            (Swept-cons h y py z pz zs (left_of false zs) _ nzz (λ q. nyz (sym q)) ay
              (ey ∙ ap (λ a. some (process py a)) same)
              (clear_behind-Swept fuel false h z pz n zs (omega arith) nzz az all (ez, c))))
          (λ to at.
            clear_behind-Swept fuel true (without prev pid z n h) prev pid to zs (omega arith) nz
              ap_ all at))

-- ===== src/RouterCache/Probe.antt =====
-- The order in which src/uvhttp_router_cache.c probes its hash table: from the home of a path, by
-- `index = (index + 1) % size`, until the index is the first one again.
use uvhttp.Prelude.{
  ℕ, zero, suc, ◌+◌, ◌-◌, ◌%◌, ◌≤◌, ◌<◌, false, List, [], ◌∷◌, ◌++◌, ◌≡◌, refl, ap, sym, ◌∙◌, subst,
  ◌⊎◌, inl, inr, ◌==◌, if◌then◌else◌, All, length, arith, Bool-cases, ltb, length-append,
}
use native.Mathlib.Nat.{mod_self}

-- The indices that are visited from `index` on.
unfoldable pub probe_from : ℕ → ℕ → ℕ → ℕ → List ℕ
probe_from zero size start index = []
probe_from (suc rounds) size start index =
    let next = (index + 1) % size in
    let rest = probe_from rounds size start next in index ∷ (if next == start then [] else rest)

-- All indices from `start` on; as many rounds as there are slots are enough.
unfoldable pub probes : ℕ → ℕ → List ℕ
unfolding probe_from
probes size start = probe_from size size start start

-- `n` indices from `i` upwards.
abbrev up : ℕ → ℕ → List ℕ
up i zero = []
up i (suc n) = i ∷ up (i + 1) n

length-up : (i n : ℕ) → length (up i n) ≡ n
length-up i zero = refl
length-up i (suc n) = omega (arith, length-up (i + 1) n)

-- Below its start a probe goes on up to it.
probe_from-below :
    (n size start i : ℕ)
    → i < start
    → start < size
    → start - i ≤ n
    → probe_from n size start i ≡ up i (start - i)
unfolding probe_from
probe_from-below zero size start i h k f = absurd (omega arith)
probe_from-below (suc n) size start i h k f =
    let step : (i + 1) % size ≡ i + 1 = grind arith in
    elim (Bool-cases (i + 1 == start)) [
      | inl end ↦ let one : start - i ≡ 1 = ground arith in rw (step, end, one) refl
      | inr more ↦
          let left : start - i ≡ suc (start - (i + 1)) = ground arith in
          rw (step, more, left)
            (ap (◌∷◌ i) (probe_from-below n size start (i + 1) (ground arith) k (omega arith)))
    ]

-- From its start on a probe goes up to the end, and then from 0 to its start.
probe_from-above :
    (n size start i : ℕ)
    → start ≤ i
    → i < size
    → size - i + start ≤ n
    → probe_from n size start i ≡ up i (size - i) ++ up 0 start
unfolding probe_from
probe_from-above zero size start i h k f = absurd (omega arith)
probe_from-above (suc n) size start i h k f = elim (Bool-cases (i + 1 == size)) [
  | inl last ↦
      let end : i + 1 ≡ size = ground arith in
      let step : (i + 1) % size ≡ 0 = rw end (mod_self size) in
      let one : size - i ≡ 1 = omega arith in
      elim (Bool-cases (0 == start)) [
        | inl zero_start ↦
            let none_below : start ≡ 0 = ground arith in rw (step, zero_start, one, none_below) refl
        | inr more ↦
            rw (step, more, one)
              (ap (◌∷◌ i) (
                probe_from-below n size start 0 (ground arith) (omega arith) (omega arith)
                ∙ ap (up 0) (omega arith)))
      ]
  | inr more ↦
      let step : (i + 1) % size ≡ i + 1 = grind arith in
      let apart : (i + 1 == start) ≡ false = ground arith in
      let left : size - i ≡ suc (size - (i + 1)) = ground arith in
      rw (step, apart, left)
        (ap (◌∷◌ i)
          (probe_from-above n size start (i + 1) (omega arith) (ground arith) (omega arith)))
]

-- An index occurs in a list.
abbrev pub In : ℕ → List ℕ → Type 0
In j [] = ⊥
In j (i ∷ is) = (i ≡ j) ⊎ In j is

pub All-In {ℓ} : (P : ℕ → Type ℓ) (is : List ℕ) (j : ℕ) → All P is → In j is → P j
All-In P [] j a h = elim h [ ]
All-In P (i ∷ is) j (p, a) (inl e) = subst P e p
All-In P (i ∷ is) j (p, a) (inr h) = All-In P is j a h

In-append_right : (j : ℕ) (is js : List ℕ) → In j js → In j (is ++ js)
In-append_right j [] js h = h
In-append_right j (i ∷ is) js h = inr (In-append_right j is js h)

In-append_left : (j : ℕ) (is js : List ℕ) → In j is → In j (is ++ js)
In-append_left j [] js h = elim h [ ]
In-append_left j (i ∷ is) js (inl e) = inl e
In-append_left j (i ∷ is) js (inr h) = inr (In-append_left j is js h)

In-up : (j i n : ℕ) → i ≤ j → j < i + n → In j (up i n)
In-up j i zero h k = absurd (omega arith)
In-up j i (suc n) h k = elim (Bool-cases (i == j)) [
  | inl here ↦ inl (ground arith)
  | inr later ↦ inr (In-up j (i + 1) n (ground arith) (omega arith))
]

All-up : (i n size : ℕ) → i + n ≤ size → All (λ j. j < size) (up i n)
All-up i zero size h = tt
All-up i (suc n) size h = (omega arith, All-up (i + 1) n size (omega arith))

All-append :
    (size : ℕ) (is js : List ℕ)
    → All (λ j. j < size) is
    → All (λ j. j < size) js
    → All (λ j. j < size) (is ++ js)
All-append size [] js h k = k
All-append size (i ∷ is) js (h, hs) k = (h, All-append size is js hs k)

module _ (size start : ℕ) (inside : start < size) where
  probes_parts : probes size start ≡ up start (size - start) ++ up 0 start
  unfolding probes
  probes_parts = probe_from-above size size start start (omega arith) inside (omega arith)

  -- More rounds than there are slots change nothing.
  pub probe_from_fuel : (more : ℕ) → probe_from (size + more) size start start ≡ probes size start
  unfolding probes
  probe_from_fuel more =
      probe_from-above (size + more) size start start (omega arith) inside (omega arith)
      ∙ sym probes_parts

  -- A probe stays inside the table,
  pub probes-lt : All (λ j. j < size) (probes size start)
  probes-lt = rw probes_parts (
      All-append size (up start (size - start)) (up 0 start)
        (All-up start (size - start) size (omega arith)) (All-up 0 start size (omega arith)))

  -- and visits every slot.
  pub In-probes : (j : ℕ) → j < size → In j (probes size start)
  In-probes j h = rw probes_parts (elim (Bool-cases (ltb j start)) [
    | inl below ↦
        In-append_right j (up start (size - start)) (up 0 start)
          (In-up j 0 start (omega arith) (ground arith))
    | inr above ↦
        In-append_left j (up start (size - start)) (up 0 start)
          (In-up j start (size - start) (ground arith) (omega arith))
  ])

  pub length-probes : length (probes size start) ≡ size
  length-probes = rw probes_parts (
      omega (
        arith,
        length-append (up start (size - start)) (up 0 start),
        length-up start (size - start),
        length-up 0 start,
      ))

  -- A probe visits as many slots as there are, all of them in the table, every slot of the table
  -- among them; it ends by its own test, since more rounds change nothing.
  pub probes_lem :
      (length (probes size start) ≡ size)
      × All (λ j. j < size) (probes size start)
      × ((j : ℕ) → j < size → In j (probes size start))
      × ((more : ℕ) → probe_from (size + more) size start start ≡ probes size start)
  probes_lem = (length-probes, probes-lt, In-probes, probe_from_fuel)

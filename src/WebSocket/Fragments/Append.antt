-- ===== src/WebSocket/Fragments/Append.antt =====
-- Appending a fragment succeeds where there is room, and adds its bytes.
use native.Mathlib.Nat.{pow-suc}
use uvhttp.Prelude.{
  ℕ, zero, suc, ◌+◌, ◌*◌, ◌-◌, ◌^◌, ◌≤◌, ◌<◌, ◌≡◌, refl, true, false, List, ◌++◌, Option, some,
  length, length-append, arith, ltb, Bool-cases, ◌⊎◌, ◌==◌, inl, inr, ap,
}
use uvhttp.WebSocket.Connection.{Connection}
use uvhttp.WebSocket.Fragments.{double_until, grown_capacity, gathered, fragment_append}
use uvhttp.WebSocket.Fragments.Bounds.{IsBounded, fragment_append-IsBounded}

-- Enough rounds of doubling reach any size up to 2^63.
double_until_total :
    (fuel capacity required : ℕ)
    → 0 < capacity
    → required ≤ 2 ^ 63
    → required ≤ capacity * 2 ^ fuel
    → (size : ℕ) × (double_until (suc fuel) capacity required ≡ some size)
unfolding double_until
double_until_total zero capacity required pos small reach = (capacity, ground arith)
double_until_total (suc fuel) capacity required pos small reach =
    elim (Bool-cases (ltb capacity required)) [
      | inl below ↦
          let (size, e) =
            double_until_total fuel (capacity * 2) required (omega arith) small
              (omega (arith, ap (λ (t : ℕ). capacity * t) (pow-suc 2 fuel))) in
          (size, rw below (ground arith))
      | inr done ↦ (capacity, rw done)
    ]

grown_capacity_total :
    (capacity required : ℕ)
    → required ≤ 2 ^ 63
    → (size : ℕ) × (grown_capacity capacity required ≡ some size)
unfolding grown_capacity
grown_capacity_total capacity required small = elim (Bool-cases (capacity == 0)) [
  | inl none_yet ↦ (required, rw none_yet)
  | inr some_yet ↦
      let (size, e) = double_until_total 64 capacity required (ground arith) small (ground arith) in
      (size, rw some_yet e)
]

-- What an append that succeeds keeps and adds.
pub record Appended (c c' : Connection) (bytes : List ℕ) : Type 0 where
  pub whole : c'.fragmented ≡ some bytes
  pub opcode : c'.fragmented_opcode ≡ c.fragmented_opcode
  pub limit : c'.max_message_size ≡ c.max_message_size
  pub listens : c'.has_on_message ≡ c.has_on_message
  pub bounded : IsBounded c'

-- Is there room for a message of `n` bytes?
abbrev pub HasRoom : Connection → ℕ → Type 0
HasRoom c n = (n ≤ 2 ^ 63) × ((c.max_message_size ≡ 0) ⊎ (n ≤ c.max_message_size))

module _ (c : Connection) (pending payload : List ℕ) (v : IsBounded c)
    (is : c.fragmented ≡ some pending) (room : HasRoom c (length (pending ++ payload))) where
  appended_in_place :
      ltb (c.fragmented_capacity - length (gathered c.fragmented)) (length payload) ≡ false
      → fragment_append c payload ≡ some (record c { fragmented = some (pending ++ payload) })
  unfolding fragment_append
  appended_in_place fits = ground (arith, length-append pending payload)

  appended_grown :
      (size : ℕ)
      → ltb (c.fragmented_capacity - length (gathered c.fragmented)) (length payload) ≡ true
      → grown_capacity c.fragmented_capacity (length (gathered c.fragmented) + length payload)
        ≡ some size
      → fragment_append c payload
        ≡ some (record c { fragmented = some (pending ++ payload); fragmented_capacity = size })
  unfolding fragment_append
  appended_grown size short e = ground (arith, length-append pending payload)

  pub fragment_append-Appended :
      (c' : Connection) × (fragment_append c payload ≡ some c') × Appended c c' (pending ++ payload)
  fragment_append-Appended =
      elim (Bool-cases
        (ltb (c.fragmented_capacity - length (gathered c.fragmented)) (length payload))) [
          | inr fits ↦
              let e = appended_in_place fits in
              (
                _,
                e,
                record {
                  whole = refl;
                  opcode = refl;
                  limit = refl;
                  listens = refl;
                  bounded = fragment_append-IsBounded c _ payload v e;
                },
              )
          | inl short ↦
              let (size, grown) =
                grown_capacity_total c.fragmented_capacity
                  (length (gathered c.fragmented) + length payload)
                  (omega (
                    arith,
                    length-append pending payload,
                    ap (λ (o : Option (List ℕ)). length (gathered o)) is,
                  )) in
              let e = appended_grown size short grown in
              (
                _,
                e,
                record {
                  whole = refl;
                  opcode = refl;
                  limit = refl;
                  listens = refl;
                  bounded = fragment_append-IsBounded c _ payload v e;
                },
              )
        ]

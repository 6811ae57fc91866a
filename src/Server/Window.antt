-- ===== src/Server/Window.antt =====
-- How many requests the rate limit of src/uvhttp_server.c lets pass.
use uvhttp.Prelude.{
  ℕ, ◌+◌, ◌-◌, ◌*◌, ◌^◌, ◌≤◌, ◌<◌, min, true, false, List, [], ◌∷◌, ◌≡◌, refl, sym, ap, ◌∙◌, inl,
  inr, leb, length, arith, Bool-cases,
}
use uvhttp.Error.{Result, ok, err}
use uvhttp.Server.{RateLimit, since, count_request, check_rate_limit}

abbrev pub passed : Result (Unit {0}) → ℕ
passed (ok _) = 1
passed (err e) = 0

-- How many of the requests at these times pass.
unfoldable pub passes : RateLimit → List ℕ → ℕ
passes r [] = 0
passes r (now ∷ later) = let out = check_rate_limit r now in passed out.1 + passes out.0 later

-- Times that do not go back, from `start` on and before `stop`.
abbrev pub Within : ℕ → ℕ → List ℕ → Type 0
Within start stop [] = Unit
Within start stop (now ∷ later) = (start ≤ now) × (now < stop) × Within now stop later

Within-later : (a b stop : ℕ) (ts : List ℕ) → b ≤ a → Within a stop ts → Within b stop ts
Within-later a b stop [] h w = tt
Within-later a b stop (t ∷ ts) h (from, before, rest) = (omega arith, before, rest)

since_forward : (start now : ℕ) → start ≤ now → now < 2 ^ 64 → since start now ≡ now - start
since_forward start now h k = omega arith

-- A limit that is in force, with its counter at most at the limit.
pub record IsActive (r : RateLimit) : Type 0 where
  pub active : r.enabled ≡ true
  pub counted : r.request_count ≤ r.max_requests

check_inside :
    (r : RateLimit) (now : ℕ)
    → r.enabled ≡ true
    → r.window_start_time ≤ now
    → now < r.window_start_time + r.window_seconds * 1000
    → now < 2 ^ 64
    → check_rate_limit r now ≡ count_request r
unfolding check_rate_limit
check_inside r now on from before small =
    let inside : leb (r.window_seconds * 1000) (since r.window_start_time now) ≡ false =
      ground (arith, since_forward r.window_start_time now from small) in
    rw (on, inside) refl

check_outside :
    (r : RateLimit) (now : ℕ)
    → r.enabled ≡ true
    → r.window_start_time + r.window_seconds * 1000 ≤ now
    → now < 2 ^ 64
    → check_rate_limit r now
      ≡ count_request (record r { request_count = 0; window_start_time = now })
unfolding check_rate_limit
check_outside r now on over small =
    let outside : leb (r.window_seconds * 1000) (since r.window_start_time now) ≡ true =
      ground (arith, since_forward r.window_start_time now (omega arith) small) in
    rw (on, outside) refl

-- Inside one window exactly as many requests pass as the counter leaves.
pub passes_inside :
    (r : RateLimit) (ts : List ℕ)
    → IsActive r
    → Within r.window_start_time (r.window_start_time + r.window_seconds * 1000) ts
    → r.window_start_time + r.window_seconds * 1000 ≤ 2 ^ 64
    → passes r ts ≡ min (r.max_requests - r.request_count) (length ts)
unfolding passes
passes_inside r [] v w small = omega arith
passes_inside r (now ∷ later) v (from, before, rest) small =
    let e : check_rate_limit r now ≡ count_request r =
      check_inside r now v.active from before (omega arith) in
    let inside =
      Within-later now r.window_start_time (r.window_start_time + r.window_seconds * 1000) later
        from rest in
    rw e (elim (Bool-cases (leb r.max_requests r.request_count)) [
      | inl full ↦ rw full (let k = passes_inside r later v inside small in ground arith)
      | inr free ↦ rw free (
          let counted = record r { request_count = r.request_count + 1 } in
          let k =
            passes_inside counted later (record { active = v.active; counted = ground arith })
              inside small in
          ground arith)
    ])

Within-wider :
    (start stop more : ℕ) (ts : List ℕ) → stop ≤ more → Within start stop ts → Within start more ts
Within-wider start stop more [] h w = tt
Within-wider start stop more (t ∷ ts) h (from, before, rest) =
    (from, omega arith, Within-wider t stop more ts h rest)

abbrev restarted : RateLimit → ℕ → RateLimit
restarted r now = record r { request_count = 0; window_start_time = now }

passes-restarted :
    (r : RateLimit) (now : ℕ) (later : List ℕ)
    → r.enabled ≡ true
    → r.window_start_time + r.window_seconds * 1000 ≤ now
    → 1 ≤ r.window_seconds
    → now < 2 ^ 64
    → passes r (now ∷ later) ≡ passes (restarted r now) (now ∷ later)
unfolding passes
passes-restarted r now later on over some_window small =
    ap (λ (out : RateLimit × Result (Unit {0})). passed out.1 + passes out.0 later)
      (check_outside r now on over small
        ∙ sym (check_inside (restarted r now) now on (omega arith) (omega arith) small))

-- In any stretch of time no longer than a window, with times that do not go back and do not
-- overflow, at most twice as many requests pass as the limit says: what its counter leaves, and a
-- whole window's requests.
pub passes_le :
    (r : RateLimit) (start : ℕ) (ts : List ℕ)
    → IsActive r
    → r.window_start_time ≤ start
    → Within start (start + r.window_seconds * 1000) ts
    → start + 2 * (r.window_seconds * 1000) ≤ 2 ^ 64
    → passes r ts ≤ r.max_requests - r.request_count + r.max_requests
unfolding passes
passes_le r start [] v past w small = omega arith
passes_le r start (now ∷ later) v past (from, before, rest) small =
    elim (Bool-cases (leb (r.window_start_time + r.window_seconds * 1000) now)) [
      | inl over ↦
          let fresh : RateLimit = restarted r now in
          let all =
            passes_inside fresh (now ∷ later) (record { active = v.active; counted = omega arith })
              (
                omega arith,
                omega arith,
                Within-wider now (start + r.window_seconds * 1000) (now + r.window_seconds * 1000)
                    later (omega arith) rest,
              )
              (omega arith) in
          let same : passes r (now ∷ later) ≡ passes fresh (now ∷ later) =
            passes-restarted r now later v.active (ground arith) (omega arith) (omega arith) in
          omega (arith, same, all)
      | inr inside ↦
          let e : check_rate_limit r now ≡ count_request r =
            check_inside r now v.active (omega arith) (ground arith) (omega arith) in
          let sooner = Within-later now start (start + r.window_seconds * 1000) later from rest in
          rw e (elim (Bool-cases (leb r.max_requests r.request_count)) [
            | inl full ↦
                rw full (let k = passes_le r start later v past sooner small in omega (arith, k))
            | inr free ↦ rw free (
                let counted = record r { request_count = r.request_count + 1 } in
                let k =
                  passes_le counted start later
                    (record { active = v.active; counted = ground arith }) past sooner small in
                ground arith)
          ])
    ]

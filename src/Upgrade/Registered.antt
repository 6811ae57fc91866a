-- ===== src/Upgrade/Registered.antt =====
-- The registry of src/uvhttp_protocol_upgrade.c stays well formed, and unregistering undoes
-- registering.
use uvhttp.Prelude.{
  ℕ, suc, ◌+◌, ◌-◌, ◌≤◌, ◌<◌, true, false, List, [], ◌∷◌, Option, none, some, ◌≡◌, refl, ap, ◌∙◌,
  ◌⊎◌, inl, inr, leb, length, take, take_all, caseeq, lower_all, lower, streq, streq_refl, arith,
  Bool-cases,
}
use uvhttp.Error.{invalid_param, already_exists, Result, ok, err}
use uvhttp.Upgrade.{
  Protocol, Registry, is_registered, protocol_of, header_too_long, register_protocol,
  remove_protocol, unregister_protocol,
}

-- No two protocols have the same name, whatever the case of its letters.
abbrev pub AllDiffer : List Protocol → Type 0
AllDiffer [] = Unit
AllDiffer (p ∷ ps) = (is_registered p.name ps ≡ false) × AllDiffer ps

-- At most ten protocols of different names, and the count is theirs.
pub record IsRegistry (g : Registry) : Type 0 where
  pub counted : g.protocol_count ≡ length g.protocols
  pub few : g.protocol_count ≤ 10
  pub different : AllDiffer g.protocols

lower_twice : (c : ℕ) → lower (lower c) ≡ lower c
lower_twice c = ground arith

lower_all_twice : (s : List ℕ) → lower_all (lower_all s) ≡ lower_all s
lower_all_twice [] = refl
lower_all_twice (c ∷ s) = rw (lower_twice c, lower_all_twice s) refl

pub length-lower_all : (s : List ℕ) → length (lower_all s) ≡ length s
length-lower_all [] = refl
length-lower_all (c ∷ s) = ap suc (length-lower_all s)

stored_name : (name : List ℕ) → length name < 32 → take 31 (lower_all name) ≡ lower_all name
stored_name name short = take_all 31 (lower_all name) (omega (arith, length-lower_all name))

pub caseeq-lower_all : (a name : List ℕ) → caseeq a (lower_all name) ≡ caseeq a name
unfolding caseeq
caseeq-lower_all a name = ap (streq (lower_all a)) (lower_all_twice name)

is_registered-lower_all :
    (name : List ℕ) (ps : List Protocol) → is_registered (lower_all name) ps ≡ is_registered name ps
unfolding is_registered
is_registered-lower_all name [] = refl
is_registered-lower_all name (p ∷ ps) =
    rw (caseeq-lower_all p.name name, is_registered-lower_all name ps) refl

caseeq_stored : (name : List ℕ) → caseeq (lower_all name) name ≡ true
unfolding caseeq
caseeq_stored name = rw (lower_all_twice name) (streq_refl (lower_all name))

protocol_of-name :
    (name : List ℕ) (header : Option (List ℕ)) (functions : ℕ)
    → length name < 32
    → (protocol_of name header functions).name ≡ lower_all name
protocol_of-name name none functions short = stored_name name short
protocol_of-name name (some header) functions short = stored_name name short

-- What registering does: the protocol comes first, in a well-formed registry, which unregistering
-- turns back; or nothing changes, with the error for a text too long, a name that is taken, or
-- ten protocols.
abbrev pub Registers :
    Registry → List ℕ → Option (List ℕ) → ℕ → Option Registry × Result (Unit {0}) → Type 0
Registers g name header functions (none, result) = ⊥
Registers g name header functions (some g', ok _) =
    (g'.protocols ≡ protocol_of name header functions ∷ g.protocols)
    × IsRegistry g'
    × (is_registered name g.protocols ≡ false)
    × (unregister_protocol (some g') name ≡ (some g, ok tt))
Registers g name header functions (some g', err e) =
    (g' ≡ g)
    × (((e ≡ already_exists) × (is_registered name g.protocols ≡ true))
        ⊎ ((e ≡ invalid_param)
            × ((32 ≤ length name) ⊎ ((header_too_long header ≡ true) ⊎ (g.protocol_count ≡ 10)))))

remove-registered :
    (name : List ℕ) (p : Protocol) (ps : List Protocol)
    → p.name ≡ lower_all name
    → remove_protocol name (p ∷ ps) ≡ some ps
unfolding remove_protocol
remove-registered name p ps e =
    let same : caseeq p.name name ≡ true = rw e (caseeq_stored name) in rw same refl

-- Registering a protocol in a well-formed registry, on every branch: it becomes the first protocol,
-- its name was free, whatever the case of its letters, the registry stays well formed, and
-- unregistering it gives back the registry as it was; or an error leaves the registry as it is,
-- since the name is taken, it has 32 bytes or more, the header has 64 or more, or there are ten
-- protocols.
pub register_protocol-Registers :
    (g : Registry) (name : List ℕ) (header : Option (List ℕ)) (functions : ℕ)
    → IsRegistry g
    → Registers g name header functions (register_protocol (some g) name header functions)
unfolding register_protocol unregister_protocol
register_protocol-Registers g name header functions v = elim (Bool-cases (leb 32 (length name))) [
  | inl long ↦ rw long (refl, inr (refl, inl (ground arith)))
  | inr short ↦ elim (Bool-cases (header_too_long header)) [
    | inl wide ↦ rw (short, wide) (refl, inr (refl, inr (inl wide)))
    | inr fits ↦ elim (Bool-cases (is_registered name g.protocols)) [
      | inl taken ↦ rw (short, fits, taken) (refl, inl (refl, taken))
      | inr free ↦ elim (Bool-cases (leb 10 g.protocol_count)) [
        | inl full ↦
            rw (short, fits, free, full) (refl, inr (refl, inr (inr (ground (arith, v.few)))))
        | inr room ↦
            let p = protocol_of name header functions in
            let e : p.name ≡ lower_all name =
              protocol_of-name name header functions (ground arith) in
            rw (short, fits, free, room)
              (
                refl,
                record {
                  counted = omega (arith, v.counted);
                  few = ground arith;
                  different = (
                    ap (λ n. is_registered n g.protocols) e
                        ∙ is_registered-lower_all name g.protocols
                        ∙ free,
                    v.different,
                  );
                },
                free,
                rw (remove-registered name p g.protocols e) (
                    ap (λ n. (some (record { protocols = g.protocols; protocol_count = n }), ok tt))
                      (count g.protocol_count)),
              )
      ]
    ]
  ]
]
  where
    count : (n : ℕ) → n + 1 - 1 ≡ n
    count n = omega arith

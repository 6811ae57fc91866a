-- ===== src/Request/Query/Text.antt =====
-- A parameter that is looked up by src/uvhttp_request.c in the text of a query.
use uvhttp.Prelude.{
  ℕ, zero, suc, ◌+◌, ◌≤◌, true, false, ◌&&◌, List, [], ◌∷◌, ◌++◌, append_assoc, Option, none, some,
  ◌≡◌, refl, ap, sym, ◌∙◌, ◌≢◌, inl, inr, if◌then◌else◌, ltb, leb, ◌==◌, length, length-append,
  take, drop, streq, eq_of_streq, starts, All, arith, Bool-cases,
}
use uvhttp.Validation.{validate_url_path, validate_query_string}
use uvhttp.Request.{Request}
use uvhttp.Request.Query.{
  split_on, before_of, path_of, request_get_path, request_get_query_string, value_at,
  query_param_from, request_get_query_param,
}

-- A string without a character.
abbrev pub Lacks : ℕ → List ℕ → Type 0
Lacks c s = All (λ x. x ≢ c) s

split_on-append :
    (c : ℕ) (s rest : List ℕ) → Lacks c s → split_on c (s ++ c ∷ rest) ≡ some (s, rest)
unfolding split_on
split_on-append c [] rest h = let here : (c == c) ≡ true = ground arith in rw here refl
split_on-append c (x ∷ s) rest (n, h) =
    let other : (x == c) ≡ false = ground arith in rw (other, split_on-append c s rest h) refl

split_on-none : (c : ℕ) (s : List ℕ) → Lacks c s → split_on c s ≡ none
unfolding split_on
split_on-none c [] h = refl
split_on-none c (x ∷ s) (n, h) =
    let other : (x == c) ≡ false = ground arith in rw (other, split_on-none c s h) refl

Lacks-append : (c : ℕ) (s t : List ℕ) → Lacks c s → Lacks c t → Lacks c (s ++ t)
Lacks-append c [] t h k = k
Lacks-append c (x ∷ s) t (n, h) k = (n, Lacks-append c s t h k)

-- The text of a query, and the first value of a name.
abbrev pub pair_text : List ℕ × List ℕ → List ℕ
pair_text (name, value) = name ++ b'=' ∷ value

abbrev pub query_text : List (List ℕ × List ℕ) → List ℕ
query_text [] = []
query_text (p ∷ []) = pair_text p
query_text (p ∷ q ∷ ps) = pair_text p ++ b'&' ∷ query_text (q ∷ ps)

unfoldable pub first_value : List ℕ → List (List ℕ × List ℕ) → Option (List ℕ)
first_value name [] = none
first_value name ((key, value) ∷ ps) =
    let later = first_value name ps in if streq name key then some (take 2047 value) else later

abbrev pub IsName : List ℕ → Type 0
IsName name = Lacks b'=' name × Lacks b'&' name

abbrev pub IsPair : List ℕ × List ℕ → Type 0
IsPair (key, value) = IsName key × Lacks b'&' value

starts-name :
    (name key rest : List ℕ)
    → Lacks b'=' name
    → Lacks b'=' key
    → starts (name ++ b'=' ∷ []) (key ++ b'=' ∷ rest) ≡ streq name key
starts-name [] [] rest h k = refl
starts-name [] (x ∷ key) rest h (n, k) = ground arith
starts-name (c ∷ name) [] rest (n, h) k = ground arith
starts-name (c ∷ name) (x ∷ key) rest (n, h) (m, k) =
    ap (λ b. (c == x) && b) (starts-name name key rest h k)

drop-name : (name rest : List ℕ) → drop (suc (length name)) (name ++ b'=' ∷ rest) ≡ rest
drop-name [] rest = refl
drop-name (c ∷ name) rest = drop-name name rest

value_at-pair :
    (name key tail : List ℕ)
    → Lacks b'=' name
    → Lacks b'=' key
    → value_at name (key ++ b'=' ∷ tail)
      ≡ (if streq name key then some (take 2047 (before_of tail (split_on b'&' tail))) else none)
value_at-pair name key tail h k = elim (Bool-cases (streq name key)) [
  | inr other ↦ rw (starts-name name key tail h k, other) refl
  | inl same ↦
      rw (starts-name name key tail h k, same)
        (ap (λ t. some (take 2047 (before_of t (split_on b'&' t))))
          (ap (λ n. drop (suc (length n)) (key ++ b'=' ∷ tail)) (eq_of_streq name key same)
            ∙ drop-name key tail))
]

-- The round of the loop, behind the value that it may find.
abbrev query_round : ℕ → List ℕ → Option (List ℕ × List ℕ) → Option (List ℕ) → Option (List ℕ)
query_round fuel name split (some value) = some value
query_round fuel name none none = none
query_round fuel name (some (before, behind)) none = query_param_from fuel name behind

query_param_from-pair :
    (fuel : ℕ) (name key tail : List ℕ)
    → query_param_from (suc fuel) name (key ++ b'=' ∷ tail)
      ≡ query_round fuel name
          (split_on b'&' (key ++ b'=' ∷ tail))
          (value_at name (key ++ b'=' ∷ tail))
unfolding query_param_from
query_param_from-pair fuel name key tail = begins key
  where
    chosen :
        (split : Option (List ℕ × List ℕ)) (value : Option (List ℕ))
        → (elim value [
          | some v ↦ some v
          | none ↦ elim split [
            | none ↦ none
            | some (before, behind) ↦ query_param_from fuel name behind
          ]
        ])
          ≡ query_round fuel name split value
    chosen split (some v) = refl
    chosen none none = refl
    chosen (some (before, behind)) none = refl

    begins :
        (k : List ℕ)
        → query_param_from (suc fuel) name (k ++ b'=' ∷ tail)
          ≡ query_round fuel name
              (split_on b'&' (k ++ b'=' ∷ tail))
              (value_at name (k ++ b'=' ∷ tail))
    begins [] = chosen (split_on b'&' (b'=' ∷ tail)) (value_at name (b'=' ∷ tail))
    begins (c ∷ k) =
        chosen (split_on b'&' (c ∷ (k ++ b'=' ∷ tail))) (value_at name (c ∷ (k ++ b'=' ∷ tail)))

-- The text of a pair that `tail` begins behind the sign has no `&` before that.
split_on-pair :
    (key value rest : List ℕ)
    → IsPair (key, value)
    → split_on b'&' (key ++ b'=' ∷ (value ++ b'&' ∷ rest)) ≡ some (key ++ b'=' ∷ value, rest)
split_on-pair key value rest ((h, k), l) =
    ap (split_on b'&') (sym (append_assoc key (b'=' ∷ value) (b'&' ∷ rest)))
    ∙ split_on-append b'&' (key ++ b'=' ∷ value) rest
        (Lacks-append b'&' key (b'=' ∷ value) k ((λ e. absurd (omega arith)), l))

length-pair : (key tail : List ℕ) → length (key ++ b'=' ∷ tail) ≡ length key + (1 + length tail)
length-pair key tail = omega (arith, length-append key (b'=' ∷ tail))

query_param_from-query_text :
    (fuel : ℕ) (name : List ℕ) (ps : List (List ℕ × List ℕ))
    → IsName name
    → All IsPair ps
    → length (query_text ps) ≤ fuel
    → query_param_from fuel name (query_text ps) ≡ first_value name ps
unfolding query_param_from first_value
query_param_from-query_text fuel name [] n h enough = refl
query_param_from-query_text zero name ((key, value) ∷ []) n h enough =
    absurd (omega (arith, length-pair key value))
query_param_from-query_text (suc fuel) name ((key, value) ∷ []) n (((h, k), l), _) enough =
    query_param_from-pair fuel name key value
    ∙ ap (query_round fuel name (split_on b'&' (key ++ b'=' ∷ value)))
        (value_at-pair name key value n.0 h)
    ∙ (elim (Bool-cases (streq name key)) [
      | inl same ↦ rw (same, split_on-none b'&' value l) refl
      | inr other ↦
          rw
            (
              other,
              split_on-none b'&' (key ++ b'=' ∷ value)
                  (Lacks-append b'&' key (b'=' ∷ value) k ((λ e. absurd (omega arith)), l)),
            )
            refl
    ])
query_param_from-query_text zero name ((key, value) ∷ q ∷ ps) n h enough = absurd (
    omega (
      arith,
      length-append (key ++ b'=' ∷ value) (b'&' ∷ query_text (q ∷ ps)),
      length-pair key value,
    ))
query_param_from-query_text (suc fuel) name ((key, value) ∷ q ∷ ps) n (((h, k), l), later) enough =
    let rest = query_text (q ∷ ps) in
    let ih =
      query_param_from-query_text fuel name (q ∷ ps) n later
        (omega (arith, length-append (key ++ b'=' ∷ value) (b'&' ∷ rest), length-pair key value)) in
    ap (query_param_from (suc fuel) name) (append_assoc key (b'=' ∷ value) (b'&' ∷ rest))
    ∙ query_param_from-pair fuel name key (value ++ b'&' ∷ rest)
    ∙ ap (query_round fuel name (split_on b'&' (key ++ b'=' ∷ (value ++ b'&' ∷ rest))))
        (value_at-pair name key (value ++ b'&' ∷ rest) n.0 h)
    ∙ (elim (Bool-cases (streq name key)) [
      | inl same ↦ rw (same, split_on-append b'&' value rest l) refl
      | inr other ↦ rw (other, split_on-pair key value rest ((h, k), l)) ih
    ])

-- Where the query behind a path is the text of pairs of a name and a value, whose names have no `=`
-- and no `&` and whose values have no `&`, and it passes the check of a query, looking up such a name
-- gives the first value that stands for it, cut to 2047 bytes, or NULL if there is none; and the
-- path is the one before the query, or that of the root if it has 1024 bytes or more or does not
-- pass the check of a path.
pub request_get_query_param-query_text :
    (r : Request) (path : List ℕ) (ps : List (List ℕ × List ℕ)) (name : List ℕ)
    → r.url ≡ path ++ b'?' ∷ query_text ps
    → Lacks b'?' path
    → All IsPair ps
    → IsName name
    → validate_query_string (some (query_text ps)) ≡ true
    → (request_get_query_param r name ≡ first_value name ps)
      × (request_get_path r
          ≡ (if ltb (length path) 1024 && validate_url_path path then path else b'/' ∷ []))
unfolding request_get_query_param request_get_query_string request_get_path
request_get_query_param-query_text r path ps name url clean pairs plain valid =
    let split : split_on b'?' r.url ≡ some (path, query_text ps) =
      ap (split_on b'?') url ∙ split_on-append b'?' path (query_text ps) clean in
    (
      rw (split, valid)
          (query_param_from-query_text (length (query_text ps)) name ps plain pairs (omega arith)),
      ap (path_of r.url) split ∙ checked,
    )
  where
    checked :
        path_of r.url (some (path, query_text ps))
        ≡ (if ltb (length path) 1024 && validate_url_path path then path else b'/' ∷ [])
    checked = elim (Bool-cases (ltb (length path) 1024)) [
      | inr long ↦ let a : leb 1024 (length path) ≡ true = ground arith in rw (long, a) refl
      | inl short ↦
          let a : leb 1024 (length path) ≡ false = ground arith in
          elim (Bool-cases (validate_url_path path)) [
            | inl good ↦ rw (short, a, good) refl
            | inr bad ↦ rw (short, a, bad) refl
          ]
    ]

-- ===== src/Router/Method.antt =====
-- HTTP methods: the enumeration of include/uvhttp_request.h, and its conversions from and to
-- strings in src/uvhttp_router.c.
use uvhttp.Prelude.{
  ℕ, Bool, true, false, List, [], ◌∷◌, ◌≡◌, refl, if◌then◌else◌, ◌==◌, streq, eq_of_streq, codes,
  ==_iff, ap, inl, inr, ◌⊎◌, ◌++◌, ◌∙◌, sym, subst,
}

pub data Method : Type 0 where
  any get post put delete head options patch : Method

-- The test of `uvhttp_method_from_string` for the letters behind the first ones.
abbrev rest_is : List ℕ → List ℕ → Method → Method
rest_is rest expected m = if streq rest expected then m else any

-- The second letter of a method that begins with P.
abbrev from_p : List ℕ → Method
from_p [] = any
from_p (c ∷ rest) =
    if c == b'O'
    then rest_is rest (codes "ST") post
    else if c == b'U'
    then rest_is rest (codes "T") put
    else if c == b'A'
    then rest_is rest (codes "TCH") patch
    else any

-- `uvhttp_method_from_string`
unfoldable pub method_from_string : List ℕ → Method
method_from_string [] = any
method_from_string (c ∷ rest) =
    if c == b'G'
    then rest_is rest (codes "ET") get
    else if c == b'P'
    then from_p rest
    else if c == b'D'
    then rest_is rest (codes "ELETE") delete
    else if c == b'H'
    then rest_is rest (codes "EAD") head
    else if c == b'O'
    then rest_is rest (codes "PTIONS") options
    else any

-- `uvhttp_method_to_string`; the enumeration has no other value.
unfoldable pub method_to_string : Method → List ℕ
method_to_string any = codes "ANY"
method_to_string get = codes "GET"
method_to_string post = codes "POST"
method_to_string put = codes "PUT"
method_to_string delete = codes "DELETE"
method_to_string head = codes "HEAD"
method_to_string options = codes "OPTIONS"
method_to_string patch = codes "PATCH"

-- `==` on the enumeration.
abbrev pub method_eq : Method → Method → Bool
method_eq any any = true
method_eq get get = true
method_eq post post = true
method_eq put put = true
method_eq delete delete = true
method_eq head head = true
method_eq options options = true
method_eq patch patch = true
method_eq _ _ = false

-- The name of a method, ANY included, is read back as that method.
pub method_from_string-method_to_string : (m : Method) → method_from_string (method_to_string m) ≡ m
unfolding method_from_string method_to_string
method_from_string-method_to_string any = refl
method_from_string-method_to_string get = refl
method_from_string-method_to_string _ = refl

-- The string is the name of the method, unless the method is ANY.
abbrev pub Reads : List ℕ → Method → Type 0
Reads s m = (m ≡ any) ⊎ (s ≡ method_to_string m)

if-Reads :
    (b : Bool) (s : List ℕ) {x y : Method}
    → (b ≡ true → Reads s x)
    → (b ≡ false → Reads s y)
    → Reads s (if b then x else y)
if-Reads true s h k = h refl
if-Reads false s h k = k refl

rest_is-Reads :
    (before rest expected : List ℕ) (m : Method)
    → before ++ expected ≡ method_to_string m
    → Reads (before ++ rest) (rest_is rest expected m)
rest_is-Reads before rest expected m name =
    if-Reads (streq rest expected) (before ++ rest)
      (λ same. inr (ap (λ l. before ++ l) (eq_of_streq rest expected same) ∙ name)) (λ _. inl refl)

-- The letter that a test has found.
letter :
    (c d : ℕ) (rest : List ℕ) {m : Method}
    → Reads (d ∷ rest) m
    → (c == d) ≡ true
    → Reads (c ∷ rest) m
letter c d rest {m} r e = subst (λ x. Reads (x ∷ rest) m) (sym ((==_iff c d).0 e)) r

from_p-Reads : (rest : List ℕ) → Reads (b'P' ∷ rest) (from_p rest)
unfolding method_to_string
from_p-Reads [] = inl refl
from_p-Reads (c ∷ rest) =
    if-Reads (c == b'O') (b'P' ∷ c ∷ rest) (second b'O' (codes "ST") post refl) (λ _.
      if-Reads (c == b'U') (b'P' ∷ c ∷ rest) (second b'U' (codes "T") put refl) (λ _.
        if-Reads (c == b'A') (b'P' ∷ c ∷ rest) (second b'A' (codes "TCH") patch refl)
          (λ _. inl refl)))
  where
    second :
        (d : ℕ) (expected : List ℕ) (m : Method)
        → b'P' ∷ d ∷ expected ≡ method_to_string m
        → (c == d) ≡ true
        → Reads (b'P' ∷ c ∷ rest) (rest_is rest expected m)
    second d expected m name e =
        subst (λ x. Reads (b'P' ∷ x ∷ rest) (rest_is rest expected m)) (sym ((==_iff c d).0 e))
          (rest_is-Reads (b'P' ∷ d ∷ []) rest expected m name)

-- Only the exact name of a method is read as that method: any other string gives ANY.
pub method_from_string-Reads : (s : List ℕ) → Reads s (method_from_string s)
unfolding method_from_string method_to_string
method_from_string-Reads [] = inl refl
method_from_string-Reads (c ∷ rest) =
    if-Reads (c == b'G') (c ∷ rest) (first b'G' (codes "ET") get refl) (λ _.
      if-Reads (c == b'P') (c ∷ rest) (letter c b'P' rest (from_p-Reads rest)) (λ _.
        if-Reads (c == b'D') (c ∷ rest) (first b'D' (codes "ELETE") delete refl) (λ _.
          if-Reads (c == b'H') (c ∷ rest) (first b'H' (codes "EAD") head refl) (λ _.
            if-Reads (c == b'O') (c ∷ rest) (first b'O' (codes "PTIONS") options refl)
              (λ _. inl refl)))))
  where
    first :
        (d : ℕ) (expected : List ℕ) (m : Method)
        → d ∷ expected ≡ method_to_string m
        → (c == d) ≡ true
        → Reads (c ∷ rest) (rest_is rest expected m)
    first d expected m name e = letter c d rest (rest_is-Reads (d ∷ []) rest expected m name) e

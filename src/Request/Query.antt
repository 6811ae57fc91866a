-- ===== src/Request/Query.antt =====
-- The path, the query and the client's address of a request: the readers of src/uvhttp_request.c. The
-- static buffers that they return are values here. The address of the peer is a parameter.
pub mod Text
use uvhttp.Prelude.{
  ℕ, zero, suc, ◌+◌, ◌≤◌, true, false, not, ◌&&◌, List, [], ◌∷◌, ◌++◌, append_assoc, Option, none,
  some, ◌≡◌, refl, ap, sym, ◌∙◌, ◌≢◌, inl, inr, if◌then◌else◌, ltb, leb, ◌==◌, length,
  length-append, take, drop, streq, eq_of_streq, starts, codes, All, arith, Bool-cases,
}
use uvhttp.Validation.{validate_url_path, validate_query_string}
use uvhttp.Request.{Request, request_get_header}

-- `strchr`: what stands before the first `c`, and what stands behind it.
unfoldable pub split_on : ℕ → List ℕ → Option (List ℕ × List ℕ)
split_on c [] = none
split_on c (x ∷ s) =
    let later : Option (List ℕ × List ℕ) = elim (split_on c s) [
      | none ↦ none
      | some (before, behind) ↦ some (x ∷ before, behind)
    ] in
    if x == c then some ([], s) else later

-- The part of a string before the first `c`, or all of it.
abbrev pub before_of : List ℕ → Option (List ℕ × List ℕ) → List ℕ
before_of s none = s
before_of s (some (before, behind)) = before

abbrev pub path_of : List ℕ → Option (List ℕ × List ℕ) → List ℕ
path_of url none = url
path_of url (some (path, query)) =
    if leb 1024 (length path)
    then b'/' ∷ []
    else if not (validate_url_path path)
    then b'/' ∷ []
    else path

-- `uvhttp_request_get_path`
unfoldable pub request_get_path : Request → List ℕ
request_get_path r = path_of r.url (split_on b'?' r.url)

abbrev pub checked_query : Option (List ℕ × List ℕ) → Option (List ℕ)
checked_query none = none
checked_query (some (path, query)) = if validate_query_string (some query) then some query else none

-- `uvhttp_request_get_query_string`
unfoldable pub request_get_query_string : Request → Option (List ℕ)
request_get_query_string r = checked_query (split_on b'?' r.url)

-- `strncmp(p, name, name_len) == 0 && p[name_len] == '='`, and the value that follows.
abbrev pub value_at : List ℕ → List ℕ → Option (List ℕ)
value_at name p =
    let value = drop (suc (length name)) p in
    if starts (name ++ b'=' ∷ []) p
    then some (take 2047 (before_of value (split_on b'&' value)))
    else none

-- The loop of `uvhttp_request_get_query_param`; each round leaves a shorter string, so the length
-- of the query is enough.
unfoldable pub query_param_from : ℕ → List ℕ → List ℕ → Option (List ℕ)
query_param_from fuel name [] = none
query_param_from zero name (c ∷ p) = none
query_param_from (suc fuel) name (c ∷ p) = elim (value_at name (c ∷ p)) [
  | some value ↦ some value
  | none ↦ elim (split_on b'&' (c ∷ p)) [
    | none ↦ none
    | some (before, behind) ↦ query_param_from fuel name behind
  ]
]

abbrev pub query_param_in : List ℕ → Option (List ℕ) → Option (List ℕ)
query_param_in name none = none
query_param_in name (some query) = query_param_from (length query) name query

-- `uvhttp_request_get_query_param`
unfoldable pub request_get_query_param : Request → List ℕ → Option (List ℕ)
unfolding request_get_query_string
request_get_query_param r name = query_param_in name (request_get_query_string r)

abbrev pub or_peer : Option (List ℕ) → List ℕ
or_peer none = codes "127.0.0.1"
or_peer (some ip) = ip

abbrev pub forwarded : Option (List ℕ) → Option (List ℕ) → Option (List ℕ) → List ℕ
forwarded peer (some ips) real_ip = take 45 (before_of ips (split_on b',' ips))
forwarded peer none (some ip) = ip
forwarded peer none none = or_peer peer

-- `uvhttp_request_get_client_ip`
unfoldable pub request_get_client_ip : Option (List ℕ) → Request → List ℕ
request_get_client_ip peer r =
    forwarded peer (request_get_header r (codes "X-Forwarded-For"))
      (request_get_header r (codes "X-Real-IP"))

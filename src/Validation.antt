-- ===== src/Validation.antt =====
-- The checks of include/uvhttp_validation.h on what a request holds. The classes of characters are
-- those of the C locale.
pub mod Path
pub mod Segments
pub mod Header
mod Tests
use uvhttp.Prelude.{
  ℕ, zero, suc, ◌+◌, ◌-◌, Bool, true, false, not, ◌&&◌, ◌||◌, List, [], ◌∷◌, ◌++◌, Option, none,
  some, if◌then◌else◌, ltb, leb, ◌==◌, length, codes, has_char, has_substring,
}

-- `dangerous_path_chars`: < > : " | * and the line ends.
abbrev pub dangerous_path_chars : List ℕ
dangerous_path_chars = 60 ∷ 62 ∷ 58 ∷ 34 ∷ 124 ∷ 42 ∷ 10 ∷ 13 ∷ []

-- `dangerous_query_chars`: < > " ' and the line ends.
abbrev pub dangerous_query_chars : List ℕ
dangerous_query_chars = 60 ∷ 62 ∷ 34 ∷ 39 ∷ 10 ∷ 13 ∷ []

abbrev pub max_path_size : ℕ
max_path_size = 1024

abbrev pub max_header_name_size : ℕ
max_header_name_size = 256

abbrev pub max_header_value_size : ℕ
max_header_value_size = 4096

abbrev pub max_url_size : ℕ
max_url_size = 2048

-- `uvhttp_validate_string_length`
unfoldable pub validate_string_length : List ℕ → ℕ → ℕ → Bool
validate_string_length s min_len max_len = leb min_len (length s) && leb (length s) max_len

abbrev pub in_range : ℕ → ℕ → ℕ → Bool
in_range low high c = leb low c && leb c high

-- `isxdigit`
abbrev pub is_hex : ℕ → Bool
is_hex c = in_range b'0' b'9' c || in_range b'A' b'F' c || in_range b'a' b'f' c

-- `isalnum`
abbrev pub is_alnum : ℕ → Bool
is_alnum c = in_range b'0' b'9' c || in_range b'A' b'Z' c || in_range b'a' b'z' c

-- The loop over the escapes of a path.
unfoldable pub valid_escapes : List ℕ → Bool
valid_escapes [] = true
valid_escapes (c ∷ []) = not (c == b'%')
valid_escapes (c ∷ a ∷ []) = let rest = valid_escapes (a ∷ []) in not (c == b'%') && rest
valid_escapes (c ∷ a ∷ b ∷ s) =
    let skipped = valid_escapes s in
    let rest = valid_escapes (a ∷ b ∷ s) in
    if c == b'%' then is_hex a && is_hex b && skipped else rest

-- The loop over the dangerous characters.
unfoldable pub has_dangerous : List ℕ → List ℕ → Bool
has_dangerous [] s = false
has_dangerous (c ∷ chars) s = has_char s c || has_dangerous chars s

abbrev pub starts_with_slash : List ℕ → Bool
starts_with_slash [] = false
starts_with_slash (c ∷ s) = c == b'/'

-- `uvhttp_validate_url_path` on a path that is not NULL.
unfoldable pub validate_url_path : List ℕ → Bool
unfolding validate_string_length has_dangerous
validate_url_path path =
    validate_string_length path 1 max_path_size
    && starts_with_slash path
    && not (has_substring (codes "../") path)
    && not (has_substring (codes "..\\") path)
    && not (has_substring (codes "%2e%2e") path)
    && not (has_substring (codes "%2E%2E") path)
    && valid_escapes path
    && not (has_dangerous dangerous_path_chars path)

abbrev pub is_name_char : ℕ → Bool
is_name_char c = is_alnum c || c == b'-'

-- The loop over the characters of a header's name.
unfoldable pub all_name_chars : List ℕ → Bool
all_name_chars [] = true
all_name_chars (c ∷ s) = is_name_char c && all_name_chars s

-- `uvhttp_validate_header_name`
unfoldable pub validate_header_name : List ℕ → Bool
unfolding validate_string_length all_name_chars
validate_header_name name =
    validate_string_length name 1 max_header_name_size && all_name_chars name

-- The loop over the characters of a header's value.
unfoldable pub no_controls : List ℕ → Bool
no_controls [] = true
no_controls (c ∷ s) = not (ltb c 0x20 || c == 0x7F) && no_controls s

-- `uvhttp_validate_header_value_safe`
unfoldable pub validate_header_value_safe : List ℕ → Bool
unfolding no_controls
validate_header_value_safe value = leb (length value) max_header_value_size && no_controls value

-- `uvhttp_validate_query_string`; `none` is NULL.
unfoldable pub validate_query_string : Option (List ℕ) → Bool
unfolding validate_string_length has_dangerous
validate_query_string none = true
validate_query_string (some query) =
    validate_string_length query 0 max_url_size && not (has_dangerous dangerous_query_chars query)

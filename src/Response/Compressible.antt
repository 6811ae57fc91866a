-- ===== src/Response/Compressible.antt =====
-- What src/uvhttp_response.c takes for worth compressing.
pub mod Extension
use uvhttp.Prelude.{
  caseeq, lower_all, ℕ, Bool, true, false, List, [], ◌∷◌, Option, none, some, if◌then◌else◌, ◌==◌,
  ◌||◌, take, streq, codes,
}
use uvhttp.Response.{Response, default_threshold}

abbrev pub compressible_extensions : List (List ℕ)
compressible_extensions =
    codes ".html"
    ∷ codes ".htm"
    ∷ codes ".css"
    ∷ codes ".js"
    ∷ codes ".json"
    ∷ codes ".xml"
    ∷ codes ".txt"
    ∷ codes ".md"
    ∷ codes ".php"
    ∷ codes ".py"
    ∷ codes ".rb"
    ∷ codes ".pl"
    ∷ codes ".sh"
    ∷ codes ".bat"
    ∷ codes ".cmd"
    ∷ codes ".ini"
    ∷ codes ".cfg"
    ∷ codes ".conf"
    ∷ codes ".yaml"
    ∷ codes ".yml"
    ∷ codes ".toml"
    ∷ codes ".csv"
    ∷ codes ".sql"
    ∷ codes ".log"
    ∷ codes ".svg"
    ∷ codes ".woff"
    ∷ codes ".woff2"
    ∷ codes ".ttf"
    ∷ codes ".eot"
    ∷ []

abbrev pub non_compressible_extensions : List (List ℕ)
non_compressible_extensions =
    codes ".jpg"
    ∷ codes ".jpeg"
    ∷ codes ".png"
    ∷ codes ".gif"
    ∷ codes ".bmp"
    ∷ codes ".webp"
    ∷ codes ".ico"
    ∷ codes ".tiff"
    ∷ codes ".tif"
    ∷ codes ".mp4"
    ∷ codes ".avi"
    ∷ codes ".mkv"
    ∷ codes ".mov"
    ∷ codes ".wmv"
    ∷ codes ".flv"
    ∷ codes ".webm"
    ∷ codes ".m4v"
    ∷ codes ".3gp"
    ∷ codes ".mp3"
    ∷ codes ".wav"
    ∷ codes ".ogg"
    ∷ codes ".flac"
    ∷ codes ".aac"
    ∷ codes ".m4a"
    ∷ codes ".wma"
    ∷ codes ".zip"
    ∷ codes ".rar"
    ∷ codes ".7z"
    ∷ codes ".tar"
    ∷ codes ".gz"
    ∷ codes ".bz2"
    ∷ codes ".xz"
    ∷ codes ".lzma"
    ∷ codes ".z"
    ∷ codes ".exe"
    ∷ codes ".dll"
    ∷ codes ".so"
    ∷ codes ".dylib"
    ∷ codes ".bin"
    ∷ codes ".elf"
    ∷ codes ".o"
    ∷ codes ".a"
    ∷ codes ".lib"
    ∷ codes ".docx"
    ∷ codes ".xlsx"
    ∷ codes ".pptx"
    ∷ codes ".pdf"
    ∷ []

-- The loop for the last dot of a name, with the last one so far.
unfoldable pub last_dot : Option (List ℕ) → List ℕ → Option (List ℕ)
last_dot found [] = found
last_dot found (c ∷ s) = last_dot (if c == b'.' then some (c ∷ s) else found) s

-- The loops over the tables.
unfoldable pub is_listed : List (List ℕ) → List ℕ → Bool
is_listed [] extension = false
is_listed (x ∷ xs) extension = caseeq extension x || is_listed xs extension

abbrev pub by_extension : Option (List ℕ) → Bool
by_extension none = false
by_extension (some extension) =
    if is_listed non_compressible_extensions extension
    then false
    else is_listed compressible_extensions extension

-- `uvhttp_should_compress_by_extension`; an empty name has no dot.
unfoldable pub should_compress_by_extension : List ℕ → Bool
should_compress_by_extension filename = by_extension (last_dot none filename)

-- `strncasecmp(s, prefix, n) == 0`
unfoldable pub starts_caseeq : ℕ → List ℕ → List ℕ → Bool
starts_caseeq n s prefix = streq (take n (lower_all s)) (take n (lower_all prefix))

-- `uvhttp_should_compress_by_content_type`
unfoldable pub should_compress_by_content_type : List ℕ → Bool
unfolding starts_caseeq
should_compress_by_content_type [] = false
should_compress_by_content_type (c ∷ s) =
    let kind = c ∷ s in
    if starts_caseeq 6 kind (codes "image/")
      || starts_caseeq 6 kind (codes "video/")
      || starts_caseeq 6 kind (codes "audio/")
      || caseeq kind (codes "application/zip")
      || caseeq kind (codes "application/gzip")
      || caseeq kind (codes "application/x-gzip")
      || caseeq kind (codes "application/x-compressed")
      || caseeq kind (codes "application/pdf")
      || starts_caseeq 16 kind (codes "application/vnd.")
    then false
    else starts_caseeq 5 kind (codes "text/")
      || caseeq kind (codes "application/json")
      || caseeq kind (codes "application/xml")
      || caseeq kind (codes "application/javascript")
      || caseeq kind (codes "application/xhtml+xml")
      || caseeq kind (codes "application/rss+xml")
      || caseeq kind (codes "application/atom+xml")

abbrev pub choose_compression : Response → Bool → Response
choose_compression r true = record r {
  compress = true;
  compress_threshold = default_threshold r.compress_threshold;
}
choose_compression r false = record r { compress = false }

-- `uvhttp_response_set_compress_by_filename`
unfoldable pub set_compress_by_filename : Response → List ℕ → Response
unfolding should_compress_by_extension
set_compress_by_filename r filename = choose_compression r (should_compress_by_extension filename)

-- `uvhttp_response_set_compress_by_content_type`
unfoldable pub set_compress_by_content_type : Response → List ℕ → Response
unfolding should_compress_by_content_type
set_compress_by_content_type r kind = choose_compression r (should_compress_by_content_type kind)

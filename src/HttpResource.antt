-- ===== src/HttpResource.antt =====
-- The boundary of the HTTP task binding in src/http_resource.rs: what of the headers and the size of a message is
-- accepted. A text is its code points; a header value that is no visible ASCII has none. What serde_json and
-- axum give are arguments.
pub mod Lengths
pub mod Framing
mod Tests
use iicp_client_rust.Base.{
  ℕ, ◌+◌, ◌-◌, ◌*◌, String, ◌++◌, ◌==◌, Bool, true, false, not, ◌&&◌, ◌||◌, List, [], ◌∷◌, map,
  Option, none, some, Result, ok, err, ◌>>=◌, ◌>>◌, ensure, ok_or, length, first, any, all, ltb,
  leb, eqb, if◌then◌else◌,
}
use iicp_client_rust.Base.Words.{u64_max}
use iicp_client_rust.Base.Texts.{codes, codes_eq, to_ascii_lowercase, trim_start, trim_end}

abbrev pub max_http_task_body_bytes : ℕ
max_http_task_body_bytes = 1048576

pub record HttpResourceError : Type 0 where
  pub status : ℕ
  pub code : String
  pub message : String

-- The names of the headers are in lower case, as `HeaderName` keeps them.
abbrev pub HeaderMap : Type 0
HeaderMap = List (String × Option (List ℕ))

abbrev pub Checked : Type 0 → Type 0
Checked = Result HttpResourceError

abbrev pub refusal : ℕ → String → String → HttpResourceError
refusal status code message = record { status = status; code = code; message = message }

abbrev pub invalid_content_length : String → HttpResourceError
invalid_content_length message = refusal 400 "invalid_http_body" message

-- `HeaderMap::get_all` and `HeaderMap::contains_key`.
unfoldable pub get_all : HeaderMap → String → List (Option (List ℕ))
get_all [] name = []
get_all ((n, value) ∷ headers) name =
    let rest = get_all headers name in if n == name then value ∷ rest else rest

unfoldable pub has_header : HeaderMap → String → Bool
has_header headers name = any (λ h. h.0 == name) headers

abbrev pub put_first : ℕ → List (List ℕ) → List (List ℕ)
put_first d [] = (d ∷ []) ∷ []
put_first d (part ∷ parts) = (d ∷ part) ∷ parts

-- `str::split` at a separator.
unfoldable pub split : ℕ → List ℕ → List (List ℕ)
split c [] = [] ∷ []
split c (d ∷ ds) = let parts = split c ds in if eqb d c then [] ∷ parts else put_first d parts

abbrev pub trim_value : List ℕ → List ℕ
trim_value cs = trim_end (trim_start cs)

unfoldable pub split_values : List (Option (List ℕ)) → Checked (List (List ℕ))
unfolding split
split_values [] = ok []
split_values (value ∷ values) = do
  text ← ok_or value (refusal 400 "invalid_http_body" "invalid HTTP header")
  rest ← split_values values
  ok (map trim_value (split b',' text) ++ rest)

unfoldable pub split_header_values : HeaderMap → String → Checked (List (List ℕ))
unfolding split_values get_all
split_header_values headers name = split_values (get_all headers name)

abbrev pub is_identity : List ℕ → Bool
is_identity value = codes_eq (to_ascii_lowercase value) (codes "identity")

unfoldable pub validate_identity_encoding : HeaderMap → Checked (Unit {0})
validate_identity_encoding headers = do
  encodings ← split_header_values headers "content-encoding"
  ensure (not (any (λ value. not (is_identity value)) encodings)) (
      refusal 415 "unsupported_content_encoding"
        "supported HTTP task binding accepts identity encoding only")

abbrev pub is_digit : ℕ → Bool
is_digit c = leb b'0' c && leb c b'9'

-- `parse::<usize>` of a text of digits, which fails on overflow.
unfoldable pub parse_digits : ℕ → List ℕ → Option ℕ
parse_digits n [] = some n
parse_digits n (c ∷ cs) =
    let rest = parse_digits (n * 10 + (c - b'0')) cs in
    if ltb u64_max (n * 10 + (c - b'0')) then none else rest

abbrev pub is_empty_text : List ℕ → Bool
is_empty_text [] = true
is_empty_text (c ∷ cs) = false

unfoldable pub parse_content_length_value : List ℕ → Checked ℕ
parse_content_length_value value = do
  ensure (not (is_empty_text value || not (all is_digit value)))
      (invalid_content_length "invalid Content-Length")
  ok_or (parse_digits 0 value) (invalid_content_length "invalid Content-Length")

unfoldable pub parse_all : List (List ℕ) → Checked (List ℕ)
parse_all [] = ok []
parse_all (value ∷ values) = do
  n ← parse_content_length_value value
  rest ← parse_all values
  ok (n ∷ rest)

-- No two neighbours differ.
abbrev pub all_match : List ℕ → Bool
all_match [] = true
all_match (n ∷ []) = true
all_match (n ∷ m ∷ rest) = eqb n m && all_match (m ∷ rest)

unfoldable pub require_matching_content_lengths : List ℕ → Checked (Unit {0})
require_matching_content_lengths values =
    ensure (all_match values) (refusal 400 "invalid_http_body" "conflicting Content-Length")

unfoldable pub agreed_length : List (List ℕ) → Checked (Option ℕ)
unfolding parse_all require_matching_content_lengths
agreed_length values = do
  parsed ← parse_all values
  require_matching_content_lengths parsed
  ok (first parsed)

unfoldable pub content_length : HeaderMap → Checked (Option ℕ)
content_length headers = do
  values ← split_header_values headers "content-length"
  agreed_length values

abbrev pub is_over : Option ℕ → Bool
is_over none = false
is_over (some value) = ltb max_http_task_body_bytes value

abbrev pub is_given : Option ℕ → Bool
is_given none = false
is_given (some value) = true

abbrev pub request_too_large : HttpResourceError
request_too_large = refusal 413 "request_too_large" "encoded task request exceeds 1048576 bytes"

unfoldable pub validate_request_headers : HeaderMap → Checked (Unit {0})
validate_request_headers headers = do
  validate_identity_encoding headers
  length ← content_length headers
  ensure (not (has_header headers "transfer-encoding" && is_given length))
      (refusal 400 "invalid_http_body" "Content-Length and Transfer-Encoding cannot be combined")
  ensure (not (is_over length)) request_too_large

unfoldable pub validate_response_headers : HeaderMap → Checked (Unit {0})
validate_response_headers headers = do
  validate_identity_encoding headers
  length ← content_length headers
  ensure (not (is_over length))
      (refusal 500 "response_too_large" "encoded task response exceeds 1048576 bytes")

-- `encoded` is what serde_json makes of the value.
unfoldable pub encode_request : Option (List ℕ) → Checked (List ℕ)
encode_request encoded = do
  body ← ok_or encoded (refusal 400 "invalid_http_body" "task request is not valid JSON")
  ensure (not (ltb max_http_task_body_bytes (length body))) request_too_large
  ok body

-- `to_bytes` is that of axum: the bytes of a body up to a limit.
unfoldable pub read_request_body :
    {Body : Type 0} → (Body → ℕ → Option (List ℕ)) → HeaderMap → Body → Checked (List ℕ)
read_request_body to_bytes headers body = do
  validate_request_headers headers
  ok_or (to_bytes body max_http_task_body_bytes) request_too_large

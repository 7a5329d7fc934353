-- ===== src/HttpResource/Tests.antt =====
-- Headers at the boundary of the HTTP task binding.
use iicp_client_rust.Base.{String, ◌≡◌, refl, [], ◌∷◌, some, ok, err}
use iicp_client_rust.Base.Texts.{codes}
use iicp_client_rust.HttpResource.{
  HeaderMap, validate_request_headers, validate_identity_encoding, content_length,
  split_header_values, agreed_length, parse_content_length_value, parse_digits, has_header, refusal,
  request_too_large,
}

abbrev lengths_of : String → String → HeaderMap
lengths_of encoding value =
    ("content-encoding", some (codes encoding)) ∷ ("content-length", some (codes value)) ∷ []

equal_lengths : validate_request_headers (lengths_of "Identity" "42, 42") ≡ ok tt
unfolding validate_request_headers validate_identity_encoding content_length split_header_values
    agreed_length parse_content_length_value parse_digits has_header
equal_lengths = refl

unequal_lengths :
    validate_request_headers (lengths_of "identity" "42, 43")
    ≡ err (refusal 400 "invalid_http_body" "conflicting Content-Length")
unfolding validate_request_headers validate_identity_encoding content_length split_header_values
    agreed_length parse_content_length_value parse_digits has_header
unequal_lengths = refl

one_byte_too_many :
    validate_request_headers (lengths_of "identity" "1048577") ≡ err request_too_large
unfolding validate_request_headers validate_identity_encoding content_length split_header_values
    agreed_length parse_content_length_value parse_digits has_header
one_byte_too_many = refl

overflowing_length :
    validate_request_headers (lengths_of "identity" "18446744073709551616")
    ≡ err (refusal 400 "invalid_http_body" "invalid Content-Length")
unfolding validate_request_headers validate_identity_encoding content_length split_header_values
    agreed_length parse_content_length_value parse_digits has_header
overflowing_length = refl

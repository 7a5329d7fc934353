-- ===== src/HttpResource/Framing.antt =====
-- Which requests get past the headers, in src/http_resource.rs.
use iicp_client_rust.Base.{ℕ, ◌≤◌, ◌≡◌, ◌⊎◌, false, List, [], ok, All}
use iicp_client_rust.Base.Texts.{codes, to_ascii_lowercase}
use iicp_client_rust.HttpResource.{
  HeaderMap, has_header, split_header_values, max_http_task_body_bytes,
}
use iicp_client_rust.HttpResource.Lengths.{IsLength}

abbrev pub IsIdentity : List ℕ → Type 0
IsIdentity value = to_ascii_lowercase value ≡ codes "identity"

-- The headers of a request that says, if anything, one length within the limit, and then no transfer encoding.
pub record IsFramed (headers : HeaderMap) : Type 0 where
  pub encodings : List (List ℕ)
  pub encodings_read : split_header_values headers "content-encoding" ≡ ok encodings
  pub identity : All IsIdentity encodings
  pub lengths : List (List ℕ)
  pub lengths_read : split_header_values headers "content-length" ≡ ok lengths
  pub framed :
      (lengths ≡ [])
      ⊎ ((n : ℕ) × All (IsLength n) lengths
          × (n ≤ max_http_task_body_bytes)
          × (has_header headers "transfer-encoding" ≡ false))

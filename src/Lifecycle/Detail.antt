-- ===== src/Lifecycle/Detail.antt =====
-- `content_free_detail` of src/service_lifecycle_sqlite.rs: what of an event's detail is stored. The JSON
-- library is not under src/: `Json` is what the code calls of it. An object is the list of its members.
pub mod Minimal
use Prim.Native.String.{len, ◌++◌ as append}
use iicp_client_rust.Base.{
  ℕ, String, ◌==◌, Bool, true, false, not, ◌&&◌, ◌||◌, List, [], ◌∷◌, ◌++◌, Option, none, some,
  Result, ok, err, ◌>>=◌, ◌>>◌, ok_or, ensure, ltb, leb, eqb, all, one_of, if◌then◌else◌, length,
  drop, take,
}
use iicp_client_rust.Base.Dict.{get, keys}
use iicp_client_rust.Base.Texts.{codes, codes_eq, to_ascii_lowercase}
use iicp_client_rust.Lifecycle.Types.{LifecycleError, conflict}

-- `serde_json::Value` and its accessors. `string` makes a string of code points.
pub record Json (V : Type 0) : Type 0 where
  pub is_null : V → Bool
  pub as_object : V → Option (List (String × V))
  pub as_u64 : V → Option ℕ
  pub as_str : V → Option String
  pub object : List (String × V) → V
  pub string : List ℕ → V

-- `is_ascii_alphanumeric`, or one of the bytes of "._:-".
unfoldable pub is_token_code : ℕ → Bool
is_token_code c =
    (leb b'0' c && leb c b'9')
    || (leb b'A' c && leb c b'Z')
    || (leb b'a' c && leb c b'z')
    || eqb c b'.'
    || eqb c b'_'
    || eqb c b':'
    || eqb c b'-'

unfoldable pub is_hex_code : ℕ → Bool
is_hex_code c =
    (leb b'0' c && leb c b'9') || (leb b'A' c && leb c b'F') || (leb b'a' c && leb c b'f')

unfoldable pub is_token : String → Bool
unfolding is_token_code
is_token value = not (value == "") && not (ltb 256 (len value)) && all is_token_code (codes value)

unfoldable pub safe_token : String → Result LifecycleError (Unit {0})
unfolding is_token
safe_token value = ensure (is_token value) (conflict "invalid durable lifecycle token")

-- `digest.strip_prefix("sha256:").unwrap_or(digest)`, in code points.
abbrev pub hex_part : List ℕ → List ℕ
hex_part cs = if codes_eq (take 7 cs) (codes "sha256:") then drop 7 cs else cs

unfoldable pub is_digest : List ℕ → Bool
unfolding is_hex_code
is_digest cs = eqb (length (hex_part cs)) 64 && all is_hex_code (hex_part cs)

abbrev pub progress_keys : List String
progress_keys = "completed_units" ∷ "total_units" ∷ "unit" ∷ []

abbrev pub or_none : {A B : Type 0} → Option A → (A → Option B) → Option B
or_none none f = none
or_none (some a) f = f a

module _ {V : Type 0} (json : Json V) where
  abbrev pub unit_of : Option V → Result LifecycleError (Unit {0})
  unit_of none = ok tt
  unit_of (some v) =
      ok_or (json.as_str v) (conflict "invalid progress unit") >>= λ unit. safe_token unit

  -- The checks on the member `progress`.
  unfoldable pub check_progress : V → Result LifecycleError (Unit {0})
  check_progress value = do
    progress ← ok_or (json.as_object value) (conflict "invalid durable lifecycle progress")
    ensure (all (one_of progress_keys) (keys progress))
        (conflict "invalid durable lifecycle progress")
    completed ←
        ok_or (or_none (get "completed_units" progress) json.as_u64)
          (conflict "invalid durable lifecycle progress counts")
    total ←
        ok_or (or_none (get "total_units" progress) json.as_u64)
          (conflict "invalid durable lifecycle progress counts")
    ensure (not (ltb total completed)) (conflict "invalid durable lifecycle progress counts")
    unit_of (get "unit" progress)

  -- The arm for a digest: it is stored in lower case.
  unfoldable pub digest_member : String → V → Result LifecycleError V
  digest_member key value = do
    digest ← ok_or (json.as_str value) (conflict (append "invalid " key))
    ensure (is_digest (codes digest)) (conflict (append "invalid " key))
    ok (json.string (to_ascii_lowercase (codes digest)))

  unfoldable pub token_member : String → V → Result LifecycleError V
  token_member key value = do
    token ← ok_or (json.as_str value) (conflict (append "invalid durable lifecycle " key))
    safe_token token
    ok value

  -- The `match` on a key.
  unfoldable pub member : String → V → Result LifecycleError V
  member key value =
      if key == "progress"
      then check_progress value >>= (λ _. ok value)
      else if one_of ("receipt_digest" ∷ "checkpoint_digest" ∷ []) key
      then digest_member key value
      else if one_of ("event_id" ∷ "reason_code" ∷ "outcome" ∷ []) key
      then token_member key value
      else err (conflict (append "durable lifecycle detail contains unsupported field: " key))

  -- The loop over the members.
  unfoldable pub members : List (String × V) → Result LifecycleError (List (String × V))
  members [] = ok []
  members ((key, value) ∷ rest) =
      let stored_rest = members rest in
      (member key value >>= λ stored. stored_rest >>= λ more. ok ((key, stored) ∷ more))

  unfoldable pub content_free_detail : V → Result LifecycleError V
  content_free_detail detail =
      if json.is_null detail
      then ok (json.object [])
      else (ok_or (json.as_object detail) (conflict "durable lifecycle detail must be an object")
          >>= λ object. members object >>= λ stored. ok (json.object stored))

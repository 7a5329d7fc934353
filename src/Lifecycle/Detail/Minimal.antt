-- ===== src/Lifecycle/Detail/Minimal.antt =====
-- What the detail of an event may hold once it is stored: src/service_lifecycle_sqlite.rs.
use iicp_client_rust.Base.{ℕ, ◌≤◌, String, ◌≡◌, true, ◌⊎◌, List, [], ◌∷◌, some, ok, all, one_of}
use iicp_client_rust.Base.Dict.{get, keys}
use iicp_client_rust.Base.Texts.{to_ascii_lowercase}
use iicp_client_rust.Lifecycle.Detail.{Json, is_token, is_digest, progress_keys, unit_of, or_none}

module _ {V : Type 0} (json : Json V) where
  -- Two counts, of which one is part of the other, and a unit that is a token.
  pub record IsProgress (value : V) : Type 0 where
    pub fields : List (String × V)
    pub completed : ℕ
    pub total : ℕ
    pub is_object : json.as_object value ≡ some fields
    pub only : all (one_of progress_keys) (keys fields) ≡ true
    pub part : completed ≤ total
    pub has_completed : or_none (get "completed_units" fields) json.as_u64 ≡ some completed
    pub has_total : or_none (get "total_units" fields) json.as_u64 ≡ some total
    pub unit : unit_of json (get "unit" fields) ≡ ok tt

  -- A member that carries no content of the task: a progress, a digest in lower case, or a token.
  abbrev pub IsContentFree : String × V → Type 0
  IsContentFree (key, value) =
      ((key ≡ "progress") × IsProgress value)
      ⊎ ((one_of ("receipt_digest" ∷ "checkpoint_digest" ∷ []) key ≡ true)
          × (digest : List ℕ) × (is_digest digest ≡ true)
          × (value ≡ json.string (to_ascii_lowercase digest)))
      ⊎ ((one_of ("event_id" ∷ "reason_code" ∷ "outcome" ∷ []) key ≡ true)
          × (token : String) × (is_token token ≡ true)
          × (json.as_str value ≡ some token))

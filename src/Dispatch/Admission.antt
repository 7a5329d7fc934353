-- ===== src/Dispatch/Admission.antt =====
-- src/dispatch_admission.rs and the store of src/dispatch_admission_sqlite.rs. The table is a map from `jti`,
-- its primary key, to the row. `fault` is the failure that the database reports to a call, if any: a
-- transaction that fails leaves the table as it was. `digest` is the text of a SHA-256.
pub mod Cleanup
pub mod Replay
use Prim.Native.String.{len, ◌++◌ as append}
use iicp_client_rust.Base.{
  ℕ, suc, max, String, ◌==◌, Bool, true, false, not, ◌&&◌, ◌||◌, List, [], ◌∷◌, Option, none, some,
  Result, ok, err, ltb, leb, eqb, all, one_of, if◌then◌else◌, length, take, retain, map,
}
use iicp_client_rust.Base.Words.{saturating_add, saturating_sub}
use iicp_client_rust.Base.Dict.{get, insert, keys}
use iicp_client_rust.Base.Texts.{codes}

pub record Claim : Type 0 where
  pub jti : String
  pub provider_id : String
  pub intent : String
  pub not_before : ℕ
  pub expires_at : ℕ

pub record Decision : Type 0 where
  pub code : String
  pub accepted : Bool
  pub state : Option String

pub record Admission : Type 0 where
  pub jti : String
  pub provider_digest : String
  pub intent_digest : String
  pub state : String
  pub expires_at : ℕ
  pub consumed_at : ℕ
  pub updated_at : ℕ

pub data AdmissionError : Type 0 where
  storage : String → AdmissionError
  unknown : AdmissionError
  bad_transition : String → AdmissionError

abbrev pub Table : Type 0
Table = List (String × Admission)

abbrev pub reject : String → Decision
reject code = record { code = code; accepted = false; state = none }

abbrev pub accept : Decision
accept = record { code = "accepted"; accepted = true; state = some "accepted" }

unfoldable pub terminal : String → Bool
terminal state = one_of ("completed" ∷ "failed" ∷ "cancelled" ∷ "expired" ∷ "rejected" ∷ []) state

-- The test on a code point. A text with one of 128 or more has a byte that is not allowed either.
unfoldable pub is_jti_byte : ℕ → Bool
is_jti_byte c =
    (leb b'0' c && leb c b'9')
    || (leb b'A' c && leb c b'Z')
    || (leb b'a' c && leb c b'z')
    || eqb c b'.'
    || eqb c b'_'
    || eqb c b':'
    || eqb c b'-'

unfoldable pub valid_jti : String → Bool
unfolding is_jti_byte
valid_jti jti = not (ltb (len jti) 16 || ltb 256 (len jti)) && all is_jti_byte (codes jti)

-- The checks that need no database: the reason to reject a claim, if there is one.
unfoldable pub refusal : Claim → String → String → ℕ → ℕ → Option String
unfolding valid_jti
refusal c provider intent now skew =
    if not (valid_jti c.jti)
    then some "reject_invalid_jti"
    else if not (c.provider_id == provider)
    then some "reject_provider_binding"
    else if not (c.intent == intent)
    then some "reject_intent_binding"
    else if ltb (saturating_add now skew) c.not_before
    then some "reject_not_yet_valid"
    else if leb c.expires_at (saturating_sub now skew)
    then some "reject_expired"
    else none

abbrev pub on_record : Admission → Decision
on_record r = record {
  code = if terminal r.state then "reject_terminal" else "reject_replay";
  accepted = false;
  state = some r.state;
}

abbrev pub Answer : Type 0 → Type 0
Answer A = Table × Result AdmissionError A

-- What stands behind `connect()?`, as one transaction.
abbrev pub with_db : {A : Type 0} → Option String → Table → Answer A → Answer A
with_db none table rest = rest
with_db (some message) table rest = (table, err (storage message))

abbrev pub admitted : (String → String) → Claim → ℕ → Admission
admitted digest c now = record {
  jti = c.jti;
  provider_digest = append "sha256:" (digest c.provider_id);
  intent_digest = append "sha256:" (digest c.intent);
  state = "accepted";
  expires_at = c.expires_at;
  consumed_at = now;
  updated_at = now;
}

-- The transaction of `consume_sync`.
unfoldable pub consume_row : (String → String) → Table → Claim → ℕ → Answer Decision
consume_row digest table c now = elim (get c.jti table) [
  | some r ↦ (table, ok (on_record r))
  | none ↦ (insert c.jti (admitted digest c now) table, ok accept)
]

unfoldable pub consume :
    (String → String) → Option String → Table → Claim → String → String → ℕ → ℕ → Answer Decision
consume digest fault table c provider intent now skew = elim (refusal c provider intent now skew) [
  | some reason ↦ (table, ok (reject reason))
  | none ↦ with_db fault table (consume_row digest table c now)
]

-- `evaluate_dispatch_admission`.
unfoldable pub evaluate :
    (String → String)
    → Option String
    → Table
    → Claim
    → String
    → String
    → ℕ
    → Bool
    → ℕ
    → Table × Decision
evaluate digest fault table c provider intent now trust_verified skew =
    if trust_verified
    then (let (table', answer) = consume digest fault table c provider intent now skew in
        elim answer [
          | ok decision ↦ (table', decision)
          | err e ↦ (table', reject "reject_store_unavailable")
        ])
    else (table, reject "reject_issuer_key")

-- The transaction of `transition_sync`.
unfoldable pub transition_row : Table → String → String → ℕ → Answer Admission
transition_row table jti state now = elim (get jti table) [
  | none ↦ (table, err unknown)
  | some r ↦
      if terminal r.state && not (r.state == state)
      then (table, err (bad_transition (append "already terminal as " r.state)))
      else if r.state == state
      then (table, ok r)
      else (
        insert jti (record r { state = state; updated_at = now }) table,
        ok (record r { state = state; updated_at = now }),
      )
]

unfoldable pub transition : Option String → Table → String → String → ℕ → Answer Admission
transition fault table jti state now =
    if terminal state
    then with_db fault table (transition_row table jti state now)
    else (table, err (bad_transition state))

-- `ORDER BY expires_at`; rows that agree keep their order.
unfoldable pub place : String × Admission → Table → Table
place e [] = e ∷ []
place e (f ∷ rows) =
    let rest = place e rows in if leb e.1.expires_at f.1.expires_at then e ∷ f ∷ rows else f ∷ rest

unfoldable pub by_expiry : Table → Table
unfolding place
by_expiry [] = []
by_expiry (e ∷ rows) = place e (by_expiry rows)

-- The rows that `SELECT … WHERE expires_at < cutoff ORDER BY expires_at LIMIT limit` names.
unfoldable pub victims : Table → ℕ → ℕ → Table
unfolding by_expiry
victims table cutoff limit =
    take (max limit 1) (by_expiry (retain (λ e. ltb e.1.expires_at cutoff) table))

unfoldable pub cleanup : Option String → Table → ℕ → ℕ → ℕ → Answer ℕ
unfolding victims
cleanup fault table now retention_s limit =
    let gone = victims table (saturating_sub now retention_s) limit in
    with_db fault table (retain (λ e. not (one_of (keys gone) e.0)) table, ok (length gone))

unfoldable pub lookup : Option String → Table → String → Result AdmissionError (Option Admission)
lookup none table jti = ok (get jti table)
lookup (some message) table jti = err (storage message)

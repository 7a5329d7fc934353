-- ===== src/Native/Calls.antt =====
-- src/native_call_identity.rs: the identifiers of negotiated lifecycle calls. A call is given by its text
-- fields, `call.get(key).and_then(Value::as_str)`, since serde_json reads it.
pub mod Identities
use iicp_client_rust.Base.{
  String, ◌==◌, Bool, true, false, not, List, [], Option, none, some, Result, ok, err, ◌>>=◌, ◌>>◌,
  ok_or, ensure, if◌then◌else◌,
}
use iicp_client_rust.Base.Dict.{get, insert, contains_key}

abbrev pub lifecycle_profile : String
lifecycle_profile = "urn:iicp:profile:service-lifecycle:v1"

pub data NativeCallIdentityError : Type 0 where
  missing_task_id missing_call_id missing_idempotency_key : NativeCallIdentityError
  call_id_reuse task_identity_conflict : NativeCallIdentityError

pub record IdentityRegistry : Type 0 where
  pub tasks : List (String × String)
  pub calls : List (String × Unit {0})

abbrev pub Call : Type 0
Call = String → Option String

abbrev pub non_empty : Option String → Option String
non_empty none = none
non_empty (some s) = if s == "" then none else some s

unfoldable pub required :
    Call → String → NativeCallIdentityError → Result NativeCallIdentityError String
required call key error = ok_or (non_empty (call key)) error

-- `is_some_and(|known| known != idempotency_key)`.
abbrev pub is_other : Option String → String → Bool
is_other none key = false
is_other (some known) key = not (known == key)

abbrev pub is_str : String → Option String → Bool
is_str s none = false
is_str s (some t) = t == s

-- The checks on the three identifiers of a call of the profile, in order.
unfoldable pub identify :
    IdentityRegistry → Call → Result NativeCallIdentityError (String × String × String)
identify g call = do
  task_id ← required call "task_id" missing_task_id
  call_id ← required call "call_id" missing_call_id
  key ← required call "idempotency_key" missing_idempotency_key
  ensure (not (contains_key call_id g.calls)) call_id_reuse
  ensure (not (is_other (get task_id g.tasks) key)) task_identity_conflict
  ok (task_id, call_id, key)

unfoldable pub accept :
    IdentityRegistry → Call → IdentityRegistry × Result NativeCallIdentityError (Unit {0})
unfolding identify
accept g call =
    if is_str lifecycle_profile (call "profile")
    then elim (identify g call) [
      | err e ↦ (g, err e)
      | ok (task_id, call_id, key) ↦ (
        record g { tasks = insert task_id key g.tasks; calls = insert call_id tt g.calls },
        ok tt,
      )
    ]
    else (g, ok tt)

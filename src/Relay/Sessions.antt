-- ===== src/Relay/Sessions.antt =====
-- The sessions of src/relay_session.rs and their registry. A session is known by its handle, which is what
-- `Arc::ptr_eq` compares; what all copies of a session share is kept in the registry under the handle.
-- Times are in milliseconds.
pub mod Rates
use iicp_client_rust.Base.{
  ℕ, ◌+◌, ◌%◌, String, ◌==◌, Bool, true, false, not, ◌&&◌, ◌||◌, List, [], ◌∷◌, map, Option, none,
  some, ltb, leb, eqb, any, length, if◌then◌else◌,
}
use iicp_client_rust.Base.Words.{saturating_sub}
use iicp_client_rust.Base.Dict.{get, insert, remove, keys, values, contains_key}

pub record WorkerSession : Type 0 where
  pub worker_id : String
  pub handle : ℕ

pub record PollSession : Type 0 where
  pub worker_id : String
  pub intent : String
  pub models : List String
  pub session_token : String
  pub handle : ℕ
  pub liveness_window : ℕ

pub data RelaySession : Type 0 where
  tcp : WorkerSession → RelaySession
  http_poll : PollSession → RelaySession

-- 256 sessions, and 60 seconds.
abbrev pub max_relay_sessions : ℕ
max_relay_sessions = 256

abbrev pub relay_bind_rate_window : ℕ
relay_bind_rate_window = 60000

-- `HttpPollWorkerSession::new` gives a session 90 seconds.
abbrev pub default_liveness_window : ℕ
default_liveness_window = 90000

abbrev pub u32_mod : ℕ
u32_mod = 4294967296

-- The sessions by worker, the count of binds by source since its window began, the handles whose channel is
-- closed, and the time of the last pull.
pub record Registry : Type 0 where
  pub sessions : List (String × RelaySession)
  pub bind_rate_limit : ℕ
  pub bind_rate_buckets : List (String × (ℕ × ℕ))
  pub closed : List ℕ
  pub last_pull : ℕ → ℕ

abbrev pub is_closed : Registry → ℕ → Bool
is_closed r handle = any (eqb handle) r.closed

abbrev pub poll_is_alive : Registry → ℕ → PollSession → Bool
poll_is_alive r now s =
    not (is_closed r s.handle) && ltb (saturating_sub now (r.last_pull s.handle)) s.liveness_window

unfoldable pub is_alive : Registry → ℕ → RelaySession → Bool
is_alive r now (tcp s) = not (is_closed r s.handle)
is_alive r now (http_poll s) = poll_is_alive r now s

unfoldable pub models : RelaySession → List String
models (tcp s) = []
models (http_poll s) = s.models

abbrev pub is_expired : ℕ → ℕ → Bool
is_expired now start = leb relay_bind_rate_window (saturating_sub now start)

abbrev pub entry_or : ℕ → Option (ℕ × ℕ) → ℕ × ℕ
entry_or now none = (now, 0)
entry_or now (some entry) = entry

-- The entry of a source once an attempt is counted.
abbrev pub counted : ℕ → ℕ × ℕ → ℕ × ℕ
counted now (start, count) =
    if is_expired now start then (now, 1) else (start, (count + 1) % u32_mod)

unfoldable pub unexpired : ℕ → List (String × (ℕ × ℕ)) → List (String × (ℕ × ℕ))
unexpired now [] = []
unexpired now ((source, entry) ∷ buckets) =
    let rest = unexpired now buckets in
    if is_expired now entry.0 then rest else (source, entry) ∷ rest

-- `if buckets.len() > 4096`.
abbrev pub pruned : ℕ → List (String × (ℕ × ℕ)) → List (String × (ℕ × ℕ))
pruned now buckets = if ltb 4096 (length buckets) then unexpired now buckets else buckets

unfoldable pub allow_bind : Registry → String → Bool → ℕ → Registry × Bool
allow_bind r source rebind now =
    if rebind || eqb r.bind_rate_limit 0
    then (r, true)
    else let entry = counted now (entry_or now (get source r.bind_rate_buckets)) in
      (
        record r { bind_rate_buckets = pruned now (insert source entry r.bind_rate_buckets) },
        leb entry.1 r.bind_rate_limit,
      )

unfoldable pub at_capacity : Registry → String → Bool
at_capacity r worker_id =
    not (contains_key worker_id r.sessions) && leb max_relay_sessions (length r.sessions)

unfoldable pub count : Registry → ℕ
count r = length r.sessions

unfoldable pub bind : Registry → String → RelaySession → Registry
bind r worker_id session = record r { sessions = insert worker_id session r.sessions }

unfoldable pub unbind : Registry → String → Registry
unbind r worker_id = record r { sessions = remove worker_id r.sessions }

abbrev pub is_session : WorkerSession → Option RelaySession → Bool
is_session session none = false
is_session session (some (tcp existing)) = eqb existing.handle session.handle
is_session session (some (http_poll existing)) = false

unfoldable pub unbind_session : Registry → String → WorkerSession → Registry
unbind_session r worker_id session =
    if is_session session (get worker_id r.sessions) then unbind r worker_id else r

-- The first poll session with the token.
unfoldable pub find_token : String → List RelaySession → Option PollSession
find_token token [] = none
find_token token (tcp s ∷ sessions) = find_token token sessions
find_token token (http_poll s ∷ sessions) =
    let rest = find_token token sessions in if s.session_token == token then some s else rest

unfoldable pub get_by_token : Registry → String → Option PollSession
get_by_token r token = if token == "" then none else find_token token (values r.sessions)

unfoldable pub is_bound : Registry → String → Bool
is_bound r worker_id = contains_key worker_id r.sessions

unfoldable pub bound_worker_ids : Registry → List String
bound_worker_ids r = keys r.sessions

-- `close` on any copy of a poll session.
unfoldable pub close : Registry → PollSession → Registry
close r s = record r { closed = s.handle ∷ r.closed }

-- ===== src/Relay/Binds/Capacity.antt =====
-- The sessions of a relay: src/relay_session.rs and the relay endpoints of src/node.rs.
use iicp_client_rust.Base.{
  ℕ, ◌+◌, ◌≤◌, ◌⊎◌, List, [], ◌∷◌, subst, eq_iff, true, String, ◌==◌, ◌≡◌, refl, Bool, false, inl,
  inr, none, All, arith, leb, length, Bool-cases, Option-cases,
}
use iicp_client_rust.Base.Dict.{
  get, insert, remove, contains_key, IsDistinct, insert-IsDistinct, remove-IsDistinct, All-insert,
  All-remove, length-remove_le,
}
use iicp_client_rust.Base.Words.{ℤ}
use iicp_client_rust.Relay.Tickets.{RelayBindTicketClaims, consume_relay_bind_ticket}
use iicp_client_rust.Relay.Sessions.{
  Registry, RelaySession, WorkerSession, tcp, http_poll, allow_bind, at_capacity, unbind, close,
  PollSession, unbind_session, is_session, get_by_token, max_relay_sessions,
}
use iicp_client_rust.Relay.Binds.{Relay, pull}

-- The worker of a session.
abbrev pub worker_of : RelaySession → String
worker_of (tcp s) = s.worker_id
worker_of (http_poll s) = s.worker_id

-- At most as many sessions as are allowed, each under its worker, and each worker once.
pub record IsWithin (s : Relay) : Type 0 where
  pub few : length s.registry.sessions ≤ max_relay_sessions
  pub distinct : IsDistinct s.registry.sessions
  pub own : All (λ e. worker_of e.1 ≡ e.0) s.registry.sessions

-- There is room for a session of the worker, in place of one that it has or beside the others.
abbrev pub HasRoom : String → Relay → Type 0
HasRoom worker_id s = length (remove worker_id s.registry.sessions) + 1 ≤ max_relay_sessions

-- What happens to a relay under one lock, but for a session that is bound.
pub data Access (s t : Relay) : Type 0 where
  ends :
      (worker_id : String) (session : WorkerSession)
      → t ≡ record s { registry = unbind_session s.registry worker_id session }
      → Access s t
  closes :
      (session : PollSession) → t ≡ record s { registry = close s.registry session } → Access s t
  frees :
      (worker_id : String) → t ≡ record s { registry = unbind s.registry worker_id } → Access s t
  pulls : (token : String) (now : ℕ) → t ≡ (pull s token now).0 → Access s t
  hangs_up :
      (handle : ℕ)
      → t ≡ record s { registry = record s.registry { closed = handle ∷ s.registry.closed } }
      → Access s t
  counts :
      (source : String) (rebind : Bool) (now : ℕ)
      → t ≡ record s { registry = (allow_bind s.registry source rebind now).0 }
      → Access s t
  uses :
      (claims : RelayBindTicketClaims) (now : ℤ)
      → t ≡ record s { seen = (consume_relay_bind_ticket s.seen claims now).0 }
      → Access s t

pub data Accesses (s : Relay) : Relay → Type 0 where
  none_yet : Accesses s s
  follow : {t u : Relay} → Accesses s t → Access t u → Accesses s u

-- Between the locks of a call anything happens but that a session is bound.
abbrev pub BindsNone : (ℕ → Relay → Relay) → Type 0
BindsNone others = (n : ℕ) (u : Relay) → Accesses u (others n u)

pub same-IsWithin :
    (s t : Relay) → t.registry.sessions ≡ s.registry.sessions → IsWithin s → IsWithin t
same-IsWithin s t same v = record {
  few = rw same v.few;
  distinct = rw same v.distinct;
  own = rw same v.own;
}

unbind-IsWithin :
    (s t : Relay) (worker_id : String)
    → t.registry.sessions ≡ remove worker_id s.registry.sessions
    → IsWithin s
    → IsWithin t
unbind-IsWithin s t worker_id same v =
    let fewer = length-remove_le worker_id s.registry.sessions in
    record {
      few = rw same (omega (arith, fewer, v.few));
      distinct = rw same (remove-IsDistinct worker_id s.registry.sessions v.distinct);
      own = rw same (All-remove (λ e. worker_of e.1 ≡ e.0) worker_id s.registry.sessions v.own);
    }

-- An access leaves the sessions as they are, or takes those of one worker away.
abbrev Leaves : Relay → Relay → Type 0
Leaves s t =
    (t.registry.sessions ≡ s.registry.sessions)
    ⊎ ((k : String) × (t.registry.sessions ≡ remove k s.registry.sessions))

allow_bind-sessions :
    (r : Registry) (source : String) (rebind : Bool) (now : ℕ)
    → (allow_bind r source rebind now).0.sessions ≡ r.sessions
unfolding allow_bind
allow_bind-sessions r source rebind now = ground arith

pull-sessions :
    (s : Relay) (token : String) (now : ℕ)
    → (pull s token now).0.registry.sessions ≡ s.registry.sessions
unfolding pull
pull-sessions s token now = elim (Option-cases (get_by_token s.registry token)) [
  | inl missing ↦ rw (missing, pull) refl
  | inr (session, found) ↦ rw (found, pull) refl
]

Access-Leaves : {s t : Relay} → Access s t → Leaves s t
unfolding unbind_session unbind close
Access-Leaves {s} {t} (ends worker_id session e) =
    elim (Bool-cases (is_session session (get worker_id s.registry.sessions))) [
      | inl same ↦ inr (worker_id, rw (e, same) refl)
      | inr other ↦ inl (rw (e, other) refl)
    ]
Access-Leaves {s} {t} (closes session e) = inl (rw e refl)
Access-Leaves {s} {t} (frees worker_id e) = inr (worker_id, rw e refl)
Access-Leaves {s} {t} (pulls token now e) = inl (rw e (pull-sessions s token now))
Access-Leaves {s} {t} (hangs_up handle e) = inl (rw e refl)
Access-Leaves {s} {t} (counts source rebind now e) =
    inl (rw e (allow_bind-sessions s.registry source rebind now))
Access-Leaves {s} {t} (uses claims now e) = inl (rw e refl)

pub Accesses-IsWithin : {s u : Relay} → Accesses s u → IsWithin s → IsWithin u
Accesses-IsWithin none_yet v = v
Accesses-IsWithin {s} {u} (follow {t = t} before access) v =
    let met = Accesses-IsWithin before v in
    elim (Access-Leaves access) [
      | inl same ↦ same-IsWithin t u same met
      | inr (k, fewer) ↦ unbind-IsWithin t u k fewer met
    ]

length-remove-remove :
    (w k : String) (m : List (String × RelaySession))
    → length (remove w (remove k m)) ≤ length (remove w m)
unfolding remove
length-remove-remove w k [] = omega arith
length-remove-remove w k ((j, x) ∷ m) = ground (arith, length-remove-remove w k m)

pub Accesses-HasRoom : (w : String) {s u : Relay} → Accesses s u → HasRoom w s → HasRoom w u
Accesses-HasRoom w none_yet room = room
Accesses-HasRoom w {s} {u} (follow {t = t} before access) room =
    let met = Accesses-HasRoom w before room in
    elim (Access-Leaves access) [
      | inl same ↦ rw same met
      | inr (k, fewer) ↦ rw fewer (omega (arith, met, length-remove-remove w k t.registry.sessions))
    ]

-- A key that is there takes an entry with it.
length-remove_present :
    (k : String) (m : List (String × RelaySession))
    → contains_key k m ≡ true
    → length (remove k m) + 1 ≤ length m
unfolding remove get
length-remove_present k [] h = absurd (ground arith)
length-remove_present k ((j, x) ∷ m) h =
    ground (arith, length-remove_le k m, length-remove_present k m)

-- The check of the capacity leaves room.
pub at_capacity-HasRoom :
    (s : Relay) (w : String) → IsWithin s → at_capacity s.registry w ≡ false → HasRoom w s
unfolding at_capacity
at_capacity-HasRoom s w v h = elim (Bool-cases (contains_key w s.registry.sessions)) [
  | inl known ↦ omega (arith, v.few, length-remove_present w s.registry.sessions known)
  | inr fresh ↦
      let free : leb max_relay_sessions (length s.registry.sessions) ≡ false = ground arith in
      let fewer = length-remove_le w s.registry.sessions in ground arith
]

remove_absent : (k : String) (m : List (String × RelaySession)) → get k m ≡ none → remove k m ≡ m
unfolding remove get
remove_absent k [] h = refl
remove_absent k ((j, x) ∷ m) h = ground (arith, remove_absent k m)

length-insert-remove :
    (k : String) (x : RelaySession) (m : List (String × RelaySession))
    → IsDistinct m
    → length (insert k x m) ≡ length (remove k m) + 1
unfolding insert remove
length-insert-remove k x [] d = omega arith
length-insert-remove k x ((j, y) ∷ m) d = elim (Bool-cases (j == k)) [
  | inl same ↦
      let gone = remove_absent k m (subst (λ i. get i m ≡ none) ((eq_iff j k).0 same) d.0) in
      rw (same, gone) (omega arith)
  | inr other ↦ rw other (omega (arith, length-insert-remove k x m d.1))
]

-- A session that is bound where there is room.
pub bind-IsWithin :
    (s t : Relay) (w : String) (session : RelaySession)
    → t.registry.sessions ≡ insert w session s.registry.sessions
    → worker_of session ≡ w
    → HasRoom w s
    → IsWithin s
    → IsWithin t
bind-IsWithin s t w session inserts own room v = record {
  few =
      rw inserts
        (omega (arith, room, length-insert-remove w session s.registry.sessions v.distinct));
  distinct = rw inserts (insert-IsDistinct w session s.registry.sessions v.distinct);
  own = rw inserts (All-insert (λ e. worker_of e.1 ≡ e.0) w session s.registry.sessions own v.own);
}

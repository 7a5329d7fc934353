-- ===== src/Native/Responses/Statuses.antt =====
-- The statuses, events and final flags of src/native_response_sequence.rs that go together.
use iicp_client_rust.Base.{
  String, eq_iff, ◌≡◌, subst, Bool, true, false, not, ◌&&◌, ◌⊎◌, inl, inr, arith, String-cases,
}
use iicp_client_rust.Native.Responses.{status_matches, flag_mismatch}

-- The status, the event and the final flag go together.
pub data Agrees : String → String → Bool → Type 0 where
  partial : {s e : String} {f : Bool} → s ≡ "partial" → e ≡ "partial" → f ≡ false → Agrees s e f
  success : {s e : String} {f : Bool} → s ≡ "success" → e ≡ "completed" → f ≡ true → Agrees s e f
  failure :
      {s e : String} {f : Bool}
      → s ≡ "error"
      → (e ≡ "failed") ⊎ (e ≡ "cancelled")
      → f ≡ true
      → Agrees s e f
  timeout :
      {s e : String} {f : Bool}
      → s ≡ "timeout"
      → (e ≡ "timed_out") ⊎ (e ≡ "expired")
      → f ≡ true
      → Agrees s e f

unfoldable pub consistent : String → String → Bool → Bool
consistent s e f = status_matches s e && not (flag_mismatch s f)

pub consistent-Agrees : (s e : String) (f : Bool) → consistent s e f ≡ true → Agrees s e f
unfolding consistent status_matches flag_mismatch
consistent-Agrees s e f h = elim (String-cases s "partial") [
  | inl p ↦
      let h' = subst (λ t. consistent t e f ≡ true) p h in
      partial p (ground (arith, eq_iff e "partial")) (ground arith)
  | inr np ↦ elim (String-cases s "success") [
    | inl p ↦
        let h' = subst (λ t. consistent t e f ≡ true) p h in
        success p (ground (arith, eq_iff e "completed")) (ground arith)
    | inr ns ↦ elim (String-cases s "error") [
      | inl p ↦
          let h' = subst (λ t. consistent t e f ≡ true) p h in
          failure p (ground (arith, eq_iff e "failed", eq_iff e "cancelled")) (ground arith)
      | inr ne ↦ elim (String-cases s "timeout") [
        | inl p ↦
            let h' = subst (λ t. consistent t e f ≡ true) p h in
            timeout p (ground (arith, eq_iff e "timed_out", eq_iff e "expired")) (ground arith)
        | inr nt ↦ absurd (ground arith)
      ]
    ]
  ]
]

pub Agrees-consistent : (s e : String) (f : Bool) → Agrees s e f → consistent s e f ≡ true
unfolding consistent status_matches flag_mismatch
Agrees-consistent s e f (partial p q r) = rw (p, q, r)
Agrees-consistent s e f (success p q r) = rw (p, q, r)
Agrees-consistent s e f (failure p (inl q) r) = rw (p, q, r)
Agrees-consistent s e f (failure p (inr q) r) = rw (p, q, r)
Agrees-consistent s e f (timeout p (inl q) r) = rw (p, q, r)
Agrees-consistent s e f (timeout p (inr q) r) = rw (p, q, r)

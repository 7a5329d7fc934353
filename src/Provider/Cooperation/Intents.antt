-- ===== src/Provider/Cooperation/Intents.antt =====
-- Which intents a policy of src/cip_policy.rs permits.
use iicp_client_rust.Base.{
  ℕ, ◌≡◌, ◌≢◌, refl, sym, ◌⊎◌, inl, inr, ◌↔◌, true, List, [], ◌∷◌, ◌++◌, arith, All, Bool-cases,
  subst,
}
use iicp_client_rust.Base.Texts.{codes, codes_eq}
use iicp_client_rust.Provider.Cooperation.{
  CooperativeInferencePolicy, segment, after_colon, domain_of, permits_codes, permits_domain,
}

-- A text without a colon.
abbrev pub IsSegment : List ℕ → Type 0
IsSegment cs = All (λ c. c ≢ b':') cs

after_colon-append : (cs rest : List ℕ) → IsSegment cs → after_colon (cs ++ (b':' ∷ rest)) ≡ rest
unfolding after_colon
after_colon-append [] rest h = refl
after_colon-append (c ∷ cs) rest h = ground (arith, after_colon-append cs rest h.1)

segment-append : (cs rest : List ℕ) → IsSegment cs → segment (cs ++ (b':' ∷ rest)) ≡ cs
unfolding segment
segment-append [] rest h = refl
segment-append (c ∷ cs) rest h = ground (arith, segment-append cs rest h.1)

codes_eq_iff : (cs ds : List ℕ) → (codes_eq cs ds ≡ true) ↔ (cs ≡ ds)
codes_eq_iff [] [] = (λ h. refl, λ h. refl)
codes_eq_iff [] (d ∷ ds) = (λ h. absurd (ground arith), λ h. absurd (ground arith))
codes_eq_iff (c ∷ cs) [] = (λ h. absurd (ground arith), λ h. absurd (ground arith))
codes_eq_iff (c ∷ cs) (d ∷ ds) =
    (λ h. ground (arith, codes_eq_iff cs ds), λ h. ground (arith, codes_eq_iff cs ds))

-- The intent whose first four segments are given.
abbrev pub intent_of : List ℕ → List ℕ → List ℕ → List ℕ → List ℕ → List ℕ
intent_of a b c domain rest = a ++ (b':' ∷ b ++ (b':' ∷ c ++ (b':' ∷ domain ++ (b':' ∷ rest))))

domain_of-intent_of :
    (a b c domain rest : List ℕ)
    → IsSegment a
    → IsSegment b
    → IsSegment c
    → IsSegment domain
    → domain_of (intent_of a b c domain rest) ≡ domain
unfolding domain_of
domain_of-intent_of a b c domain rest ha hb hc hd =
    rw
      (
        after_colon-append a (b ++ (b':' ∷ c ++ (b':' ∷ domain ++ (b':' ∷ rest)))) ha,
        after_colon-append b (c ++ (b':' ∷ domain ++ (b':' ∷ rest))) hb,
        after_colon-append c (domain ++ (b':' ∷ rest)) hc,
      )
      (segment-append domain rest hd)

permits_domain_iff :
    (p : CooperativeInferencePolicy) (domain : List ℕ)
    → (permits_domain p domain ≡ true) ↔ ((p.allow_tool_execution ≡ true) ⊎ (domain ≢ codes "tool"))
permits_domain_iff p domain =
    let agree = codes_eq_iff domain (codes "tool") in
    elim (Bool-cases p.allow_tool_execution) [
      | inl allowed ↦ (λ h. inl allowed, λ h. rw allowed refl)
      | inr closed ↦ elim (Bool-cases (codes_eq domain (codes "tool"))) [
        | inl tool ↦ (
          λ h. absurd (ground arith),
          λ h. elim h [
            | inl allowed ↦ absurd (ground arith)
            | inr other ↦ absurd (other (agree.0 tool))
          ],
        )
        | inr other ↦ (λ h. inr (λ e. ground (arith, agree.1 e)), λ h. rw (closed, other) refl)
      ]
    ]

-- An intent of five segments or more is permitted exactly when the policy allows tools or its fourth
-- segment is not the word tool, whatever the other segments are.
pub permits_codes-intent_of :
    (p : CooperativeInferencePolicy) (a b c domain rest : List ℕ)
    → IsSegment a
    → IsSegment b
    → IsSegment c
    → IsSegment domain
    → (permits_codes p (intent_of a b c domain rest) ≡ true)
      ↔ ((p.allow_tool_execution ≡ true) ⊎ (domain ≢ codes "tool"))
unfolding permits_codes
permits_codes-intent_of p a b c domain rest ha hb hc hd =
    subst
      (λ d.
        (permits_domain p d ≡ true) ↔ ((p.allow_tool_execution ≡ true) ⊎ (domain ≢ codes "tool")))
      (sym (domain_of-intent_of a b c domain rest ha hb hc hd)) (permits_domain_iff p domain)

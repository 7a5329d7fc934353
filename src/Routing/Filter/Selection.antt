-- ===== src/Routing/Filter/Selection.antt =====
-- Which nodes the filter of src/routing_policy.rs leaves.
use iicp_client_rust.Base.{
  append_nil, append_assoc, ℕ, suc, ◌+◌, String, ◌==◌, ◌≡◌, sym, ◌∙◌, inl, inr, Bool, not, List, [],
  ◌∷◌, ◌++◌, Option, none, some, arith, All, retain, length, Option-cases, Bool-cases,
  if◌then◌else◌,
}
use iicp_client_rust.Routing.Policy.{EffectiveRoutingPolicy, Node, is_some}
use iicp_client_rust.Routing.Filter.{
  node_rejection_reason, RoutingPolicyDecision, sort_node, sort_nodes,
  filter_nodes_for_routing_policy,
}

-- The nodes without a reason against them, and the reasons against the others.
abbrev pub accepted_nodes :
    {K R : Type 0} → List (Node K R) → EffectiveRoutingPolicy → Bool → List (Node K R)
accepted_nodes nodes p debug = retain (λ n. not (is_some (node_rejection_reason n p debug))) nodes

abbrev pub reasons : {K R : Type 0} → List (Node K R) → EffectiveRoutingPolicy → Bool → List String
reasons [] p debug = []
reasons (n ∷ nodes) p debug = elim (node_rejection_reason n p debug) [
  | none ↦ reasons nodes p debug
  | some reason ↦ reason ∷ reasons nodes p debug
]

abbrev pub occurrences : String → List String → ℕ
occurrences s [] = 0
occurrences s (t ∷ ts) = let rest = occurrences s ts in if t == s then suc rest else rest

module _ {K R : Type 0} where
  -- The decision on some nodes, from the decision so far.
  pub record IsSorted (good : List (Node K R)) (bad : List String)
      (d d' : RoutingPolicyDecision K R) : Type 0 where
    pub eligible : d'.eligible ≡ d.eligible ++ good
    pub rejected : d'.rejected_reasons ≡ d.rejected_reasons ++ bad
    pub keyless : d'.skipped_keyless ≡ d.skipped_keyless + occurrences "missing_encryption_key" bad

  sort_node-IsSorted :
      (n : Node K R) (reason : Option String) (good : List (Node K R)) (bad : List String)
      (d d' : RoutingPolicyDecision K R)
      → IsSorted good bad (sort_node n reason d) d'
      → IsSorted
          (if not (is_some reason) then n ∷ good else good)
          (elim reason [ none ↦ bad | some r ↦ r ∷ bad ])
          d
          d'
  unfolding sort_node
  sort_node-IsSorted n none good bad d d' v = record {
    eligible = v.eligible ∙ append_assoc d.eligible (n ∷ []) good;
    rejected = v.rejected;
    keyless = v.keyless;
  }
  sort_node-IsSorted n (some r) good bad d d' v = record {
    eligible = v.eligible;
    rejected = v.rejected ∙ append_assoc d.rejected_reasons (r ∷ []) bad;
    keyless = elim (Bool-cases (r == "missing_encryption_key")) [
      | inl h ↦ ground (arith, v.keyless)
      | inr h ↦ ground (arith, v.keyless)
    ];
  }

  sort_nodes-IsSorted :
      (nodes : List (Node K R)) (p : EffectiveRoutingPolicy) (debug : Bool)
      (d : RoutingPolicyDecision K R)
      → IsSorted
          (accepted_nodes nodes p debug)
          (reasons nodes p debug)
          d
          (sort_nodes nodes p debug d)
  unfolding sort_nodes
  sort_nodes-IsSorted [] p debug d = record {
    eligible = sym (append_nil d.eligible);
    rejected = sym (append_nil d.rejected_reasons);
    keyless = omega arith;
  }
  sort_nodes-IsSorted (n ∷ nodes) p debug d =
      let reason = node_rejection_reason n p debug in
      sort_node-IsSorted n reason (accepted_nodes nodes p debug) (reasons nodes p debug) d
        (sort_nodes nodes p debug (sort_node n reason d))
        (sort_nodes-IsSorted nodes p debug (sort_node n reason d))

  count_one :
      (n : Node K R) (reason : Option String) (good : List (Node K R)) (bad : List String)
      (total : ℕ)
      → length good + length bad ≡ total
      → length (if not (is_some reason) then n ∷ good else good)
          + length (elim reason [ none ↦ bad | some r ↦ r ∷ bad ])
        ≡ suc total
  count_one n none good bad total h = omega arith
  count_one n (some r) good bad total h = omega arith

  -- Each node is counted once.
  sorted_lengths :
      (nodes : List (Node K R)) (p : EffectiveRoutingPolicy) (debug : Bool)
      → length (accepted_nodes nodes p debug) + length (reasons nodes p debug) ≡ length nodes
  sorted_lengths [] p debug = omega arith
  sorted_lengths (n ∷ nodes) p debug =
      count_one n (node_rejection_reason n p debug) _ _ (length nodes)
        (sorted_lengths nodes p debug)

  pub filter_nodes_for_routing_policy_lem :
      (nodes : List (Node K R)) (p : EffectiveRoutingPolicy) (debug : Bool)
      → let d = filter_nodes_for_routing_policy nodes p debug in
        (d.eligible ≡ accepted_nodes nodes p debug)
        × (d.rejected_reasons ≡ reasons nodes p debug)
        × (d.skipped_keyless ≡ occurrences "missing_encryption_key" d.rejected_reasons)
        × (length d.eligible + length d.rejected_reasons ≡ length nodes)
  unfolding filter_nodes_for_routing_policy
  filter_nodes_for_routing_policy_lem nodes p debug =
      let v =
        sort_nodes-IsSorted nodes p debug
          (record { eligible = []; rejected_reasons = []; skipped_keyless = 0 }) in
      (
        v.eligible,
        v.rejected,
        rw v.rejected (omega (arith, v.keyless)),
        rw (v.eligible, v.rejected) (sorted_lengths nodes p debug),
      )

  retained-All :
      (P : Node K R → Type 0) (p : EffectiveRoutingPolicy) (debug : Bool) (nodes : List (Node K R))
      → ((n : Node K R) → node_rejection_reason n p debug ≡ none → P n)
      → All P (accepted_nodes nodes p debug)
  retained-All P p debug [] good = tt
  retained-All P p debug (n ∷ nodes) good = elim (Option-cases (node_rejection_reason n p debug)) [
    | inl kept ↦ rw kept (good n kept, retained-All P p debug nodes good)
    | inr (reason, e) ↦ rw e (retained-All P p debug nodes good)
  ]

  -- What holds of every node without a reason against it holds of the nodes that are left.
  pub eligible-All :
      (P : Node K R → Type 0) (p : EffectiveRoutingPolicy) (debug : Bool) (nodes : List (Node K R))
      → ((n : Node K R) → node_rejection_reason n p debug ≡ none → P n)
      → All P (filter_nodes_for_routing_policy nodes p debug).eligible
  eligible-All P p debug nodes good =
      rw (filter_nodes_for_routing_policy_lem nodes p debug).0 (retained-All P p debug nodes good)

-- ===== src/Peers/Election/Orders.antt =====
-- The relay that src/peer_manager.rs elects does not depend on the order in which its HashMap is read.
use iicp_client_rust.Base.{
  ℕ, String, ◌≡◌, sym, subst, ap, ◌∙◌, ◌↔◌, ◌⊎◌, inl, inr, false, List, [], ◌∷◌, none, some,
}
use iicp_client_rust.Base.Dict.{values}
use iicp_client_rust.Peers.Manager.{PeerInfo, PeerManager}
use iicp_client_rust.Peers.Table.{is_unpruned, prune}
use iicp_client_rust.Peers.Election.{
  Ranking, ElectedRelay, score, elected, is_candidate, get_relay_candidates, elect_relay,
}
use iicp_client_rust.Peers.Election.Least.{
  IsIn, All_at, IsIn-retain, IsIn-of_retain, below, IsElected, elect_among-IsElected,
}
use iicp_client_rust.Peers.Election.Ranks.{score_lt_antisymm}

module _ {V : Type 0} where
  IsIn-of_values :
      (v : V) (m : List (String × V)) → IsIn v (values m) → (k : String) × IsIn (k, v) m
  IsIn-of_values v [] i = elim i [ ]
  IsIn-of_values v ((j, w) ∷ m) (inl e) = (j, inl (ap (λ (x : V). (j, x)) e))
  IsIn-of_values v ((j, w) ∷ m) (inr i) = let (k, h) = IsIn-of_values v m i in (k, inr h)

  IsIn-values : (k : String) (v : V) (m : List (String × V)) → IsIn (k, v) m → IsIn v (values m)
  IsIn-values k v [] i = elim i [ ]
  IsIn-values k v ((j, w) ∷ m) (inl e) = inl (ap (λ (x : String × V). x.1) e)
  IsIn-values k v ((j, w) ∷ m) (inr i) = inr (IsIn-values k v m i)

empty : {A : Type 0} (a : A) {xs : List A} → xs ≡ [] → IsIn a xs → ⊥
empty a e i = subst (IsIn a) e i

-- The same entries, in whatever order.
abbrev pub SameEntries : {V : Type 0} → List (String × V) → List (String × V) → Type 0
SameEntries {V} xs ys = (e : String × V) → IsIn e xs ↔ IsIn e ys

module _ {Load : Type 0} where
  same_candidates :
      (m n : PeerManager Load) (now epoch : ℕ) (c : PeerInfo Load)
      → SameEntries m.peers n.peers
      → IsIn c (get_relay_candidates (λ s. s) m now epoch).1
      → IsIn c (get_relay_candidates (λ s. s) n now epoch).1
  unfolding get_relay_candidates prune
  same_candidates m n now epoch c same i =
      let alive = λ (e : String × PeerInfo Load). is_unpruned now epoch e.1 in
      let (valued, candidate) = IsIn-of_retain is_candidate c _ i in
      let (k, kept) = IsIn-of_values c _ valued in
      let (entry, live) = IsIn-of_retain alive (k, c) m.peers kept in
      IsIn-retain is_candidate c _ candidate
        (IsIn-values k c _ (IsIn-retain alive (k, c) n.peers live ((same (k, c)).0 entry)))

module _ {Load : Type 0} (ranking : Ranking Load) (worker_id : String) where
  -- Two least candidates of the same candidates have the same score.
  same_score :
      (xs ys : List (PeerInfo Load)) {a b : ElectedRelay Load}
      → IsElected ranking worker_id xs a
      → IsElected ranking worker_id ys b
      → (IsIn b.peer ys → IsIn b.peer xs)
      → (IsIn a.peer xs → IsIn a.peer ys)
      → score ranking worker_id a.peer ≡ score ranking worker_id b.peer
  same_score xs ys {a} {b} p q to from =
      score_lt_antisymm _ _
        (All_at (λ c. below ranking worker_id c b.peer ≡ false) a.peer ys q.least
          (from p.candidate))
        (All_at (λ c. below ranking worker_id c a.peer ≡ false) b.peer xs p.least (to q.candidate))

  pub elect_relay-IsElected :
      (others : PeerManager Load → PeerManager Load) (m : PeerManager Load) (now epoch : ℕ)
      → let candidates = (get_relay_candidates others m now epoch).1 in
        let answer = (elect_relay ranking others m now epoch worker_id).1 in
        ((candidates ≡ []) × (answer ≡ none))
        ⊎ ((relay : ElectedRelay Load) × (answer ≡ some relay)
            × IsElected ranking worker_id candidates relay)
  unfolding elect_relay
  elect_relay-IsElected others m now epoch =
      elect_among-IsElected ranking worker_id (get_relay_candidates others m now epoch).1

  -- Two managers whose tables hold the same peers, in whatever order, elect the same relay for a worker at the same
  -- time, if no other task acts meanwhile and no two candidates agree in load and hash.
  pub elect_relay_order :
      (m n : PeerManager Load) (now epoch : ℕ)
      → SameEntries m.peers n.peers
      → ((a b : PeerInfo Load)
          → IsIn a (get_relay_candidates (λ s. s) m now epoch).1
          → IsIn b (get_relay_candidates (λ s. s) m now epoch).1
          → score ranking worker_id a ≡ score ranking worker_id b
          → a ≡ b)
      → (elect_relay ranking (λ s. s) m now epoch worker_id).1
        ≡ (elect_relay ranking (λ s. s) n now epoch worker_id).1
  elect_relay_order m n now epoch same distinct =
      let to = λ (c : PeerInfo Load). same_candidates m n now epoch c same in
      let from =
        λ (c : PeerInfo Load). same_candidates n m now epoch c (λ e. ((same e).1, (same e).0)) in
      elim (elect_relay-IsElected (λ s. s) m now epoch) [
        | inl (no_candidate, e) ↦ elim (elect_relay-IsElected (λ s. s) n now epoch) [
          | inl (_, f) ↦ e ∙ sym f
          | inr (b, f, q) ↦ absurd (empty b.peer no_candidate (from b.peer q.candidate))
        ]
        | inr (a, e, p) ↦ elim (elect_relay-IsElected (λ s. s) n now epoch) [
          | inl (no_candidate, f) ↦ absurd (empty a.peer no_candidate (to a.peer p.candidate))
          | inr (b, f, q) ↦
              let agree = same_score _ _ p q (from b.peer) (to a.peer) in
              let peers_agree =
                distinct a.peer b.peer p.candidate (from b.peer q.candidate) agree in
              e ∙ ap some (p.derived ∙ ap (elected ranking) peers_agree ∙ sym q.derived) ∙ sym f
        ]
      ]

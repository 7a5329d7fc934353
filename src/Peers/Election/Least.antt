-- ===== src/Peers/Election/Least.antt =====
-- The relay that src/peer_manager.rs elects is the least of the candidates, whatever their order.
use iicp_client_rust.Base.{
  String, ◌≡◌, refl, sym, subst, ap, ◌∙◌, ◌⊎◌, inl, inr, Bool, true, false, List, [], ◌∷◌, none,
  some, arith, All, retain, Bool-cases, if◌then◌else◌,
}
use iicp_client_rust.Peers.Manager.{PeerInfo}
use iicp_client_rust.Peers.Election.{
  Ranking, ElectedRelay, score_lt, score, min_from, elected, elect_among,
}
use iicp_client_rust.Base.Texts.{codes}
use iicp_client_rust.Peers.Election.Hosts.{IsHost, extract_host-IsHost}
use iicp_client_rust.Peers.Election.Ranks.{score_lt_irrefl, score_lt_trans, score_le_trans}

module _ {A : Type 0} where
  abbrev pub IsIn : A → List A → Type 0
  IsIn a [] = ⊥
  IsIn a (x ∷ xs) = (x ≡ a) ⊎ IsIn a xs

  pub All_at : (P : A → Type 0) (a : A) (xs : List A) → All P xs → IsIn a xs → P a
  All_at P a [] h i = elim i [ ]
  All_at P a (x ∷ xs) h (inl e) = rw (sym e) h.0
  All_at P a (x ∷ xs) h (inr i) = All_at P a xs h.1 i

  pub IsIn-retain :
      (p : A → Bool) (a : A) (xs : List A) → p a ≡ true → IsIn a xs → IsIn a (retain p xs)
  IsIn-retain p a [] h i = elim i [ ]
  IsIn-retain p a (x ∷ xs) h (inl e) = rw (ap p e ∙ h) (inl e)
  IsIn-retain p a (x ∷ xs) h (inr i) = elim (Bool-cases (p x)) [
    | inl stays ↦ rw stays (inr (IsIn-retain p a xs h i))
    | inr goes ↦ rw goes (IsIn-retain p a xs h i)
  ]

  pub IsIn-of_retain :
      (p : A → Bool) (a : A) (xs : List A) → IsIn a (retain p xs) → IsIn a xs × (p a ≡ true)
  IsIn-of_retain p a [] i = elim i [ ]
  IsIn-of_retain p a (x ∷ xs) i = elim (Bool-cases (p x)) [
    | inl stays ↦ elim (rw stays at i) [
      | inl e ↦ (inl e, ap p (sym e) ∙ stays)
      | inr j ↦ let (k, h) = IsIn-of_retain p a xs j in (inr k, h)
    ]
    | inr goes ↦ let (k, h) = IsIn-of_retain p a xs (rw goes at i) in (inr k, h)
  ]

module _ {Load : Type 0} (ranking : Ranking Load) (worker_id : String) where
  abbrev pub below : PeerInfo Load → PeerInfo Load → Bool
  below a b = score_lt (score ranking worker_id a) (score ranking worker_id b)

  min_from-cons :
      (best c : PeerInfo Load) (cs : List (PeerInfo Load))
      → min_from ranking worker_id best (c ∷ cs)
        ≡ min_from ranking worker_id (if below c best then c else best) cs
  unfolding min_from
  min_from-cons best c cs = refl

  -- A turn of the loop takes the next candidate, if it ranks before the best so far, or keeps the best.
  min_from_turn :
      (best c : PeerInfo Load) (cs : List (PeerInfo Load))
      → ((below c best ≡ true)
          × (min_from ranking worker_id best (c ∷ cs) ≡ min_from ranking worker_id c cs))
        ⊎ ((below c best ≡ false)
            × (min_from ranking worker_id best (c ∷ cs) ≡ min_from ranking worker_id best cs))
  min_from_turn best c cs = elim (Bool-cases (below c best)) [
    | inl less ↦ inl (
      less,
      min_from-cons best c cs
          ∙ ap (λ (b : Bool). min_from ranking worker_id (if b then c else best) cs) less,
    )
    | inr not_less ↦ inr (
      not_less,
      min_from-cons best c cs
          ∙ ap (λ (b : Bool). min_from ranking worker_id (if b then c else best) cs) not_less,
    )
  ]

  min_from-IsIn :
      (best : PeerInfo Load) (cs : List (PeerInfo Load))
      → IsIn (min_from ranking worker_id best cs) (best ∷ cs)
  unfolding min_from
  min_from-IsIn best [] = inl refl
  min_from-IsIn best (c ∷ cs) = elim (min_from_turn best c cs) [
    | inl (less, e) ↦ subst (λ r. IsIn r (best ∷ c ∷ cs)) (sym e) (inr (min_from-IsIn c cs))
    | inr (not_less, e) ↦ elim (min_from-IsIn best cs) [
      | inl is_best ↦ subst (λ r. IsIn r (best ∷ c ∷ cs)) (sym e) (inl is_best)
      | inr i ↦ subst (λ r. IsIn r (best ∷ c ∷ cs)) (sym e) (inr (inr i))
    ]
  ]

  -- The result does not rank after the best so far.
  min_from-le :
      (best : PeerInfo Load) (cs : List (PeerInfo Load))
      → below best (min_from ranking worker_id best cs) ≡ false
  unfolding min_from
  min_from-le best [] = score_lt_irrefl (score ranking worker_id best)
  min_from-le best (c ∷ cs) =
      let s = score ranking worker_id in
      elim (min_from_turn best c cs) [
        | inl (less, e) ↦ rw e (
            ground (
              arith,
              min_from-le c cs,
              score_lt_trans (s c) (s best) (s (min_from ranking worker_id c cs)),
            ))
        | inr (not_less, e) ↦ rw e (min_from-le best cs)
      ]

  min_from-least :
      (best : PeerInfo Load) (cs : List (PeerInfo Load))
      → All (λ c. below c (min_from ranking worker_id best cs) ≡ false) cs
  min_from-least best [] = tt
  min_from-least best (c ∷ cs) =
      let s = score ranking worker_id in
      elim (min_from_turn best c cs) [
        | inl (less, e) ↦
            subst (λ r. All (λ c. below c r ≡ false) (c ∷ cs)) (sym e)
              (min_from-le c cs, min_from-least c cs)
        | inr (not_less, e) ↦
            subst (λ r. All (λ c. below c r ≡ false) (c ∷ cs)) (sym e)
              (
                score_le_trans (s (min_from ranking worker_id best cs)) (s best) (s c)
                    (min_from-le best cs) not_less,
                min_from-least best cs,
              )
      ]

  -- What is elected is a candidate that no candidate ranks before; its address is the host of its endpoint and
  -- the port at which it relays.
  pub record IsElected (candidates : List (PeerInfo Load)) (relay : ElectedRelay Load)
      : Type 0 where
    pub candidate : IsIn relay.peer candidates
    pub least : All (λ c. below c relay.peer ≡ false) candidates
    pub hosted : IsHost (codes relay.peer.endpoint) relay.relay_host
    pub port : relay.relay_port ≡ relay.peer.relay_accept_port
    pub derived : relay ≡ elected ranking relay.peer

  pub elect_among-IsElected :
      (candidates : List (PeerInfo Load))
      → ((candidates ≡ []) × (elect_among ranking worker_id candidates ≡ none))
        ⊎ ((relay : ElectedRelay Load) × (elect_among ranking worker_id candidates ≡ some relay)
            × IsElected candidates relay)
  unfolding elect_among elected
  elect_among-IsElected [] = inl (refl, refl)
  elect_among-IsElected (c ∷ cs) =
      let r = min_from ranking worker_id c cs in
      inr (
        elected ranking r,
        refl,
        record {
          candidate = min_from-IsIn c cs;
          least = (min_from-le c cs, min_from-least c cs);
          hosted = extract_host-IsHost (codes r.endpoint);
          port = refl;
          derived = refl;
        },
      )

-- ===== src/Peers/ElectionTests.antt =====
-- Elections of relays at concrete inputs.
use iicp_client_rust.Base.{
  ℕ, String, ◌==◌, ◌≡◌, refl, sym, ◌∙◌, inl, inr, Bool, true, false, ◌&&◌, List, [], ◌∷◌, Option,
  none, some, arith,
}
use iicp_client_rust.Base.Texts.{codes, codes_eq}
use iicp_client_rust.Peers.Manager.{PeerInfo, PeerManager, public}
use iicp_client_rust.Peers.Election.{
  Ranking, ElectedRelay, elect_relay, get_relay_candidates, score,
}
use iicp_client_rust.Peers.Election.Least.{IsIn}
use iicp_client_rust.Peers.Election.Orders.{elect_relay_order}

abbrev ranking : Ranking ℕ
ranking = record { load_fp = λ load. load; hash_hex = λ text. text }

abbrev mesh_peer : String → ℕ → PeerInfo ℕ
mesh_peer node load = record {
  node_id = node;
  endpoint = "http://10.0.0.2:9000";
  region = "";
  last_seen = "";
  last_contact = 0;
  relay_capable = true;
  relay_accept_port = 9485;
  relay_load = load;
  trust_domain_id = none;
  membership_generation = none;
  membership_expires_at = none;
  membership = none;
}

unfoldable mesh : List (String × PeerInfo ℕ) → PeerManager ℕ
mesh peers = record {
  node_token = "";
  own_id = "self";
  admission = public;
  minimum_generation = 0;
  peers = peers;
  replay_ids = [];
}

abbrev idle : PeerInfo ℕ
idle = mesh_peer "idle" 1

abbrev busy : PeerInfo ℕ
busy = mesh_peer "busy" 9

unfoldable elects : PeerManager ℕ → String → Bool
elects m node_id = is_at (elect_relay ranking (λ s. s) m 7 1500 "worker").1
  where
    is_at : Option (ElectedRelay ℕ) → Bool
    is_at none = false
    is_at (some relay) =
        relay.peer.node_id == node_id && codes_eq relay.relay_host (codes "10.0.0.2")

the_lower_load_is_elected : elects (mesh (("busy", busy) ∷ ("idle", idle) ∷ [])) "idle" ≡ true
unfolding elects elect_relay mesh
the_lower_load_is_elected = refl

swapped : {A : Type 0} (a b e : A) → IsIn e (a ∷ b ∷ []) → IsIn e (b ∷ a ∷ [])
swapped a b e (inl h) = inr (inl h)
swapped a b e (inr (inl h)) = inl h
swapped a b e (inr (inr h)) = elim h [ ]

two_candidates :
    (get_relay_candidates (λ s. s) (mesh (("idle", idle) ∷ ("busy", busy) ∷ [])) 7 1500).1
    ≡ idle ∷ busy ∷ []
unfolding get_relay_candidates mesh
two_candidates = refl

unequal : score ranking "worker" idle ≡ score ranking "worker" busy → ⊥
unfolding score
unequal e = ground arith

distinct_scores :
    (a b : PeerInfo ℕ)
    → IsIn a (idle ∷ busy ∷ [])
    → IsIn b (idle ∷ busy ∷ [])
    → score ranking "worker" a ≡ score ranking "worker" b
    → a ≡ b
unfolding score
distinct_scores a b (inl h) (inl k) e = sym h ∙ k
distinct_scores a b (inl h) (inr (inl k)) e = absurd (unequal (rw (sym h, sym k) at e))
distinct_scores a b (inr (inl h)) (inl k) e = absurd (unequal (sym (rw (sym h, sym k) at e)))
distinct_scores a b (inr (inl h)) (inr (inl k)) e = sym h ∙ k
distinct_scores a b (inl h) (inr (inr k)) e = elim k [ ]
distinct_scores a b (inr (inl h)) (inr (inr k)) e = elim k [ ]
distinct_scores a b (inr (inr h)) k e = elim h [ ]

elect_relay_order_example :
    (elect_relay ranking (λ s. s) (mesh (("idle", idle) ∷ ("busy", busy) ∷ [])) 7 1500 "worker").1
    ≡ (elect_relay ranking (λ s. s) (mesh (("busy", busy) ∷ ("idle", idle) ∷ [])) 7 1500 "worker").1
unfolding mesh get_relay_candidates
elect_relay_order_example =
    elect_relay_order ranking "worker" (mesh (("idle", idle) ∷ ("busy", busy) ∷ []))
      (mesh (("busy", busy) ∷ ("idle", idle) ∷ [])) 7 1500
      (λ e. (swapped ("idle", idle) ("busy", busy) e, swapped ("busy", busy) ("idle", idle) e))
      distinct_scores

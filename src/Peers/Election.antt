-- ===== src/Peers/Election.antt =====
-- The election of a relay by a `PeerManager` of src/peer_manager.rs. A host and the digits of a hash are their
-- code points; `Ranking` holds what the code calls of the libraries.
pub mod Hosts
pub mod Least
pub mod Orders
pub mod Ranks
use iicp_client_rust.Base.{
  ℕ, String, ◌++◌, ◌==◌, Bool, true, false, not, ◌&&◌, ◌||◌, List, [], ◌∷◌, Option, none, some,
  length, drop, retain, ltb, eqb, if◌then◌else◌,
}
use iicp_client_rust.Base.Dict.{values}
use iicp_client_rust.Base.Texts.{codes, starts_with}
use iicp_client_rust.Peers.Manager.{PeerInfo, PeerManager, unwrap_or}
use iicp_client_rust.Peers.Table.{prune}

-- `(relay_load * 1_000_000.0) as u64`, and the hexadecimal SHA-256 of the UTF-8 of a text.
pub record Ranking (Load : Type 0) : Type 0 where
  pub load_fp : Load → ℕ
  pub hash_hex : List ℕ → List ℕ

pub record ElectedRelay (Load : Type 0) : Type 0 where
  pub peer : PeerInfo Load
  pub relay_host : List ℕ
  pub relay_port : ℕ

-- The order of texts.
unfoldable pub text_lt : List ℕ → List ℕ → Bool
text_lt [] [] = false
text_lt [] (d ∷ ds) = true
text_lt (c ∷ cs) [] = false
text_lt (c ∷ cs) (d ∷ ds) = ltb c d || (eqb c d && text_lt cs ds)

-- The order of the pairs of a load and a hash.
unfoldable pub score_lt : ℕ × List ℕ → ℕ × List ℕ → Bool
unfolding text_lt
score_lt (a, s) (b, t) = ltb a b || (eqb a b && text_lt s t)

unfoldable pub before_first : ℕ → List ℕ → List ℕ
before_first c [] = []
before_first c (d ∷ ds) = let rest = before_first c ds in if eqb d c then [] else d ∷ rest

abbrev pub put_before : ℕ → ℕ → Option (List ℕ) → Option (List ℕ)
put_before c d (some prefix) = some (d ∷ prefix)
put_before c d none = if eqb d c then some [] else none

-- What `rsplit_once` gives before the separator.
unfoldable pub before_last : ℕ → List ℕ → Option (List ℕ)
before_last c [] = none
before_last c (d ∷ ds) = put_before c d (before_last c ds)

unfoldable pub without_scheme : List ℕ → List ℕ
without_scheme endpoint =
    let http = codes "http://" in
    let https = codes "https://" in
    if starts_with endpoint http
    then drop (length http) endpoint
    else if starts_with endpoint https
    then drop (length https) endpoint
    else endpoint

unfoldable pub extract_host : List ℕ → List ℕ
unfolding without_scheme before_first before_last
extract_host endpoint =
    let host_port = before_first b'/' (without_scheme endpoint) in
    unwrap_or (before_last b':' host_port) host_port

module _ {Load : Type 0} where
  abbrev pub is_candidate : PeerInfo Load → Bool
  is_candidate p = p.relay_capable && not (p.endpoint == "")

  unfoldable pub get_relay_candidates :
      (PeerManager Load → PeerManager Load)
      → PeerManager Load
      → ℕ
      → ℕ
      → PeerManager Load × List (PeerInfo Load)
  unfolding prune
  get_relay_candidates others m now epoch =
      let m' = others (prune m now epoch).0 in (m', retain is_candidate (values m'.peers))

module _ {Load : Type 0} (ranking : Ranking Load) where
  unfoldable pub score : String → PeerInfo Load → ℕ × List ℕ
  score worker_id peer = (
    ranking.load_fp peer.relay_load,
    ranking.hash_hex (codes worker_id ++ b':' ∷ codes peer.node_id),
  )

  -- `min_by` keeps the first of several that are least.
  unfoldable pub min_from : String → PeerInfo Load → List (PeerInfo Load) → PeerInfo Load
  unfolding score score_lt
  min_from worker_id best [] = best
  min_from worker_id best (c ∷ cs) =
      min_from worker_id (if score_lt (score worker_id c) (score worker_id best) then c else best)
        cs

  unfoldable pub elected : PeerInfo Load → ElectedRelay Load
  unfolding extract_host
  elected peer = record {
    peer = peer;
    relay_host = extract_host (codes peer.endpoint);
    relay_port = peer.relay_accept_port;
  }

  unfoldable pub elect_among : String → List (PeerInfo Load) → Option (ElectedRelay Load)
  unfolding min_from elected
  elect_among worker_id [] = none
  elect_among worker_id (c ∷ cs) = some (elected (min_from worker_id c cs))

  unfoldable pub elect_relay :
      (PeerManager Load → PeerManager Load)
      → PeerManager Load
      → ℕ
      → ℕ
      → String
      → PeerManager Load × Option (ElectedRelay Load)
  unfolding get_relay_candidates elect_among
  elect_relay others m now epoch worker_id =
      let (m', candidates) = get_relay_candidates others m now epoch in
      (m', elect_among worker_id candidates)

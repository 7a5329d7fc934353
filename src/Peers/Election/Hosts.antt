-- ===== src/Peers/Election/Hosts.antt =====
-- The host of an endpoint, as src/peer_manager.rs takes it out of the URL.
use iicp_client_rust.Base.{
  ℕ, ◌≡◌, ◌≢◌, refl, sym, subst, ap, ◌∙◌, ◌⊎◌, inl, inr, true, false, List, [], ◌∷◌, ◌++◌, Option,
  none, some, arith, All, length, drop, eqb, append_nil, Bool-cases,
}
use iicp_client_rust.Base.Texts.{codes, starts_with}
use iicp_client_rust.Peers.Manager.{unwrap_or}
use iicp_client_rust.Peers.Election.{
  before_first, put_before, before_last, without_scheme, extract_host,
}

abbrev pub Lacks : ℕ → List ℕ → Type 0
Lacks c = All (λ d. d ≢ c)

-- A part of a URL that is not there, or begins with a separator.
abbrev pub IsPart : ℕ → List ℕ → Type 0
IsPart c part = (part ≡ []) ⊎ ((rest : List ℕ) × (part ≡ c ∷ rest))

-- The scheme is the one that the endpoint begins with, and is left out where it begins with neither.
abbrev pub IsScheme : List ℕ → List ℕ → Type 0
IsScheme endpoint scheme =
    (scheme ≡ codes "http://")
    ⊎ (scheme ≡ codes "https://")
    ⊎ ((scheme ≡ [])
        × (starts_with endpoint (codes "http://") ≡ false)
        × (starts_with endpoint (codes "https://") ≡ false))

-- An endpoint is a scheme, a host, a port and a path; the path begins with the first slash after the scheme,
-- and the port with the last colon before it.
pub record IsHost (endpoint host : List ℕ) : Type 0 where
  pub scheme : List ℕ
  pub port : List ℕ
  pub path : List ℕ
  pub parts : endpoint ≡ scheme ++ ((host ++ port) ++ path)
  pub schemed : IsScheme endpoint scheme
  pub no_slash : Lacks b'/' (host ++ port)
  pub pathed : IsPart b'/' path
  pub ported :
      ((port ≡ []) × Lacks b':' host)
      ⊎ ((digits : List ℕ) × (port ≡ b':' ∷ digits) × Lacks b':' digits)

starts_with-append : (xs ps : List ℕ) → starts_with xs ps ≡ true → xs ≡ ps ++ drop (length ps) xs
starts_with-append xs [] h = refl
starts_with-append [] (p ∷ ps) h = absurd (ground arith)
starts_with-append (x ∷ xs) (p ∷ ps) h =
    let same : x ≡ p = ground arith in
    let rest = starts_with-append xs ps (ground arith) in rw (← same) (ap (λ ys. x ∷ ys) rest)

without_scheme-IsScheme :
    (endpoint : List ℕ)
    → (scheme : List ℕ) × (endpoint ≡ scheme ++ without_scheme endpoint) × IsScheme endpoint scheme
unfolding without_scheme
without_scheme-IsScheme endpoint = elim (Bool-cases (starts_with endpoint (codes "http://"))) [
  | inl plain ↦
      (codes "http://", rw plain (starts_with-append endpoint (codes "http://") plain), inl refl)
  | inr other ↦ elim (Bool-cases (starts_with endpoint (codes "https://"))) [
    | inl secure ↦ (
      codes "https://",
      rw (other, secure) (starts_with-append endpoint (codes "https://") secure),
      inr (inl refl),
    )
    | inr bare ↦ ([], rw (other, bare) refl, inr (inr (refl, other, bare)))
  ]
]

before_first-IsPart :
    (c : ℕ) (xs : List ℕ)
    → (rest : List ℕ) × (xs ≡ before_first c xs ++ rest)
      × IsPart c rest
      × Lacks c (before_first c xs)
unfolding before_first
before_first-IsPart c [] = ([], refl, inl refl, tt)
before_first-IsPart c (d ∷ ds) = elim (Bool-cases (eqb d c)) [
  | inl stop ↦
      let same : d ≡ c = ground arith in
      (d ∷ ds, rw stop refl, inr (ds, ap (λ e. e ∷ ds) same), rw stop tt)
  | inr go_on ↦
      let (rest, parts, starts, lacks) = before_first-IsPart c ds in
      (rest, rw go_on (ap (λ ys. d ∷ ys) parts), starts, rw go_on (ground arith, lacks))
]

-- What `rsplit_once` finds, or that there is no separator.
abbrev Splits : ℕ → List ℕ → Option (List ℕ) → Type 0
Splits c xs none = Lacks c xs
Splits c xs (some prefix) = (rest : List ℕ) × (xs ≡ prefix ++ c ∷ rest) × Lacks c rest

put_before-Splits :
    (c d : ℕ) (ds : List ℕ) (found : Option (List ℕ))
    → Splits c ds found
    → Splits c (d ∷ ds) (put_before c d found)
put_before-Splits c d ds (some prefix) (rest, parts, lacks) = (rest, ap (λ ys. d ∷ ys) parts, lacks)
put_before-Splits c d ds none lacks = elim (Bool-cases (eqb d c)) [
  | inl here ↦ let same : d ≡ c = ground arith in rw here (ds, ap (λ e. e ∷ ds) same, lacks)
  | inr no_match ↦ rw no_match (ground arith, lacks)
]

before_last-Splits : (c : ℕ) (xs : List ℕ) → Splits c xs (before_last c xs)
unfolding before_last
before_last-Splits c [] = tt
before_last-Splits c (d ∷ ds) =
    put_before-Splits c d ds (before_last c ds) (before_last-Splits c ds)

split_port :
    (host_port : List ℕ) (found : Option (List ℕ))
    → Splits b':' host_port found
    → (port : List ℕ) × (host_port ≡ unwrap_or found host_port ++ port)
      × (((port ≡ []) × Lacks b':' (unwrap_or found host_port))
          ⊎ ((digits : List ℕ) × (port ≡ b':' ∷ digits) × Lacks b':' digits))
split_port host_port none lacks = ([], sym (append_nil host_port), inl (refl, lacks))
split_port host_port (some host) (digits, parts, lacks) =
    (b':' ∷ digits, parts, inr (digits, refl, lacks))

pub extract_host-IsHost : (endpoint : List ℕ) → IsHost endpoint (extract_host endpoint)
unfolding extract_host
extract_host-IsHost endpoint =
    let (scheme, after_scheme, schemed) = without_scheme-IsScheme endpoint in
    let host_port = before_first b'/' (without_scheme endpoint) in
    let (path, with_path, pathed, lacks) = before_first-IsPart b'/' (without_scheme endpoint) in
    let (port, with_port, ported) =
      split_port host_port (before_last b':' host_port) (before_last-Splits b':' host_port) in
    record {
      scheme = scheme;
      port = port;
      path = path;
      parts = after_scheme ∙ ap (λ ys. scheme ++ ys) (with_path ∙ ap (λ ys. ys ++ path) with_port);
      schemed = schemed;
      no_slash = subst (Lacks b'/') with_port lacks;
      pathed = pathed;
      ported = ported;
    }

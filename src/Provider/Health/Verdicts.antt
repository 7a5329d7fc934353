-- ===== src/Provider/Health/Verdicts.antt =====
-- When the tests of classify_input in src/runtime_health.rs find a node live, and when ready.
use iicp_client_rust.Base.{
  ◌≤◌, ◌≡◌, refl, ◌⊎◌, inl, inr, Bool, true, false, not, List, [], ◌∷◌, arith, Bool-cases,
}
use iicp_client_rust.Provider.Health.{
  Liveness, Readiness, ReasonCode, ClassificationInput, is_starting, is_stopping, is_unavailable,
  is_recovering, push_if, reasons_of, readiness_of, classify_input,
}

-- The node has started, its runtime has made progress lately, and so has its supervisor where it has one.
pub record IsLiveInput (i : ClassificationInput) : Type 0 where
  pub started : is_starting i.lifecycle ≡ false
  pub runtime : i.runtime_age_ms ≤ i.runtime_stale_after_ms
  pub supervisor :
      (i.supervisor_required ≡ false) ⊎ (i.supervisor_age_ms ≤ i.supervisor_stale_after_ms)

-- A live node that is not stopping and lacks nothing.
pub record IsReadyInput (i : ClassificationInput) : Type 0 where
  pub is_live : IsLiveInput i
  pub staying : is_stopping i.lifecycle ≡ false
  pub provider : is_unavailable i.provider ≡ false
  pub capacity : i.capacity_available ≡ true
  pub routing : is_unavailable i.routing ≡ false
  pub tunnel : is_recovering i.tunnel ≡ false
  pub directory : is_unavailable i.directory ≡ false
  pub dns : is_unavailable i.dns ≡ false
  pub internet : is_unavailable i.internet ≡ false

pub classify_input-IsLiveInput :
    (i : ClassificationInput) → (classify_input i).liveness ≡ Liveness.live → IsLiveInput i
unfolding classify_input
classify_input-IsLiveInput i h = record {
  started = ground arith;
  runtime = ground arith;
  supervisor = elim (Bool-cases i.supervisor_required) [
    | inl required ↦ inr (ground arith)
    | inr free ↦ inl free
  ];
}

pub IsLiveInput-classify_input :
    (i : ClassificationInput) → IsLiveInput i → (classify_input i).liveness ≡ Liveness.live
unfolding classify_input
IsLiveInput-classify_input i v = elim v.supervisor [
  | inl free ↦ ground (arith, v.started, v.runtime)
  | inr lately ↦ ground (arith, v.started, v.runtime)
]

nothing_pushed :
    (b : Bool) (reason : ReasonCode) (reasons : List ReasonCode)
    → push_if b reason reasons ≡ []
    → (b ≡ false) × (reasons ≡ [])
nothing_pushed true reason [] h = absurd (ground arith)
nothing_pushed true reason (r ∷ rs) h = absurd (ground arith)
nothing_pushed false reason reasons h = (refl, h)

readiness_of-nil :
    (reasons : List ReasonCode) → readiness_of reasons ≡ Readiness.ready → reasons ≡ []
readiness_of-nil [] h = refl
readiness_of-nil (r ∷ rs) h = absurd (ground arith)

-- Nothing that a live node needs is known to be missing.
record IsWhole (i : ClassificationInput) : Type 0 where
  provider : is_unavailable i.provider ≡ false
  capacity : i.capacity_available ≡ true
  routing : is_unavailable i.routing ≡ false
  tunnel : is_recovering i.tunnel ≡ false
  directory : is_unavailable i.directory ≡ false
  dns : is_unavailable i.dns ≡ false
  internet : is_unavailable i.internet ≡ false

not-false : (b : Bool) → not b ≡ false → b ≡ true
not-false true h = refl
not-false false h = absurd (ground arith)

reasons_of-IsWhole : (i : ClassificationInput) → reasons_of i ≡ [] → IsWhole i
unfolding reasons_of
reasons_of-IsWhole i h =
    let (internet, r₁) = nothing_pushed _ _ _ h in
    let (dns, r₂) = nothing_pushed _ _ _ r₁ in
    let (directory, r₃) = nothing_pushed _ _ _ r₂ in
    let (tunnel, r₄) = nothing_pushed _ _ _ r₃ in
    let (routing, r₅) = nothing_pushed _ _ _ r₄ in
    let (capacity, r₆) = nothing_pushed _ _ _ r₅ in
    let (provider, r₇) = nothing_pushed _ _ _ r₆ in
    record {
      provider = provider;
      capacity = not-false i.capacity_available capacity;
      routing = routing;
      tunnel = tunnel;
      directory = directory;
      dns = dns;
      internet = internet;
    }

IsWhole-reasons_of : (i : ClassificationInput) → IsWhole i → reasons_of i ≡ []
unfolding reasons_of
IsWhole-reasons_of i v =
    rw (v.internet, v.dns, v.directory, v.tunnel, v.routing, v.capacity, v.provider) refl

classify_input_ready :
    (i : ClassificationInput)
    → (classify_input i).readiness ≡ Readiness.ready
    → ((classify_input i).liveness ≡ Liveness.live)
      × (is_stopping i.lifecycle ≡ false)
      × (readiness_of (reasons_of i) ≡ Readiness.ready)
unfolding classify_input
classify_input_ready i h = (ground arith, ground arith, ground arith)

pub classify_input-IsReadyInput :
    (i : ClassificationInput) → (classify_input i).readiness ≡ Readiness.ready → IsReadyInput i
classify_input-IsReadyInput i h =
    let (is_live, staying, ready) = classify_input_ready i h in
    let whole = reasons_of-IsWhole i (readiness_of-nil (reasons_of i) ready) in
    record {
      is_live = classify_input-IsLiveInput i is_live;
      staying = staying;
      provider = whole.provider;
      capacity = whole.capacity;
      routing = whole.routing;
      tunnel = whole.tunnel;
      directory = whole.directory;
      dns = whole.dns;
      internet = whole.internet;
    }

pub IsReadyInput-classify_input :
    (i : ClassificationInput) → IsReadyInput i → (classify_input i).readiness ≡ Readiness.ready
unfolding classify_input
IsReadyInput-classify_input i v =
    let none_left = IsWhole-reasons_of i (record {
      provider = v.provider;
      capacity = v.capacity;
      routing = v.routing;
      tunnel = v.tunnel;
      directory = v.directory;
      dns = v.dns;
      internet = v.internet;
    }) in
    elim v.is_live.supervisor [
      | inl free ↦ ground (arith, none_left, v.is_live.started, v.is_live.runtime, v.staying)
      | inr lately ↦ ground (arith, none_left, v.is_live.started, v.is_live.runtime, v.staying)
    ]

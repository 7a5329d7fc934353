-- ===== src/Lifecycle/Cancellation/Evidence.antt =====
-- The bounded memory for cancellation evidence in src/service_lifecycle.rs.
use iicp_client_rust.Base.{
  suc, ◌+◌, ◌≤◌, String, ◌==◌, eq_iff, ◌≡◌, refl, sym, subst, ap, ◌∙◌, false, ◌||◌, List, [], ◌∷◌,
  ◌++◌, arith, length, length-append, one_of, if◌then◌else◌, inl, inr, Bool-cases, leb,
}
use iicp_client_rust.Base.Dict.{get, insert, remove, contains_key, get-insert, get-remove}
use iicp_client_rust.Lifecycle.Cancellation.{
  CancellationEvidence, Registry, evidence_limit, empty, evict, remember,
}

abbrev pub NoRepeats : List String → Type 0
NoRepeats [] = Unit
NoRepeats (x ∷ xs) = (one_of xs x ≡ false) × NoRepeats xs

-- The queue names exactly the tasks with evidence, each once, and is bounded.
pub record IsTracked {H : Type 0} (g : Registry H) : Type 0 where
  pub bounded : length g.evidence_order ≤ evidence_limit
  pub distinct : NoRepeats g.evidence_order
  pub same : (k : String) → contains_key k g.evidence ≡ one_of g.evidence_order k

one_of-append_one :
    (xs : List String) (y k : String) → one_of (xs ++ y ∷ []) k ≡ (one_of xs k || k == y)
one_of-append_one [] y k = ground arith
one_of-append_one (x ∷ xs) y k = ground (arith, one_of-append_one xs y k)

NoRepeats-append_one :
    (xs : List String) (y : String) → one_of xs y ≡ false → NoRepeats xs → NoRepeats (xs ++ y ∷ [])
NoRepeats-append_one [] y h d = (refl, tt)
NoRepeats-append_one (x ∷ xs) y h d = ground (
  arith,
  one_of-append_one xs y x,
  eq_iff x y,
  eq_iff y x,
  NoRepeats-append_one xs y (ground arith) d.1,
)

module _ {V : Type 0} where
  contains-insert :
      (k j : String) (v : V) (m : List (String × V))
      → contains_key j (insert k v m) ≡ (contains_key j m || j == k)
  contains-insert k j v m = ground (arith, get-insert k j v m, eq_iff k j, eq_iff j k)

  contains-remove :
      (k j : String) (m : List (String × V))
      → contains_key j (remove k m) ≡ (if k == j then false else contains_key j m)
  contains-remove k j m = ground (arith, get-remove k j m)

module _ {H : Type 0} where
  pub empty-IsTracked : IsTracked {H = H} empty
  unfolding empty get
  empty-IsTracked = record { bounded = omega arith; distinct = tt; same = λ k. refl }

  evicted-IsTracked :
      (g : Registry H) (oldest : String) (order : List String)
      → g.evidence_order ≡ oldest ∷ order
      → IsTracked g
      → IsTracked (record g { evidence = remove oldest g.evidence; evidence_order = order })
  evicted-IsTracked g oldest order e v =
      let once : NoRepeats (oldest ∷ order) = subst NoRepeats e v.distinct in
      record {
        bounded = omega (arith, v.bounded, ap length e);
        distinct = once.1;
        same = λ k. ground (
          arith,
          contains-remove oldest k g.evidence,
          v.same k,
          ap (λ xs. one_of xs k) e,
          once.0,
          eq_iff oldest k,
          eq_iff k oldest,
        );
      }

  -- After making room the queue is below its limit.
  evict-IsTracked :
      (g : Registry H) (order : List String)
      → g.evidence_order ≡ order
      → IsTracked g
      → IsTracked (evict g order) × (length (evict g order).evidence_order + 1 ≤ evidence_limit)
  unfolding evict
  evict-IsTracked g [] e v = (v, ground (arith, ap length e))
  evict-IsTracked g (oldest ∷ order) e v =
      let count : length g.evidence_order ≡ suc (length order) = ap length e in
      elim (Bool-cases (leb evidence_limit (length (oldest ∷ order)))) [
        | inl full ↦ rw full (evicted-IsTracked g oldest order e v, omega (arith, count, v.bounded))
        | inr room ↦ rw room (v, ground (arith, count))
      ]

  appended-IsTracked :
      (g : Registry H) (e : CancellationEvidence)
      → IsTracked g
      → length g.evidence_order + 1 ≤ evidence_limit
      → contains_key e.task_id g.evidence ≡ false
      → IsTracked (record g {
        evidence = insert e.task_id e g.evidence;
        evidence_order = g.evidence_order ++ e.task_id ∷ [];
      })
  appended-IsTracked g e v room fresh = record {
    bounded = omega (arith, room, length-append g.evidence_order (e.task_id ∷ []));
    distinct =
        NoRepeats-append_one g.evidence_order e.task_id (sym (v.same e.task_id) ∙ fresh) v.distinct;
    same = λ k.
        contains-insert e.task_id k e g.evidence
        ∙ ap (λ b. b || k == e.task_id) (v.same k)
        ∙ sym (one_of-append_one g.evidence_order e.task_id k);
  }

  -- Making room adds no evidence.
  evict_absent :
      (g : Registry H) (order : List String) (k : String)
      → contains_key k g.evidence ≡ false
      → contains_key k (evict g order).evidence ≡ false
  unfolding evict
  evict_absent g [] k h = h
  evict_absent g (oldest ∷ order) k h = ground (arith, contains-remove oldest k g.evidence)

  pub remember-IsTracked :
      (g : Registry H) (e : CancellationEvidence) → IsTracked g → IsTracked (remember g e)
  unfolding remember
  remember-IsTracked g e v = elim (Bool-cases (contains_key e.task_id g.evidence)) [
    | inl old ↦ rw old (record {
      bounded = v.bounded;
      distinct = v.distinct;
      same = λ k. ground (
        arith,
        contains-insert e.task_id k e g.evidence,
        v.same k,
        v.same e.task_id,
        eq_iff k e.task_id,
      );
    })
    | inr fresh ↦ rw fresh (
        appended-IsTracked (evict g g.evidence_order) e
          (evict-IsTracked g g.evidence_order refl v).0
          (evict-IsTracked g g.evidence_order refl v).1
          (evict_absent g g.evidence_order e.task_id fresh))
  ]

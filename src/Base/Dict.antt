-- ===== src/Base/Dict.antt =====
-- `HashMap<String, V>` as an association list that holds a key at most once. `HashSet<String>` is a
-- map to `Unit`. The iteration order of the source's maps is not fixed; here it is the list's.
use Prim.Native.Nat.{◌+◌, ◌≤◌}
use Prim.Native.String.{String}
use mathlib.Core.Path.{◌≡◌, refl}
use mathlib.Core.Logic.{◌⊎◌, inl, inr}
use mathlib.Core.Bool.{Bool, true, false}
use mathlib.Core.List.{List, [], ◌∷◌, ◌++◌, map}
use mathlib.Core.Option.{Option, none, some}
use native.Mathlib.Omega.{arith}
use text.Mathlib.Text.{◌==◌}
use text.Mathlib.TextEquality.{eq_iff}
use text.Mathlib.TextPositions.{eq_refl}
use iicp_client_rust.Base.Tests.{any, if◌then◌else◌, String-cases}
use iicp_client_rust.Base.Lists.{length, All}

module _ {ℓ} {V : Type ℓ} where
  unfoldable pub get : String → List (String × V) → Option V
  get k [] = none
  get k ((j, v) ∷ m) = if j == k then some v else get k m

  unfoldable pub insert : String → V → List (String × V) → List (String × V)
  insert k v [] = (k, v) ∷ []
  insert k v ((j, w) ∷ m) = if j == k then (k, v) ∷ m else (j, w) ∷ insert k v m

  unfoldable pub remove : String → List (String × V) → List (String × V)
  remove k [] = []
  remove k ((j, w) ∷ m) = if j == k then remove k m else (j, w) ∷ remove k m

  abbrev pub is_some : Option V → Bool
  is_some none = false
  is_some (some v) = true

  abbrev pub contains_key : String → List (String × V) → Bool
  contains_key k m = is_some (get k m)

  abbrev pub keys : List (String × V) → List String
  keys = map (λ e. e.0)

  abbrev pub values : List (String × V) → List V
  values = map (λ e. e.1)

module _ {ℓ} {V : Type ℓ} where
  pub get-insert :
      (k j : String) (v : V) (m : List (String × V))
      → get j (insert k v m) ≡ (if k == j then some v else get j m)
  unfolding get insert
  get-insert k j v [] = refl
  get-insert k j v ((i, w) ∷ m) =
      ground (arith, eq_iff k j, eq_iff i k, eq_iff i j, get-insert k j v m)

  pub get-insert_self : (k : String) (v : V) (m : List (String × V)) → get k (insert k v m) ≡ some v
  get-insert_self k v m = rw (get-insert k k v m, eq_refl k)

  pub get-remove :
      (k j : String) (m : List (String × V))
      → get j (remove k m) ≡ (if k == j then none else get j m)
  unfolding get remove
  get-remove k j [] = ground arith
  get-remove k j ((i, w) ∷ m) = ground (arith, eq_iff k j, eq_iff i k, eq_iff i j, get-remove k j m)

  pub get-remove_self : (k : String) (m : List (String × V)) → get k (remove k m) ≡ none
  get-remove_self k m = rw (get-remove k k m, eq_refl k)

  pub length-insert_le :
      (k : String) (v : V) (m : List (String × V)) → length (insert k v m) ≤ length m + 1
  unfolding insert
  length-insert_le k v [] = omega arith
  length-insert_le k v ((j, w) ∷ m) = ground (arith, length-insert_le k v m)

  -- A key that is there is overwritten in place.
  pub length-insert_present :
      (k : String) (v : V) (m : List (String × V))
      → contains_key k m ≡ true
      → length (insert k v m) ≡ length m
  unfolding insert get
  length-insert_present k v [] h = cc
  length-insert_present k v ((j, w) ∷ m) h = ground (arith, length-insert_present k v m)

  pub length-remove_le : (k : String) (m : List (String × V)) → length (remove k m) ≤ length m
  unfolding remove
  length-remove_le k [] = omega arith
  length-remove_le k ((j, w) ∷ m) = ground (arith, length-remove_le k m)

  module _ {κ} (P : String × V → Type κ) where
    pub All-insert :
        (k : String) (v : V) (m : List (String × V)) → P (k, v) → All P m → All P (insert k v m)
    unfolding insert
    All-insert k v [] p h = (p, tt)
    All-insert k v ((j, w) ∷ m) p h = ground (arith, All-insert k v m p h.1)

    pub All-remove : (k : String) (m : List (String × V)) → All P m → All P (remove k m)
    unfolding remove
    All-remove k [] h = tt
    All-remove k ((j, w) ∷ m) h = ground (arith, All-remove k m h.1)

    -- An entry that is found has what holds of all entries.
    pub All-get :
        (k : String) (m : List (String × V)) {v : V} → All P m → get k m ≡ some v → P (k, v)
    unfolding get
    All-get k [] h e = cc
    All-get k ((j, w) ∷ m) {v} h e = elim (String-cases j k) [
      | inl same ↦ ground (arith, eq_iff j k)
      | inr differ ↦ All-get k m h.1 (rw differ at e)
    ]

  -- A test that no value passes fails at a value that is found.
  pub any-values :
      (p : V → Bool) (k : String) (m : List (String × V)) {v : V}
      → any p (values m) ≡ false
      → get k m ≡ some v
      → p v ≡ false
  unfolding get
  any-values p k [] h e = cc
  any-values p k ((j, w) ∷ m) {v} h e = ground (arith, any-values p k m {v = v})

  -- The keys of a map are distinct.
  abbrev pub IsDistinct : List (String × V) → Type ℓ
  IsDistinct [] = Unit
  IsDistinct ((k, v) ∷ m) = (get k m ≡ none) × IsDistinct m

  pub insert-IsDistinct :
      (k : String) (v : V) (m : List (String × V)) → IsDistinct m → IsDistinct (insert k v m)
  unfolding get insert
  insert-IsDistinct k v [] d = (refl, tt)
  insert-IsDistinct k v ((j, w) ∷ m) d =
      ground (arith, eq_iff j k, eq_iff k j, get-insert k j v m, insert-IsDistinct k v m d.1)

  pub remove-IsDistinct :
      (k : String) (m : List (String × V)) → IsDistinct m → IsDistinct (remove k m)
  unfolding get remove
  remove-IsDistinct k [] d = tt
  remove-IsDistinct k ((j, w) ∷ m) d =
      ground (arith, eq_iff j k, eq_iff k j, get-remove k j m, remove-IsDistinct k m d.1)

  -- A key that is not there is put at the end.
  pub insert_absent :
      (k : String) (v : V) (m : List (String × V))
      → get k m ≡ none
      → insert k v m ≡ m ++ (k, v) ∷ []
  unfolding get insert
  insert_absent k v [] h = refl
  insert_absent k v ((j, w) ∷ m) h = ground (arith, insert_absent k v m)

  pub get-append_one :
      (k j : String) (v : V) (m : List (String × V))
      → get k m ≡ none
      → get k (m ++ (j, v) ∷ []) ≡ (if j == k then some v else none)
  unfolding get
  get-append_one k j v [] h = refl
  get-append_one k j v ((i, w) ∷ m) h = ground (arith, get-append_one k j v m)

  -- Where a value comes from that is found after a removal or an insertion.
  pub get_of_remove :
      (k j : String) (m : List (String × V)) (v : V)
      → get j (remove k m) ≡ some v
      → get j m ≡ some v
  get_of_remove k j m v h = ground (arith, get-remove k j m)

  pub get_of_insert :
      (k j : String) (w : V) (m : List (String × V)) (v : V)
      → get j (insert k w m) ≡ some v
      → ((k ≡ j) × (w ≡ v)) ⊎ (get j m ≡ some v)
  get_of_insert k j w m v h = ground (arith, get-insert k j w m, eq_iff k j)

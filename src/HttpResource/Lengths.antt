-- ===== src/HttpResource/Lengths.antt =====
-- The lengths that src/http_resource.rs reads from a Content-Length.
use iicp_client_rust.Base.{
  ℕ, ◌+◌, ◌-◌, ◌*◌, ◌≤◌, ◌≡◌, refl, sym, subst, ap, ◌∙◌, ◌↔◌, true, false, List, [], ◌∷◌, Option,
  none, some, ok, arith, all, inl, inr, Bool-cases, ◌⊎◌, ◌≢◌, Result, err, ltb, ◌>>=◌, ◌>>◌, first,
  All,
}
use iicp_client_rust.Base.Words.{u64_max}
use iicp_client_rust.HttpResource.{
  is_digit, parse_digits, parse_content_length_value, parse_all, all_match, agreed_length, Checked,
  is_empty_text, require_matching_content_lengths,
}

-- The number that digits stand for, after a number that stands before them.
abbrev pub decimal : ℕ → List ℕ → ℕ
decimal n [] = n
decimal n (c ∷ cs) = decimal (n * 10 + (c - b'0')) cs

le-decimal : (n : ℕ) (cs : List ℕ) → n ≤ decimal n cs
le-decimal n [] = omega arith
le-decimal n (c ∷ cs) = omega (arith, le-decimal (n * 10 + (c - b'0')) cs)

parse_digits-decimal :
    (n m : ℕ) (cs : List ℕ)
    → n ≤ u64_max
    → parse_digits n cs ≡ some m
    → (m ≡ decimal n cs) × (m ≤ u64_max)
unfolding parse_digits
parse_digits-decimal n m [] fits h = (ground arith, ground arith)
parse_digits-decimal n m (c ∷ cs) fits h =
    let next = n * 10 + (c - b'0') in
    elim (Bool-cases (ltb u64_max next)) [
      | inl over ↦ absurd (overflows (rw over at h))
      | inr under ↦ parse_digits-decimal next m cs (ground arith) (rw under at h)
    ]
  where
    overflows : none ≡ some m → ⊥
    overflows e = ground arith

decimal-parse_digits :
    (n : ℕ) (cs : List ℕ) → decimal n cs ≤ u64_max → parse_digits n cs ≡ some (decimal n cs)
unfolding parse_digits
decimal-parse_digits n [] fits = refl
decimal-parse_digits n (c ∷ cs) fits =
    let next = n * 10 + (c - b'0') in
    ground (arith, le-decimal next cs, decimal-parse_digits next cs)

-- A text of digits, at least one, that stands for the number, which fits in a `usize`.
pub record IsLength (n : ℕ) (value : List ℕ) : Type 0 where
  pub some_digit : is_empty_text value ≡ false
  pub digits : all is_digit value ≡ true
  pub stands : decimal 0 value ≡ n
  pub fits : n ≤ u64_max

pub bind_ok :
    {E A B : Type 0} (m : Result E A) (f : A → Result E B) {b : B}
    → (m >>= f) ≡ ok b
    → (a : A) × (m ≡ ok a) × (f a ≡ ok b)
bind_ok (ok a) f h = (a, refl, h)
bind_ok (err e) f h = cc

parse_content_length_value-IsLength :
    (value : List ℕ) (n : ℕ) → (parse_content_length_value value ≡ ok n) ↔ IsLength n value
unfolding parse_content_length_value
parse_content_length_value-IsLength value n = (
  λ h. record {
    some_digit = ground arith;
    digits = ground arith;
    stands = ground (arith, parse_digits-decimal 0 n value);
    fits = ground (arith, parse_digits-decimal 0 n value);
  },
  λ v.
      let read : parse_digits 0 value ≡ some n =
        rw (← v.stands) (decimal-parse_digits 0 value (omega (arith, v.stands, v.fits))) in
      rw (v.some_digit, v.digits, read) refl,
)

parse_all-agree :
    (n : ℕ) (values : List (List ℕ)) (ns : List ℕ)
    → parse_all values ≡ ok ns
    → all_match (n ∷ ns) ≡ true
    → All (IsLength n) values
unfolding parse_all
parse_all-agree n [] ns h m = tt
parse_all-agree n (value ∷ values) ns h m =
    let (k, one, more) = bind_ok (parse_content_length_value value) _ h in
    let (ks, rest, e) = bind_ok (parse_all values) _ more in
    let m' : all_match (n ∷ k ∷ ks) ≡ true = ground arith in
    let same : k ≡ n = ground arith in
    let tail : all_match (k ∷ ks) ≡ true = ground arith in
    (
      subst (λ j. IsLength j value) same ((parse_content_length_value-IsLength value k).0 one),
      parse_all-agree n values ks rest (subst (λ j. all_match (j ∷ ks) ≡ true) same tail),
    )

agree-parse_all :
    (n : ℕ) (values : List (List ℕ))
    → All (IsLength n) values
    → (ns : List ℕ) × (parse_all values ≡ ok ns)
      × (all_match (n ∷ ns) ≡ true)
      × ((values ≡ []) ⊎ (first ns ≡ some n))
unfolding parse_all
agree-parse_all n [] v = ([], refl, refl, inl refl)
agree-parse_all n (value ∷ values) (one, more) =
    let (ns, rest, match, _) = agree-parse_all n values more in
    let taken = (parse_content_length_value-IsLength value n).1 one in
    (n ∷ ns, rw (taken, rest) refl, ground arith, inr refl)

abbrev matched : List ℕ → Checked (Option ℕ)
matched ns = require_matching_content_lengths ns >> ok (first ns)

matched-some :
    (ns : List ℕ) (n : ℕ) → matched ns ≡ ok (some n) → (ns ≢ []) × (all_match (n ∷ ns) ≡ true)
unfolding require_matching_content_lengths
matched-some [] n h = absurd (ground arith)
matched-some (m ∷ []) n h = ((λ e. ground arith), ground arith)
matched-some (m ∷ k ∷ ns) n h = ((λ e. ground arith), ground arith)

some-matched :
    (ns : List ℕ) (n : ℕ) → all_match (n ∷ ns) ≡ true → first ns ≡ some n → matched ns ≡ ok (some n)
unfolding require_matching_content_lengths
some-matched [] n h e = absurd (ground arith)
some-matched (m ∷ []) n h e = ground arith
some-matched (m ∷ k ∷ ns) n h e = ground arith

parse_all-nil : (ns : List ℕ) → parse_all [] ≡ ok ns → ns ≡ []
unfolding parse_all
parse_all-nil ns h = ground arith

matched-none : (ns : List ℕ) → matched ns ≡ ok none → ns ≡ []
unfolding require_matching_content_lengths
matched-none [] h = refl
matched-none (m ∷ []) h = absurd (ground arith)
matched-none (m ∷ k ∷ ns) h = absurd (ground arith)

parse_all_none : (values : List (List ℕ)) → parse_all values ≡ ok [] → values ≡ []
unfolding parse_all
parse_all_none [] h = refl
parse_all_none (value ∷ values) h =
    let (k, one, more) = bind_ok (parse_content_length_value value) _ h in
    let (ks, rest, e) = bind_ok (parse_all values) _ more in absurd (ground arith)

-- A length is agreed on where there are values and all of them stand for it.
pub agreed_length-some :
    (values : List (List ℕ)) (n : ℕ)
    → (agreed_length values ≡ ok (some n)) ↔ ((values ≢ []) × All (IsLength n) values)
unfolding agreed_length
agreed_length-some values n = (
  λ h.
      let (ns, parsed, rest) = bind_ok (parse_all values) _ h in
      let (not_empty, match) = matched-some ns n rest in
      (
        (λ e. not_empty (parse_all-nil ns (subst (λ v. parse_all v ≡ ok ns) e parsed))),
        parse_all-agree n values ns parsed match,
      ),
  λ v.
      let (ns, parsed, match, first_of) = agree-parse_all n values v.1 in
      elim first_of [
        | inl no_values ↦ absurd (v.0 no_values)
        | inr is_first ↦ rw parsed (some-matched ns n match is_first)
      ],
)

pub agreed_length-none : (values : List (List ℕ)) → (agreed_length values ≡ ok none) ↔ (values ≡ [])
unfolding agreed_length
agreed_length-none values = (
  λ h.
      let (ns, parsed, rest) = bind_ok (parse_all values) _ h in
      parse_all_none values (parsed ∙ ap ok (matched-none ns rest)),
  λ e. subst (λ v. agreed_length v ≡ ok none) (sym e) agreed_nil,
)
  where
    agreed_nil : agreed_length [] ≡ ok none
    agreed_nil = unfold parse_all in unfold require_matching_content_lengths in refl

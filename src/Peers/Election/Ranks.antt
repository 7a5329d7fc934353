-- ===== src/Peers/Election/Ranks.antt =====
-- The order by which src/peer_manager.rs ranks relays: texts, and pairs of a number and a text.
use iicp_client_rust.Base.{ℕ, ◌≡◌, refl, true, false, List, [], ◌∷◌, arith}
use iicp_client_rust.Peers.Election.{text_lt, score_lt}

text_lt_trans : (a b c : List ℕ) → text_lt a b ≡ true → text_lt b c ≡ true → text_lt a c ≡ true
unfolding text_lt
text_lt_trans [] [] c h k = cc
text_lt_trans [] (y ∷ b) [] h k = cc
text_lt_trans [] (y ∷ b) (z ∷ c) h k = refl
text_lt_trans (x ∷ a) [] c h k = cc
text_lt_trans (x ∷ a) (y ∷ b) [] h k = cc
text_lt_trans (x ∷ a) (y ∷ b) (z ∷ c) h k = ground (arith, text_lt_trans a b c)

text_le_trans : (a b c : List ℕ) → text_lt b a ≡ false → text_lt c b ≡ false → text_lt c a ≡ false
unfolding text_lt
text_le_trans [] [] [] h k = refl
text_le_trans [] [] (z ∷ c) h k = refl
text_le_trans [] (y ∷ b) [] h k = cc
text_le_trans [] (y ∷ b) (z ∷ c) h k = refl
text_le_trans (x ∷ a) [] c h k = cc
text_le_trans (x ∷ a) (y ∷ b) [] h k = cc
text_le_trans (x ∷ a) (y ∷ b) (z ∷ c) h k = ground (arith, text_le_trans a b c)

text_lt_antisymm : (a b : List ℕ) → text_lt a b ≡ false → text_lt b a ≡ false → a ≡ b
unfolding text_lt
text_lt_antisymm [] [] h k = refl
text_lt_antisymm [] (y ∷ b) h k = cc
text_lt_antisymm (x ∷ a) [] h k = cc
text_lt_antisymm (x ∷ a) (y ∷ b) h k = ground (arith, text_lt_antisymm a b)

text_lt_irrefl : (a : List ℕ) → text_lt a a ≡ false
unfolding text_lt
text_lt_irrefl [] = refl
text_lt_irrefl (x ∷ a) = ground (arith, text_lt_irrefl a)

pub score_lt_irrefl : (a : ℕ × List ℕ) → score_lt a a ≡ false
unfolding score_lt
score_lt_irrefl (x, a) = ground (arith, text_lt_irrefl a)

pub score_lt_trans :
    (a b c : ℕ × List ℕ) → score_lt a b ≡ true → score_lt b c ≡ true → score_lt a c ≡ true
unfolding score_lt
score_lt_trans (x, a) (y, b) (z, c) h k = ground (arith, text_lt_trans a b c)

pub score_le_trans :
    (a b c : ℕ × List ℕ) → score_lt b a ≡ false → score_lt c b ≡ false → score_lt c a ≡ false
unfolding score_lt
score_le_trans (x, a) (y, b) (z, c) h k = ground (arith, text_le_trans a b c)

pub score_lt_antisymm : (a b : ℕ × List ℕ) → score_lt a b ≡ false → score_lt b a ≡ false → a ≡ b
unfolding score_lt
score_lt_antisymm (x, a) (y, b) h k = ground (arith, text_lt_antisymm a b)

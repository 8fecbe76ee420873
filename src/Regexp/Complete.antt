-- ===== src/Regexp/Complete.antt =====
-- The backtracking search misses no match.
use chat2sql.Prelude.{
  ℕ, ◌≡◌, ◌⊎◌, inl, inr, Bool, true, Option, none, some, List, [], ◌∷◌, Bytes, length, drop,
  or_else, has_prefix, arith, ◌≢◌,
}
use chat2sql.Regexp.{
  one, star, lazy, text, edge, Pattern, at_edge, last_of, Rest, greedy, reluctant, one_of,
  match_one, match,
}
use chat2sql.Regexp.Language.{Matches, byte, leave, more, stop, on, first, other, bound, Complete}

or_else-left : {A : Type 0} (o d : Option A) → o ≢ none → or_else o d ≢ none
or_else-left o d h = ground arith

or_else-right : {A : Type 0} (o d : Option A) → d ≢ none → or_else o d ≢ none
or_else-right o d h = ground arith

star_inv :
    {f : ℕ → Bool} {is : Pattern} {p : Option ℕ} {c : ℕ} {s r : Bytes}
    → Matches (star f ∷ is) p (c ∷ s) r
    → Matches is p (c ∷ s) r ⊎ (f c ≡ true) × Matches (star f ∷ is) (some c) s r
star_inv (leave m) = inl m
star_inv (more e m) = inr (e, m)

star_end :
    {f : ℕ → Bool} {is : Pattern} {p : Option ℕ} {r : Bytes}
    → Matches (star f ∷ is) p [] r
    → Matches is p [] r
star_end (leave m) = m

lazy_inv :
    {f : ℕ → Bool} {is : Pattern} {p : Option ℕ} {c : ℕ} {s r : Bytes}
    → Matches (lazy f ∷ is) p (c ∷ s) r
    → Matches is p (c ∷ s) r ⊎ (f c ≡ true) × Matches (lazy f ∷ is) (some c) s r
lazy_inv (stop m) = inl m
lazy_inv (on e m) = inr (e, m)

lazy_end :
    {f : ℕ → Bool} {is : Pattern} {p : Option ℕ} {r : Bytes}
    → Matches (lazy f ∷ is) p [] r
    → Matches is p [] r
lazy_end (stop m) = m

text_inv :
    {w : Bytes} {ws : List Bytes} {is : Pattern} {p : Option ℕ} {s r : Bytes}
    → Matches (text (w ∷ ws) ∷ is) p s r
    → (has_prefix w s ≡ true) × Matches is (last_of p w) (drop (length w) s) r
      ⊎ Matches (text ws ∷ is) p s r
text_inv (first e m) = inl (e, m)
text_inv (other m) = inr m

edge_inv :
    {is : Pattern} {p : Option ℕ} {s r : Bytes}
    → Matches (edge ∷ is) p s r
    → (at_edge p s ≡ true) × Matches is p s r
edge_inv (bound e m) = (e, m)

one_inv :
    {f : ℕ → Bool} {is : Pattern} {p : Option ℕ} {c : ℕ} {s r : Bytes}
    → Matches (one f ∷ is) p (c ∷ s) r
    → (f c ≡ true) × Matches is (some c) s r
one_inv (byte e m) = (e, m)

no_text : {is : Pattern} {p : Option ℕ} {s r : Bytes} → Matches (text [] ∷ is) p s r → ⊥
no_text m = elim m [ ]

no_byte : {f : ℕ → Bool} {is : Pattern} {p : Option ℕ} {r : Bytes} → Matches (one f ∷ is) p [] r → ⊥
no_byte m = elim m [ ]

module _ (is : Pattern) (k : Rest) (complete : Complete is k) where
  greedy-Complete : (f : ℕ → Bool) → Complete (star f ∷ is) (greedy f k)
  unfolding greedy
  greedy-Complete f p [] r m = complete p [] r (star_end m)
  greedy-Complete f p (c ∷ s) r m = elim (star_inv m) [
    | inl short ↦
        ground
          (arith, complete p (c ∷ s) r short, or_else-right (greedy f k (some c) s) (k p (c ∷ s)))
    | inr (e, long) ↦
        rw (e, greedy) (or_else-left _ (k p (c ∷ s)) (greedy-Complete f (some c) s r long))
  ]

  reluctant-Complete : (f : ℕ → Bool) → Complete (lazy f ∷ is) (reluctant f k)
  unfolding reluctant
  reluctant-Complete f p [] r m = complete p [] r (lazy_end m)
  reluctant-Complete f p (c ∷ s) r m = elim (lazy_inv m) [
    | inl short ↦
        ground
          (arith, complete p (c ∷ s) r short, or_else-left (k p (c ∷ s)) (reluctant f k (some c) s))
    | inr (e, long) ↦
        rw (e, reluctant) (or_else-right (k p (c ∷ s)) _ (reluctant-Complete f (some c) s r long))
  ]

  one_of-Complete : (ws : List Bytes) → Complete (text ws ∷ is) (one_of ws k)
  unfolding one_of
  one_of-Complete [] p s r m = absurd (no_text m)
  one_of-Complete (w ∷ ws) p s r m = elim (text_inv m) [
    | inl (e, here) ↦ rw (e, one_of) (or_else-left _ _ (complete _ _ r here))
    | inr later ↦ ground (
      arith,
      one_of-Complete ws p s r later,
      or_else-right (k (last_of p w) (drop (length w) s)) (one_of ws k p s),
    )
  ]

  match_one-Complete : (f : ℕ → Bool) → Complete (one f ∷ is) (match_one f k)
  unfolding match_one
  match_one-Complete f p [] r m = absurd (no_byte m)
  match_one-Complete f p (c ∷ s) r m =
      let (e, rest) = one_inv m in rw (e, match_one) (complete (some c) s r rest)

-- Where the pattern matches at all, the search returns something.
pub match-Complete : (is : Pattern) → Complete is (match is)
unfolding match
match-Complete [] p s r m = cc
match-Complete (one f ∷ is) p s r m = match_one-Complete is (match is) (match-Complete is) f p s r m
match-Complete (star f ∷ is) p s r m = greedy-Complete is (match is) (match-Complete is) f p s r m
match-Complete (lazy f ∷ is) p s r m =
    reluctant-Complete is (match is) (match-Complete is) f p s r m
match-Complete (text ws ∷ is) p s r m = one_of-Complete is (match is) (match-Complete is) ws p s r m
match-Complete (edge ∷ is) p s r m =
    let (e, rest) = edge_inv m in rw (e, match) (match-Complete is p s r rest)

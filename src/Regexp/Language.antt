-- ===== src/Regexp/Language.antt =====
-- What it means that a pattern matches, with no search order in it, and that the backtracking
-- search decides it.
use chat2sql.Prelude.{
  ℕ, ◌≡◌, ◌⊎◌, inl, inr, Bool, true, Option, none, some, List, [], ◌∷◌, Bytes, length, drop,
  or_else, has_prefix, arith, Bool-cases, ◌≢◌,
}
use chat2sql.Regexp.{
  one, star, lazy, text, edge, Pattern, at_edge, last_of, Rest, greedy, reluctant, one_of,
  match_one, match,
}

-- `Matches is p s r`: after the byte `p` the pattern takes the text `s` up to its rest `r`.
pub data Matches : Pattern → Option ℕ → Bytes → Bytes → Type 0 where
  done : {p : Option ℕ} {s r : Bytes} → s ≡ r → Matches [] p s r
  byte :
      {f : ℕ → Bool} {is : Pattern} {p : Option ℕ} {c : ℕ} {s r : Bytes}
      → f c ≡ true
      → Matches is (some c) s r
      → Matches (one f ∷ is) p (c ∷ s) r
  leave :
      {f : ℕ → Bool} {is : Pattern} {p : Option ℕ} {s r : Bytes}
      → Matches is p s r
      → Matches (star f ∷ is) p s r
  more :
      {f : ℕ → Bool} {is : Pattern} {p : Option ℕ} {c : ℕ} {s r : Bytes}
      → f c ≡ true
      → Matches (star f ∷ is) (some c) s r
      → Matches (star f ∷ is) p (c ∷ s) r
  stop :
      {f : ℕ → Bool} {is : Pattern} {p : Option ℕ} {s r : Bytes}
      → Matches is p s r
      → Matches (lazy f ∷ is) p s r
  on :
      {f : ℕ → Bool} {is : Pattern} {p : Option ℕ} {c : ℕ} {s r : Bytes}
      → f c ≡ true
      → Matches (lazy f ∷ is) (some c) s r
      → Matches (lazy f ∷ is) p (c ∷ s) r
  first :
      {w : Bytes} {ws : List Bytes} {is : Pattern} {p : Option ℕ} {s r : Bytes}
      → has_prefix w s ≡ true
      → Matches is (last_of p w) (drop (length w) s) r
      → Matches (text (w ∷ ws) ∷ is) p s r
  other :
      {w : Bytes} {ws : List Bytes} {is : Pattern} {p : Option ℕ} {s r : Bytes}
      → Matches (text ws ∷ is) p s r
      → Matches (text (w ∷ ws) ∷ is) p s r
  bound :
      {is : Pattern} {p : Option ℕ} {s r : Bytes}
      → at_edge p s ≡ true
      → Matches is p s r
      → Matches (edge ∷ is) p s r

-- A way to go on finds only matches of `is`, and finds one where there is one.
abbrev pub Sound : Pattern → Rest → Type 0
Sound is k = (p : Option ℕ) (s r : Bytes) → k p s ≡ some r → Matches is p s r

abbrev pub Complete : Pattern → Rest → Type 0
Complete is k = (p : Option ℕ) (s r : Bytes) → Matches is p s r → k p s ≢ none

or_else-eq-some :
    {A : Type 0} (o d : Option A) (a : A) → or_else o d ≡ some a → (o ≡ some a) ⊎ (d ≡ some a)
or_else-eq-some none d a h = inr h
or_else-eq-some (some b) d a h = inl h

module _ (is : Pattern) (k : Rest) (sound : Sound is k) where
  greedy-Sound : (f : ℕ → Bool) → Sound (star f ∷ is) (greedy f k)
  unfolding greedy
  greedy-Sound f p [] r h = leave (sound p [] r h)
  greedy-Sound f p (c ∷ s) r h = elim (Bool-cases (f c)) [
    | inl e ↦ elim (or_else-eq-some (greedy f k (some c) s) (k p (c ∷ s)) r (rw (e, greedy) at h)) [
      | inl long ↦ more e (greedy-Sound f (some c) s r long)
      | inr short ↦ leave (sound p (c ∷ s) r short)
    ]
    | inr e ↦ leave (sound p (c ∷ s) r (rw (e, greedy) at h))
  ]

  reluctant-Sound : (f : ℕ → Bool) → Sound (lazy f ∷ is) (reluctant f k)
  unfolding reluctant
  reluctant-Sound f p [] r h = stop (sound p [] r h)
  reluctant-Sound f p (c ∷ s) r h = elim (Bool-cases (f c)) [
    | inl e ↦
        elim (or_else-eq-some (k p (c ∷ s)) (reluctant f k (some c) s) r (rw (e, reluctant) at h)) [
          | inl short ↦ stop (sound p (c ∷ s) r short)
          | inr long ↦ on e (reluctant-Sound f (some c) s r long)
        ]
    | inr e ↦ stop (sound p (c ∷ s) r (rw (e, reluctant) at h))
  ]

  one_of-Sound : (ws : List Bytes) → Sound (text ws ∷ is) (one_of ws k)
  unfolding one_of
  one_of-Sound [] p s r h = cc
  one_of-Sound (w ∷ ws) p s r h = elim (Bool-cases (has_prefix w s)) [
    | inl e ↦
        elim (or_else-eq-some (k (last_of p w) (drop (length w) s)) (one_of ws k p s) r
          (rw (e, one_of) at h)) [
            | inl here ↦ first e (sound _ _ r here)
            | inr later ↦ other (one_of-Sound ws p s r later)
          ]
    | inr e ↦ other (one_of-Sound ws p s r (rw (e, one_of) at h))
  ]

  match_one-Sound : (f : ℕ → Bool) → Sound (one f ∷ is) (match_one f k)
  unfolding match_one
  match_one-Sound f p [] r h = cc
  match_one-Sound f p (c ∷ s) r h = elim (Bool-cases (f c)) [
    | inl e ↦ byte e (sound (some c) s r (rw (e, match_one) at h))
    | inr e ↦ absurd (ground arith)
  ]

-- What the search returns is the rest of a match.
pub match-Sound : (is : Pattern) → Sound is (match is)
unfolding match
match-Sound [] p s r h = done (ground arith)
match-Sound (one f ∷ is) p s r h = match_one-Sound is (match is) (match-Sound is) f p s r h
match-Sound (star f ∷ is) p s r h = greedy-Sound is (match is) (match-Sound is) f p s r h
match-Sound (lazy f ∷ is) p s r h = reluctant-Sound is (match is) (match-Sound is) f p s r h
match-Sound (text ws ∷ is) p s r h = one_of-Sound is (match is) (match-Sound is) ws p s r h
match-Sound (edge ∷ is) p s r h = elim (Bool-cases (at_edge p s)) [
  | inl e ↦ bound e (match-Sound is p s r (ground arith))
  | inr e ↦ absurd (ground arith)
]

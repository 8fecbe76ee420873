-- ===== src/Regexp/Search.antt =====
-- A search through a whole text finds a match exactly when the pattern occurs in the text.
use chat2sql.Prelude.{
  refl, ◌++◌, ◌-◌, length, none, trim_left, if◌then◌else◌, Bool, ℕ, ◌≡◌, ◌↔◌, inl, inr, true,
  Option, some, [], ◌∷◌, Bytes, arith, Option-cases,
}
use chat2sql.Regexp.{Pattern, one, star, match, match_string, find_all, replace_all}
use chat2sql.Regexp.Language.{Matches, match-Sound}
use chat2sql.Regexp.Complete.{match-Complete}

-- The pattern matches at some place of the text, the byte `p` standing before the text.
pub data Occurs (is : Pattern) : Option ℕ → Bytes → Type 0 where
  here : {p : Option ℕ} {s r : Bytes} → Matches is p s r → Occurs is p s
  later : {p : Option ℕ} {c : ℕ} {s : Bytes} → Occurs is (some c) s → Occurs is p (c ∷ s)

module _ (is : Pattern) where
  match_string→Occurs : (p : Option ℕ) (s : Bytes) → match_string is p s ≡ true → Occurs is p s
  unfolding match_string
  match_string→Occurs p [] h = elim (Option-cases (match is p [])) [
    | inl e ↦ absurd (ground arith)
    | inr (r, e) ↦ here (match-Sound is p [] r e)
  ]
  match_string→Occurs p (c ∷ s) h = elim (Option-cases (match is p (c ∷ s))) [
    | inl e ↦ later (match_string→Occurs (some c) s (rw (e, match_string) at h))
    | inr (r, e) ↦ here (match-Sound is p (c ∷ s) r e)
  ]

  Occurs→match_string : {p : Option ℕ} (s : Bytes) → Occurs is p s → match_string is p s ≡ true
  unfolding match_string
  Occurs→match_string {p} [] (here {r = r} m) = ground (arith, match-Complete is p [] r m)
  Occurs→match_string {p} (c ∷ s) (here {r = r} m) = ground (arith, match-Complete is p (c ∷ s) r m)
  Occurs→match_string (c ∷ s) (later o) = ground (arith, Occurs→match_string s o)

  pub match_string_iff : (p : Option ℕ) (s : Bytes) → (match_string is p s ≡ true) ↔ Occurs is p s
  match_string_iff p s = (match_string→Occurs p s, Occurs→match_string s)

  -- Nothing is found exactly when no place of the text matches.
  pub find_all-eq-nil→not-Occurs :
      {p : Option ℕ} (s : Bytes) → find_all is p 0 s ≡ [] → ¬ Occurs is p s
  unfolding find_all
  find_all-eq-nil→not-Occurs {p} [] h (here {r = r} m) = ground (arith, match-Complete is p [] r m)
  find_all-eq-nil→not-Occurs {p} (c ∷ s) h (here {r = r} m) =
      ground (arith, match-Complete is p (c ∷ s) r m)
  find_all-eq-nil→not-Occurs {p} (c ∷ s) h (later o) = find_all-eq-nil→not-Occurs s (ground arith) o

  pub not-Occurs→find_all-eq-nil :
      (p : Option ℕ) (s : Bytes) → ¬ Occurs is p s → find_all is p 0 s ≡ []
  unfolding find_all
  not-Occurs→find_all-eq-nil p [] n = elim (Option-cases (match is p [])) [
    | inl e ↦ ground arith
    | inr (r, e) ↦ absurd (n (here (match-Sound is p [] r e)))
  ]
  not-Occurs→find_all-eq-nil p (c ∷ s) n = elim (Option-cases (match is p (c ∷ s))) [
    | inl e ↦ rw (e, find_all) (not-Occurs→find_all-eq-nil (some c) s (λ o. n (later o)))
    | inr (r, e) ↦ absurd (n (here (match-Sound is p (c ∷ s) r e)))
  ]

  pub find_all_iff : (p : Option ℕ) (s : Bytes) → (find_all is p 0 s ≡ []) ↔ (¬ Occurs is p s)
  find_all_iff p s = (find_all-eq-nil→not-Occurs s, not-Occurs→find_all-eq-nil p s)

  -- Where a pattern does not occur, replacing it changes nothing.
  pub replace_all_absent :
      (w : Bytes) (p : Option ℕ) (s : Bytes) → ¬ Occurs is p s → replace_all is w p 0 s ≡ s
  unfolding replace_all
  replace_all_absent w p [] n = refl
  replace_all_absent w p (c ∷ s) n = elim (Option-cases (match is p (c ∷ s))) [
    | inl e ↦
        rw (e, replace_all) (ground (arith, replace_all_absent w (some c) s (λ o. n (later o))))
    | inr (r, e) ↦ absurd (n (here (match-Sound is p (c ∷ s) r e)))
  ]

  -- One round of `replace_all`.
  pub replace_all-match :
      (w : Bytes) (p : Option ℕ) (c : ℕ) (s r : Bytes)
      → match is p (c ∷ s) ≡ some r
      → replace_all is w p 0 (c ∷ s) ≡ w ++ replace_all is w (some c) (length s - length r) s
  unfolding replace_all
  replace_all-match w p c s r e = rw (e, replace_all)

  pub replace_all-no_match :
      (w : Bytes) (p : Option ℕ) (c : ℕ) (s : Bytes)
      → match is p (c ∷ s) ≡ none
      → replace_all is w p 0 (c ∷ s) ≡ c ∷ replace_all is w (some c) 0 s
  unfolding replace_all
  replace_all-no_match w p c s e = rw (e, replace_all)

-- A match of a repeated class at a place, taken apart.
pub match_one_iff_class :
    (f : ℕ → Bool) (is : Pattern) (p : Option ℕ) (c : ℕ) (s : Bytes)
    → match (one f ∷ is) p (c ∷ s) ≡ (if f c then match is (some c) s else none)
unfolding match
match_one_iff_class f is p c s = ground arith

pub match-star-last :
    (f : ℕ → Bool) (p : Option ℕ) (s : Bytes) → match (star f ∷ []) p s ≡ some (trim_left f s)
unfolding match trim_left
match-star-last f p [] = refl
match-star-last f p (c ∷ s) = ground (arith, match-star-last f (some c) s)

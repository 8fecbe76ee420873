-- ===== src/SqlSecurity/Squeeze.antt =====
-- internal/service/sql_security.go, the last step of `cleanSQL`: the search for `\s+` against a
-- plain walk that remembers whether a blank came last.
use chat2sql.Prelude.{
  ℕ, zero, suc, ◌+◌, ◌≡◌, refl, Bool, true, false, Option, none, some, [], ◌∷◌, Bytes, arith,
  length, if◌then◌else◌, Bool-cases, inl, inr, ap, ◌∙◌, trim_left,
}
use chat2sql.Regexp.{match, plus, replace_all, star}
use chat2sql.Regexp.Search.{
  replace_all-match, replace_all-no_match, match_one_iff_class, match-star-last,
}
use chat2sql.SqlSecurity.Clean.{squeeze}
use chat2sql.SqlSecurity.Patterns.{is_blank}

pub collapse : Bool → Bytes → Bytes
collapse after_blank [] = []
collapse after_blank (c ∷ s) =
    let rest = collapse (is_blank c) s in
    if is_blank c then (if after_blank then rest else 32 ∷ rest) else c ∷ rest

-- How many blanks lead the text, and the text after them.
pub lead : Bytes → ℕ
lead [] = 0
lead (c ∷ s) = if is_blank c then suc (lead s) else 0

abbrev after_lead : Bytes → Bytes
after_lead = trim_left is_blank

length-lead : (s : Bytes) → length s ≡ lead s + length (after_lead s)
unfolding lead trim_left
length-lead [] = omega arith
length-lead (c ∷ s) = ground (arith, length-lead s)

match-blank :
    (p : Option ℕ) (c : ℕ) (s : Bytes)
    → match (plus is_blank) p (c ∷ s) ≡ (if is_blank c then some (after_lead s) else none)
unfolding plus
match-blank p c s =
    rw
      (match_one_iff_class is_blank (star is_blank ∷ []) p c s, match-star-last is_blank (some c) s)

abbrev blank_for : Bytes → Option ℕ → ℕ → Bytes
blank_for s p skip = replace_all (plus is_blank) (32 ∷ []) p skip s

replace-blank :
    (p : Option ℕ) (c : ℕ) (s : Bytes)
    → is_blank c ≡ true
    → blank_for (c ∷ s) p 0 ≡ 32 ∷ blank_for s (some c) (lead s)
replace-blank p c s e =
    replace_all-match (plus is_blank) (32 ∷ []) p c s (after_lead s) (match-blank p c s ∙ rw e)
    ∙ ap (λ n. 32 ∷ blank_for s (some c) n) (omega (arith, length-lead s))

replace-other :
    (p : Option ℕ) (c : ℕ) (s : Bytes)
    → is_blank c ≡ false
    → blank_for (c ∷ s) p 0 ≡ c ∷ blank_for s (some c) 0
replace-other p c s e =
    replace_all-no_match (plus is_blank) (32 ∷ []) p c s (match-blank p c s ∙ rw e)

replace-none : (p : Option ℕ) (n : ℕ) → blank_for [] p n ≡ []
unfolding replace_all
replace-none p zero = refl
replace-none p (suc n) = refl

replace-skip :
    (q : Option ℕ) (c n : ℕ) (s : Bytes) → blank_for (c ∷ s) q (suc n) ≡ blank_for s (some c) n
unfolding replace_all
replace-skip q c n s = refl

-- The search for `\\s+` is the plain walk, at a fresh start and inside a run of blanks.
replace-blanks :
    (s : Bytes) (p q : Option ℕ)
    → (blank_for s p 0 ≡ collapse false s) × (blank_for s q (lead s) ≡ collapse true s)
unfolding collapse lead
replace-blanks [] p q = (replace-none p 0, replace-none q 0)
replace-blanks (c ∷ s) p q = elim (Bool-cases (is_blank c)) [
  | inl e ↦ (
    replace-blank p c s e ∙ ground (arith, (replace-blanks s p (some c)).1),
    ground (arith, replace-skip q c (lead s) s, (replace-blanks s p (some c)).1),
  )
  | inr e ↦ (
    replace-other p c s e ∙ ground (arith, (replace-blanks s (some c) q).0),
    ground (arith, replace-other q c s e, (replace-blanks s (some c) q).0),
  )
]

-- Every white space byte is a single blank, and no two of them are neighbours.
abbrev pub IsSqueezed : Bytes → Type 0
IsSqueezed [] = Unit
IsSqueezed (c ∷ s) = (is_blank c ≡ true → (c ≡ 32) × (lead s ≡ 0)) × IsSqueezed s

collapse-IsSqueezed :
    (b : Bool) (s : Bytes) → IsSqueezed (collapse b s) × (b ≡ true → lead (collapse b s) ≡ 0)
unfolding collapse lead
collapse-IsSqueezed b [] = (tt, λ h. refl)
collapse-IsSqueezed true (c ∷ s) = elim (Bool-cases (is_blank c)) [
  | inl e ↦ rw e (collapse-IsSqueezed true s)
  | inr e ↦ rw e ((λ h. absurd (ground arith), (collapse-IsSqueezed false s).0), λ h. rw e)
]
collapse-IsSqueezed false (c ∷ s) = elim (Bool-cases (is_blank c)) [
  | inl e ↦ rw e (
    (λ h. (refl, (collapse-IsSqueezed true s).1 refl), (collapse-IsSqueezed true s).0),
    λ h. absurd (ground arith),
  )
  | inr e ↦
      rw e
        ((λ h. absurd (ground arith), (collapse-IsSqueezed false s).0), λ h. absurd (ground arith))
]

-- `\s+` replaced by a blank everywhere is the plain walk, and leaves single blanks only.
pub squeeze_lem : (s : Bytes) → (squeeze s ≡ collapse false s) × IsSqueezed (squeeze s)
unfolding squeeze
squeeze_lem s = let e = (replace-blanks s none none).0 in (e, rw e (collapse-IsSqueezed false s).0)

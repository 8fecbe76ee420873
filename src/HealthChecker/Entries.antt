-- ===== src/HealthChecker/Entries.antt =====
-- internal/routing/health_checker.go: what every history of a map is.
use chat2sql.Prelude.{
  ◌≡◌, Bool, [], ◌∷◌, Bytes, Dict, some, Bool-cases, inl, inr, lookup, insert, keep, text_key,
  some_subst, arith,
}
use chat2sql.HealthChecker.State.{HealthHistory}

module _ (P : HealthHistory → Type 0) where
  abbrev pub AllAre : Dict Bytes HealthHistory → Type 0
  AllAre [] = Unit
  AllAre ((name, h) ∷ hs) = P h × AllAre hs

  pub insert-AllAre :
      (name : Bytes) (h : HealthHistory) (hs : Dict Bytes HealthHistory)
      → P h
      → AllAre hs
      → AllAre (insert name h hs)
  unfolding insert
  insert-AllAre name h [] v vs = (v, tt)
  insert-AllAre name h ((other, k) ∷ hs) v (w, vs) = elim (Bool-cases (text_key.same name other)) [
    | inl e ↦ rw (e, insert) (v, vs)
    | inr e ↦ rw (e, insert) (w, insert-AllAre name h hs v vs)
  ]

  pub keep-AllAre :
      (f : Bytes → HealthHistory → Bool) (hs : Dict Bytes HealthHistory)
      → AllAre hs
      → AllAre (keep f hs)
  unfolding keep
  keep-AllAre f [] vs = tt
  keep-AllAre f ((name, h) ∷ hs) (v, vs) = elim (Bool-cases (f name h)) [
    | inl e ↦ rw (e, keep) (v, keep-AllAre f hs vs)
    | inr e ↦ rw (e, keep) (keep-AllAre f hs vs)
  ]

  pub lookup-AllAre :
      (name : Bytes) (hs : Dict Bytes HealthHistory) (h : HealthHistory)
      → AllAre hs
      → lookup name hs ≡ some h
      → P h
  unfolding lookup
  lookup-AllAre name [] h vs e = absurd (ground arith)
  lookup-AllAre name ((other, k) ∷ hs) h (v, vs) e = elim (Bool-cases (text_key.same name other)) [
    | inl here ↦ some_subst P (rw (here, lookup) at e) v
    | inr further ↦ lookup-AllAre name hs h vs (rw (further, lookup) at e)
  ]

-- ===== src/ContextManager/Bounds.antt =====
-- internal/ai/context_manager.go: how long the maps and the histories are after each operation.
use chat2sql.Prelude.{
  ℕ, suc, ◌-◌, ◌≤◌, ◌<◌, ◌≡◌, refl, subst, sym, Bool, false, not, some, List, [], ◌∷◌, ◌++◌, ltb,
  leb, length, drop, length-take-le, ◌==◌, number_key, Dict, lookup, insert, keep, delete,
  length-keep-le, value_or, if_holds, Bool-cases, inl, inr, ◌⊎◌, arith,
}
use chat2sql.ContextManager.History.{push}
use chat2sql.ContextManager.Schemas.{oldest_from, evict_oldest, make_room}
use chat2sql.ContextManager.State.{QueryHistory, SchemaInfo}

module _ {V : Type 0} (P : V → Type 0) where
  -- Every value of a map.
  abbrev pub Every : Dict ℕ V → Type 0
  Every [] = Unit
  Every ((k, v) ∷ m) = P v × Every m

  pub insert-Every : (k : ℕ) (v : V) (m : Dict ℕ V) → P v → Every m → Every (insert k v m)
  unfolding insert
  insert-Every k v [] p h = (p, tt)
  insert-Every k v ((j, w) ∷ m) p (q, h) =
      if_holds Every (k == j) (p, h) (q, insert-Every k v m p h)

  pub keep-Every : (f : ℕ → V → Bool) (m : Dict ℕ V) → Every m → Every (keep f m)
  unfolding keep
  keep-Every f [] h = tt
  keep-Every f ((k, v) ∷ m) (p, h) = if_holds Every (f k v) (p, keep-Every f m h) (keep-Every f m h)

  pub lookup-Every : (d : V) (k : ℕ) (m : Dict ℕ V) → P d → Every m → P (value_or d (lookup k m))
  unfolding lookup
  lookup-Every d k [] p h = p
  lookup-Every d k ((j, v) ∷ m) p (q, h) =
      if_holds (λ o. P (value_or d o)) (k == j) q (lookup-Every d k m p h)

pub length-insert-le :
    {V : Type 0} (k : ℕ) (v : V) (m : Dict ℕ V) → length (insert k v m) ≤ suc (length m)
unfolding insert
length-insert-le k v [] = omega arith
length-insert-le k v ((j, w) ∷ m) = elim (Bool-cases (k == j)) [
  | inl here ↦ rw here (omega arith)
  | inr there ↦ rw there (omega (arith, length-insert-le k v m))
]

-- Deleting the key makes the map shorter.
abbrev Shortens : {V : Type 0} → ℕ → Dict ℕ V → Type 0
Shortens k m = length (delete k m) < length m

cons-Shortens :
    {V : Type 0} (k j : ℕ) (v : V) (m : Dict ℕ V) → Shortens k m → Shortens k ((j, v) ∷ m)
unfolding keep
cons-Shortens k j v m h = elim (Bool-cases (not (k == j))) [
  | inl kept ↦ rw kept (omega (arith, h))
  | inr gone ↦ rw gone (omega (arith, h))
]

head-Shortens : {V : Type 0} (k : ℕ) (v : V) (m : Dict ℕ V) → Shortens k ((k, v) ∷ m)
unfolding keep
head-Shortens k v m =
    let gone : not (k == k) ≡ false = ground arith in
    rw gone (omega (arith, length-keep-le (λ j w. not (k == j)) m))

-- The entry that is found is the one to begin with, or one of the map.
oldest_from-Shortens :
    (i time : ℕ) (m : Dict ℕ SchemaInfo)
    → (i' : ℕ) × (t' : ℕ) × (oldest_from (some (i, time)) m ≡ some (i', t'))
      × ((i' ≡ i) ⊎ Shortens i' m)
unfolding oldest_from
oldest_from-Shortens i time [] = (i, time, refl, inl refl)
oldest_from-Shortens i time ((j, info) ∷ m) = elim (Bool-cases (ltb info.last_updated time)) [
  | inl older ↦
      let (i', t', found, place) = oldest_from-Shortens j info.last_updated m in
      (
        i',
        t',
        rw older found,
        elim place [
          | inl here ↦
              inr (subst (λ k. Shortens k ((j, info) ∷ m)) (sym here) (head-Shortens j info m))
          | inr later ↦ inr (cons-Shortens i' j info m later)
        ],
      )
  | inr newer ↦
      let (i', t', found, place) = oldest_from-Shortens i time m in
      (
        i',
        t',
        rw newer found,
        elim place [ inl here ↦ inl here | inr later ↦ inr (cons-Shortens i' j info m later) ],
      )
]

evict_oldest-length : (m : Dict ℕ SchemaInfo) → length (evict_oldest m) ≤ length m - 1
unfolding evict_oldest oldest_from
evict_oldest-length [] = omega arith
evict_oldest-length ((j, info) ∷ m) =
    let (i', t', found, place) = oldest_from-Shortens j info.last_updated m in
    let shorter : Shortens i' ((j, info) ∷ m) = elim place [
      | inl here ↦ subst (λ k. Shortens k ((j, info) ∷ m)) (sym here) (head-Shortens j info m)
      | inr later ↦ cons-Shortens i' j info m later
    ] in
    let evicted : evict_oldest ((j, info) ∷ m) ≡ delete i' ((j, info) ∷ m) =
      rw (evict_oldest, found) refl in
    subst (λ rest. length rest ≤ suc (length m) - 1) (sym evicted) (omega (arith, shorter))

pub make_room-length :
    (max : ℕ) (m : Dict ℕ SchemaInfo)
    → length m ≤ suc (max - 1)
    → length (make_room max m) ≤ max - 1
unfolding make_room
make_room-length max m h = elim (Bool-cases (leb max (length m))) [
  | inl full ↦ rw full (omega (arith, evict_oldest-length m))
  | inr room ↦ rw room (ground arith)
]

pub length-push-le :
    (max : ℕ) (q : QueryHistory) (qs : List QueryHistory) → length (push max q qs) ≤ max
unfolding push
length-push-le max q qs = elim (Bool-cases (ltb max (length (qs ++ q ∷ [])))) [
  | inl over ↦ rw over (length-take-le max (drop 1 (qs ++ q ∷ [])))
  | inr fits ↦ rw fits (ground arith)
]

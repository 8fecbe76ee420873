-- ===== src/ConnectionManager/Limit.antt =====
-- internal/service/connection_manager.go: how many pools a user has.
use chat2sql.Prelude.{
  ℕ, suc, ◌+◌, ◌≤◌, ◌<◌, ◌≡◌, refl, ap, subst, sym, ◌∙◌, Bool, true, false, some, [], ◌∷◌, Bytes,
  Dict, number_key, lookup, insert, keep, if◌then◌else◌, if_holds, some_subst, ◌==◌, ==_iff,
  Outcome, ok, err, Bool-cases, Option-cases, Outcome-cases, inl, inr, arith,
}
use chat2sql.ConnectionManager.Changes.{check_pool_health, check_pools}
use chat2sql.ConnectionManager.Pools.{
  Answers, count_user, new_pool, store_pool, open_connection_pool,
}
use chat2sql.ConnectionManager.State.{
  ConnectionManager, ManagedPool, DatabaseConnection, PoolError, bad_ping, build_connection_string,
}

-- No user has more pools than the limit.
pub record Inv (cm : ConnectionManager) : Type 0 where
  pub limited : (user_id : ℕ) → count_user user_id cm.connection_pools ≤ cm.max_pools_per_user

pub count_user-keep-le :
    (user_id : ℕ) (f : ℕ → ManagedPool → Bool) (m : Dict ℕ ManagedPool)
    → count_user user_id (keep f m) ≤ count_user user_id m
unfolding count_user keep
count_user-keep-le user_id f [] = omega arith
count_user-keep-le user_id f ((id, p) ∷ m) = elim (Bool-cases (f id p)) [
  | inl kept ↦ elim (Bool-cases (p.connection.user_id == user_id)) [
    | inl own ↦ rw (kept, own) (omega (arith, count_user-keep-le user_id f m))
    | inr other ↦ rw (kept, other) (count_user-keep-le user_id f m)
  ]
  | inr gone ↦ elim (Bool-cases (p.connection.user_id == user_id)) [
    | inl own ↦ rw (gone, own) (omega (arith, count_user-keep-le user_id f m))
    | inr other ↦ rw (gone, other) (count_user-keep-le user_id f m)
  ]
]

-- A pool that replaces another one counts at most once more, and only for its own user.
count_user-insert-le :
    (user_id id : ℕ) (p : ManagedPool) (m : Dict ℕ ManagedPool)
    → count_user user_id (insert id p m)
      ≤ count_user user_id m + (if p.connection.user_id == user_id then 1 else 0)
unfolding count_user insert
count_user-insert-le user_id id p [] = ground arith
count_user-insert-le user_id id p ((j, q) ∷ m) = ground (arith, count_user-insert-le user_id id p m)

-- The same pool, used or checked again, counts as before.
pub count_user-insert_same :
    (user_id id : ℕ) (p q : ManagedPool) (m : Dict ℕ ManagedPool)
    → lookup id m ≡ some q
    → p.connection ≡ q.connection
    → count_user user_id (insert id p m) ≡ count_user user_id m
unfolding count_user insert lookup
count_user-insert_same user_id id p q [] found same = grind arith
count_user-insert_same user_id id p q ((j, r) ∷ m) found same =
    placed (id == j) found (λ later. count_user-insert_same user_id id p q m later same)
  where
    placed :
        (b : Bool)
        → (if b then some r else lookup id m) ≡ some q
        → (lookup id m ≡ some q → count_user user_id (insert id p m) ≡ count_user user_id m)
        → count_user user_id (if b then (id, p) ∷ m else (j, r) ∷ insert id p m) ≡ (
            if r.connection.user_id == user_id
            then suc (count_user user_id m)
            else count_user user_id m)
    placed true f rest =
        ap
          (λ (c : DatabaseConnection).
            if c.user_id == user_id then suc (count_user user_id m) else count_user user_id m)
          (same ∙ sym (some_subst (λ x. r.connection ≡ x.connection) f refl))
    placed false f rest = ap (λ n. if r.connection.user_id == user_id then suc n else n) (rest f)

pub count_user-check_pools :
    (user_id now : ℕ) (answers : ℕ → Outcome Bytes ℕ) (m : Dict ℕ ManagedPool)
    → count_user user_id (check_pools now answers m) ≡ count_user user_id m
unfolding count_user check_pools check_pool_health
count_user-check_pools user_id now answers [] = refl
count_user-check_pools user_id now answers ((id, p) ∷ m) =
    ap (λ n. if p.connection.user_id == user_id then suc n else n)
      (count_user-check_pools user_id now answers m)

store_pool-Inv :
    (cm : ConnectionManager) (id : ℕ) (p : ManagedPool)
    → count_user p.connection.user_id cm.connection_pools < cm.max_pools_per_user
    → Inv cm
    → Inv (store_pool cm id p)
store_pool-Inv cm id p room h = record { limited = λ user_id. one_more user_id }
  where
    one_more :
        (user_id : ℕ) → count_user user_id (insert id p cm.connection_pools) ≤ cm.max_pools_per_user
    one_more user_id = elim (Bool-cases (p.connection.user_id == user_id)) [
      | inl own ↦
          let same : p.connection.user_id ≡ user_id = (==_iff p.connection.user_id user_id).0 own in
          let free : count_user user_id cm.connection_pools < cm.max_pools_per_user =
            subst (λ u. count_user u cm.connection_pools < cm.max_pools_per_user) same room in
          ground (arith, count_user-insert-le user_id id p cm.connection_pools)
      | inr other ↦
          let bound = h.limited user_id in
          ground (arith, count_user-insert-le user_id id p cm.connection_pools)
    ]

pub open_connection_pool-Inv :
    (cm : ConnectionManager) (now id : ℕ) (w : Answers) (connection : DatabaseConnection)
    → count_user connection.user_id cm.connection_pools < cm.max_pools_per_user
    → Inv cm
    → Inv (open_connection_pool cm now id w connection).1
unfolding open_connection_pool
open_connection_pool-Inv cm now id w connection room h =
    elim (Option-cases (w.decrypt connection.password_encrypted)) [
      | inl none_left ↦
          let same : (open_connection_pool cm now id w connection).1 ≡ cm =
            rw (open_connection_pool, none_left) refl in
          subst Inv (sym same) h
      | inr (password, decrypted) ↦
          elim (Outcome-cases (w.open_pool (build_connection_string cm connection password))) [
            | inr (e, failed) ↦
                let same : (open_connection_pool cm now id w connection).1 ≡ cm =
                  rw (open_connection_pool, decrypted, failed) refl in
                subst Inv (sym same) h
            | inl (handle, opened) ↦
                let tested : Outcome PoolError ℕ × ConnectionManager =
                  if w.ping
                  then (ok handle, store_pool cm id (new_pool handle now connection))
                  else (err bad_ping, record cm { closed = handle ∷ cm.closed }) in
                let same : open_connection_pool cm now id w connection ≡ tested =
                  rw (open_connection_pool, decrypted, opened) refl in
                subst (λ (r : Outcome PoolError ℕ × ConnectionManager). Inv r.1) (sym same)
                  (if_holds (λ (r : Outcome PoolError ℕ × ConnectionManager). Inv r.1) w.ping
                    (store_pool-Inv cm id (new_pool handle now connection) room h)
                    (record { limited = h.limited }))
          ]
    ]

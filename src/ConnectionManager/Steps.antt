-- ===== src/ConnectionManager/Steps.antt =====
-- internal/service/connection_manager.go: each call keeps the limit of pools.
use chat2sql.Prelude.{
  ℕ, ◌≤◌, ◌<◌, ◌≡◌, refl, subst, sym, ◌∙◌, Bool, true, false, not, Option, none, some, List, [],
  ◌∷◌, Bytes, codes, same_bytes, number_key, lookup, keep, delete, if◌then◌else◌, if_holds, leb,
  ◌==◌, is_empty, Outcome, ok, err, value_or, Outcome-cases, inl, inr, arith, ok_subst,
}
use chat2sql.ConnectionManager.Changes.{
  update_connection, delete_connection, perform_health_check, is_idle, cleanup_idle_pools,
}
use chat2sql.ConnectionManager.Limit.{
  Inv, count_user-keep-le, count_user-insert_same, count_user-check_pools, open_connection_pool-Inv,
}
use chat2sql.ConnectionManager.Pools.{
  Answers, count_user, check_user_pool_limit, store_pool, open_connection_pool,
  create_connection_pool, get_connection_pool, start, stop,
}
use chat2sql.ConnectionManager.Runs.{
  Call, getting, updating, deleting, checking, cleaning, starting, stopping, step, run,
}
use chat2sql.ConnectionManager.State.{
  ConnectionManager, ConnectionManagerConfig, ManagedPool, DatabaseConnection, PoolError,
  already_running, not_found, bad_status, limit_reached, cannot_save, bad_password, check_key,
  configured, new_connection_manager,
}

-- A pool is opened for a user below the limit only.
allowed-Inv :
    (cm : ConnectionManager) (now id : ℕ) (w : Answers) (connection : DatabaseConnection)
    (o : Outcome PoolError (Unit {0}))
    → o ≡ check_user_pool_limit cm connection.user_id
    → Inv cm
    → let r : Outcome PoolError ℕ × ConnectionManager = elim o [
      | err e ↦ (err e, cm)
      | ok done ↦ open_connection_pool cm now id w connection
    ] in
      Inv r.1
unfolding check_user_pool_limit
allowed-Inv cm now id w connection (err e) p h = h
allowed-Inv cm now id w connection (ok done) p h =
    open_connection_pool-Inv cm now id w connection
      (below (count_user connection.user_id cm.connection_pools) p) h
  where
    below :
        (n : ℕ)
        → ok done ≡ (
            if leb cm.max_pools_per_user n
            then err (limit_reached cm.max_pools_per_user)
            else ok tt)
        → n < cm.max_pools_per_user
    below n = room (leb cm.max_pools_per_user n) refl
      where
        room :
            (b : Bool)
            → leb cm.max_pools_per_user n ≡ b
            → ok done ≡ (if b then err (limit_reached cm.max_pools_per_user) else ok tt)
            → n < cm.max_pools_per_user
        room true e q = grind arith
        room false e q = ground arith

create_connection_pool-Inv :
    (cm : ConnectionManager) (now id : ℕ) (w : Answers)
    → Inv cm
    → Inv (create_connection_pool cm now id w).1
unfolding create_connection_pool
create_connection_pool-Inv cm now id w h = fetched w.get_by_id
  where
    fetched :
        (o : Outcome Bytes DatabaseConnection)
        → let r : Outcome PoolError ℕ × ConnectionManager = elim o [
          | err e ↦ (err (not_found e), cm)
          | ok connection ↦
              if not (same_bytes connection.status (codes "active"))
              then (err (bad_status connection.status), cm)
              else elim (check_user_pool_limit cm connection.user_id) [
                | err e ↦ (err e, cm)
                | ok done ↦ open_connection_pool cm now id w connection
              ]
        ] in
          Inv r.1
    fetched (err e) = h
    fetched (ok connection) =
        if_holds (λ (r : Outcome PoolError ℕ × ConnectionManager). Inv r.1)
          (not (same_bytes connection.status (codes "active"))) h
          (allowed-Inv cm now id w connection (check_user_pool_limit cm connection.user_id) refl h)

get_connection_pool-Inv :
    (cm : ConnectionManager) (now id : ℕ) (w : Answers)
    → Inv cm
    → Inv (get_connection_pool cm now id w).1
unfolding get_connection_pool
get_connection_pool-Inv cm now id w h = found (lookup id cm.connection_pools) refl
  where
    found :
        (o : Option ManagedPool)
        → lookup id cm.connection_pools ≡ o
        → let r : Outcome PoolError ℕ × ConnectionManager = elim o [
          | some p ↦ (ok p.pool, store_pool cm id (record p { last_used = now }))
          | none ↦ create_connection_pool cm now id w
        ] in
          Inv r.1
    found none e = create_connection_pool-Inv cm now id w h
    found (some p) e = record {
      limited = λ user_id.
          subst (λ n. n ≤ cm.max_pools_per_user)
            (sym (
              count_user-insert_same user_id id (record p { last_used = now }) p cm.connection_pools
                e refl))
            (h.limited user_id);
    }

-- What is kept of the map keeps the limit.
keep-Inv :
    (cm : ConnectionManager) (f : ℕ → ManagedPool → Bool) (closed : List ℕ)
    → Inv cm
    → Inv (record cm { connection_pools = keep f cm.connection_pools; closed = closed })
keep-Inv cm f closed h = record {
  limited =
      λ user_id. omega (arith, h.limited user_id, count_user-keep-le user_id f cm.connection_pools);
}

update_connection-Inv :
    (encrypt : Bytes → Option Bytes) (save : DatabaseConnection → Option Bytes)
    (cm : ConnectionManager) (connection : DatabaseConnection)
    → Inv cm
    → Inv (update_connection encrypt save cm connection).1
unfolding update_connection
update_connection-Inv encrypt save cm connection h =
    if_holds (λ (r : Option PoolError × ConnectionManager). Inv r.1)
      (is_empty connection.password_encrypted) (saved (save connection))
      (encrypted (encrypt connection.password_encrypted))
  where
    saved :
        (o : Option Bytes)
        → let r : Option PoolError × ConnectionManager = elim o [
          | some e ↦ (some (cannot_save e), cm)
          | none ↦ (none, record cm { connection_pools = delete connection.id cm.connection_pools })
        ] in
          Inv r.1
    saved none = keep-Inv cm (λ j q. not (connection.id == j)) cm.closed h
    saved (some e) = h

    encrypted :
        (o : Option Bytes)
        → let r : Option PoolError × ConnectionManager = elim o [
          | none ↦ (some bad_password, cm)
          | some password ↦ elim (save (record connection { password_encrypted = password })) [
            | some e ↦ (some (cannot_save e), cm)
            | none ↦
                (none, record cm { connection_pools = delete connection.id cm.connection_pools })
          ]
        ] in
          Inv r.1
    encrypted none = h
    encrypted (some password) = saved (save (record connection { password_encrypted = password }))

delete_connection-Inv :
    (failed : Option Bytes) (cm : ConnectionManager) (id : ℕ)
    → Inv cm
    → Inv (delete_connection failed cm id).1
unfolding delete_connection
delete_connection-Inv failed cm id h = dropped (lookup id cm.connection_pools)
  where
    dropped :
        (o : Option ManagedPool)
        → let r : ConnectionManager = elim o [
          | none ↦ cm
          | some p ↦ record cm {
            connection_pools = delete id cm.connection_pools;
            closed = p.pool ∷ cm.closed;
          }
        ] in
          Inv r
    dropped none = h
    dropped (some p) = keep-Inv cm (λ j q. not (id == j)) (p.pool ∷ cm.closed) h

start-Inv : (cm : ConnectionManager) → Inv cm → Inv (step starting cm)
unfolding step start
start-Inv cm h = started cm.is_running
  where
    started :
        (b : Bool)
        → let o : Outcome PoolError ConnectionManager =
            if b then err already_running else ok (record cm { is_running = true }) in
          let r : ConnectionManager = elim o [ ok s ↦ s | err e ↦ cm ] in Inv r
    started true = h
    started false = record { limited = h.limited }

stop-Inv : (cm : ConnectionManager) → Inv cm → Inv (value_or cm (stop cm))
unfolding stop
stop-Inv cm h =
    if_holds (λ o. Inv (value_or cm o)) (not cm.is_running) h
      (if_holds (λ o. Inv (value_or cm o)) cm.stopped h (record { limited = h.limited }))

step-Inv : (c : Call) (cm : ConnectionManager) → Inv cm → Inv (step c cm)
unfolding step perform_health_check cleanup_idle_pools
step-Inv (getting now id w) cm h = get_connection_pool-Inv cm now id w h
step-Inv (updating encrypt save connection) cm h =
    update_connection-Inv encrypt save cm connection h
step-Inv (deleting failed id) cm h = delete_connection-Inv failed cm id h
step-Inv (checking now answers) cm h = record {
  limited = λ user_id.
      subst (λ n. n ≤ cm.max_pools_per_user)
        (sym (count_user-check_pools user_id now answers cm.connection_pools)) (h.limited user_id);
}
step-Inv (cleaning now) cm h = keep-Inv cm (λ id p. not (is_idle now cm p)) _ h
step-Inv starting cm h = start-Inv cm h
step-Inv stopping cm h = stop-Inv cm h

run-Inv : (calls : List Call) (cm : ConnectionManager) → Inv cm → Inv (run calls cm)
run-Inv [] cm h = h
run-Inv (c ∷ calls) cm h = run-Inv calls (step c cm) (step-Inv c cm h)

new_connection_manager-Inv :
    (config : ConnectionManagerConfig) (cm : ConnectionManager)
    → new_connection_manager config ≡ ok cm
    → Inv cm
unfolding new_connection_manager count_user
new_connection_manager-Inv config cm made = elim (Outcome-cases (check_key config.encryption_key)) [
  | inl (done, good) ↦
      let made' : new_connection_manager config ≡ ok (configured config) =
        rw (new_connection_manager, good) refl in
      ok_subst Inv (sym made' ∙ made) (record { limited = λ user_id. omega arith })
  | inr (e, bad) ↦
      let refused : new_connection_manager config ≡ err e = rw (new_connection_manager, bad) refl in
      grind arith
]

-- After any calls of a new manager, one after another and whatever they are answered, no user has more
-- pools than the limit.
pub run-limited :
    (config : ConnectionManagerConfig) (cm : ConnectionManager) (calls : List Call)
    → new_connection_manager config ≡ ok cm
    → Inv (run calls cm)
run-limited config cm calls made = run-Inv calls cm (new_connection_manager-Inv config cm made)

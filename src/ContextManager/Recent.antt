-- ===== src/ContextManager/Recent.antt =====
-- internal/ai/context_manager.go: what `GetRecentHistory` answers after any calls of `AddQueryHistory`.
use chat2sql.Prelude.{
  ℕ, zero, suc, ◌-◌, ◌≤◌, ◌≡◌, refl, ap, subst, sym, ◌∙◌, Bool, true, false, Option, none, some,
  List, [], ◌∷◌, ◌++◌, if◌then◌else◌, ltb, length, take, drop, length-append, length-drop, reverse,
  newest, newest-drop, newest-newest, append_nil, append_assoc, Unicode, ◌==◌, ==_iff, number_key,
  lookup, insert, lookup-insert, value_or, if_holds, Bool-cases, inl, inr, arith,
}
use chat2sql.ContextManager.History.{
  new_history, push, add_record, update_user_context, add_query_history, recent_from,
  get_recent_history,
}
use chat2sql.ContextManager.State.{
  ContextManager, ContextConfig, QueryHistory, UserQueryHistory, new_context_manager,
}

-- A call of `AddQueryHistory`.
pub record Added : Type 0 where
  pub user_id : ℕ
  pub entry : QueryHistory

abbrev pub add_one : Unicode → Added → ContextManager → ContextManager
add_one u a cm =
    add_query_history u cm a.entry.timestamp a.user_id a.entry.query a.entry.sql a.entry.success

abbrev pub add_all : Unicode → List Added → ContextManager → ContextManager
add_all u [] cm = cm
add_all u (a ∷ adds) cm = add_all u adds (add_one u a cm)

-- The queries of one user, in their order.
abbrev pub queries_for : ℕ → List Added → List QueryHistory
queries_for user_id [] = []
queries_for user_id (a ∷ adds) =
    let rest = queries_for user_id adds in if user_id == a.user_id then a.entry ∷ rest else rest

-- The queries that succeeded.
abbrev pub successes : List QueryHistory → List QueryHistory
successes [] = []
successes (q ∷ qs) = let rest = successes qs in if q.success then q ∷ rest else rest

abbrev queries_of : ContextManager → ℕ → List QueryHistory
queries_of cm user_id = (value_or (new_history 0) (lookup user_id cm.history_buffer)).queries

module _ {A : Type 0} where
  take-all : (n : ℕ) (xs : List A) → length xs ≤ n → take n xs ≡ xs
  take-all zero [] h = refl
  take-all zero (x ∷ xs) h = absurd (omega arith)
  take-all (suc n) [] h = refl
  take-all (suc n) (x ∷ xs) h = ap (λ ys. x ∷ ys) (take-all n xs (omega arith))

  length-newest-le : (n : ℕ) (xs : List A) → length (newest n xs) ≤ n
  length-newest-le n xs =
      subst (λ ys. length ys ≤ n) (sym (newest-drop n xs))
        (omega (arith, length-drop (length xs - n) xs))

-- A history that is not over its limit keeps the newest.
push-newest :
    (max : ℕ) (q : QueryHistory) (qs : List QueryHistory)
    → length qs ≤ max
    → push max q qs ≡ newest max (qs ++ q ∷ [])
unfolding push
push-newest max q qs h = elim (Bool-cases (ltb max (length (qs ++ q ∷ [])))) [
  | inl over ↦
      let one : 1 ≡ length (qs ++ q ∷ []) - max = ground (arith, length-append qs (q ∷ [])) in
      rw over (
        take-all max (drop 1 (qs ++ q ∷ []))
          (omega (arith, length-drop 1 (qs ++ q ∷ []), length-append qs (q ∷ [])))
        ∙ ap (λ k. drop k (qs ++ q ∷ [])) one
        ∙ sym (newest-drop max (qs ++ q ∷ [])))
  | inr room ↦
      let none_over : 0 ≡ length (qs ++ q ∷ []) - max = ground arith in
      rw room (ap (λ k. drop k (qs ++ q ∷ [])) none_over ∙ sym (newest-drop max (qs ++ q ∷ [])))
]

recent_from-take : (n : ℕ) (qs : List QueryHistory) → recent_from n qs ≡ take n (successes qs)
unfolding recent_from
recent_from-take zero qs = refl
recent_from-take (suc n) [] = refl
recent_from-take (suc n) (q ∷ qs) =
    found q.success (recent_from-take n qs) (recent_from-take (suc n) qs)
  where
    found :
        (b : Bool)
        → recent_from n qs ≡ take n (successes qs)
        → recent_from (suc n) qs ≡ take (suc n) (successes qs)
        → (elim b [ true ↦ q ∷ recent_from n qs | false ↦ recent_from (suc n) qs ])
          ≡ take (suc n) (if b then q ∷ successes qs else successes qs)
    found true fewer same = ap (λ rs. q ∷ rs) fewer
    found false fewer same = same

queries_of-add_one :
    (u : Unicode) (a : Added) (cm : ContextManager) (user_id : ℕ)
    → queries_of (add_one u a cm) user_id ≡ (
        if user_id == a.user_id
        then push cm.config.max_history_size a.entry (queries_of cm user_id)
        else queries_of cm user_id)
unfolding add_query_history update_user_context add_record new_history
queries_of-add_one u a cm user_id =
    if_holds (λ c. queries_of c user_id ≡ pushed) a.entry.success added added
  where
    pushed : List QueryHistory
    pushed =
        if user_id == a.user_id
        then push cm.config.max_history_size a.entry (queries_of cm user_id)
        else queries_of cm user_id

    known :
        (now : ℕ) (o : Option UserQueryHistory)
        → (value_or (new_history now) o).queries ≡ (value_or (new_history 0) o).queries
    known now none = refl
    known now (some h) = refl

    split :
        (b : Bool)
        → (user_id == a.user_id) ≡ b
        → (value_or (new_history 0) (
            if b
            then some (
                add_record cm.config.max_history_size a.entry
                  (value_or (new_history a.entry.timestamp) (lookup a.user_id cm.history_buffer)))
            else lookup user_id cm.history_buffer)).queries
          ≡ (if b
              then push cm.config.max_history_size a.entry (queries_of cm user_id)
              else queries_of cm user_id)
    split true same = ap (push cm.config.max_history_size a.entry) (
        known a.entry.timestamp (lookup a.user_id cm.history_buffer)
        ∙ ap (queries_of cm) (sym ((==_iff user_id a.user_id).0 same)))
    split false other = refl

    added :
        (value_or (new_history 0) (
          lookup user_id (
            insert a.user_id
              (add_record cm.config.max_history_size a.entry
                (value_or (new_history a.entry.timestamp) (lookup a.user_id cm.history_buffer)))
              cm.history_buffer))).queries
        ≡ pushed
    added =
        ap (λ o. (value_or (new_history 0) o).queries)
          (lookup-insert a.user_id user_id _ cm.history_buffer)
        ∙ split (user_id == a.user_id) refl

add_one-config :
    (u : Unicode) (a : Added) (cm : ContextManager) → (add_one u a cm).config ≡ cm.config
unfolding add_query_history update_user_context
add_one-config u a cm =
    if_holds (λ (c : ContextManager). c.config ≡ cm.config) a.entry.success refl refl

queries_of-add_all :
    (u : Unicode) (adds : List Added) (cm : ContextManager) (max user_id : ℕ)
    (before : List QueryHistory)
    → cm.config.max_history_size ≡ max
    → queries_of cm user_id ≡ newest max before
    → queries_of (add_all u adds cm) user_id ≡ newest max (before ++ queries_for user_id adds)
queries_of-add_all u [] cm max user_id before limit h =
    h ∙ ap (newest max) (sym (append_nil before))
queries_of-add_all u (a ∷ adds) cm max user_id before limit h =
    let limited = ap (λ c. c.max_history_size) (add_one-config u a cm) ∙ limit in
    let one = queries_of-add_one u a cm user_id in
    elim (Bool-cases (user_id == a.user_id)) [
      | inl hit ↦
          let kept : queries_of (add_one u a cm) user_id ≡ newest max (before ++ a.entry ∷ []) =
            one
            ∙ rw hit (
                ap (λ m. push m a.entry (queries_of cm user_id)) limit
                ∙ ap (push max a.entry) h
                ∙ push-newest max a.entry (newest max before) (length-newest-le max before)
                ∙ newest-newest max before a.entry) in
          queries_of-add_all u adds (add_one u a cm) max user_id (before ++ a.entry ∷ []) limited
            kept
          ∙ rw hit (ap (newest max) (append_assoc before a.entry (queries_for user_id adds)))
      | inr miss ↦
          let kept : queries_of (add_one u a cm) user_id ≡ newest max before = one ∙ rw miss h in
          queries_of-add_all u adds (add_one u a cm) max user_id before limited kept ∙ rw miss refl
    ]

answers-of :
    (cm : ContextManager) (now user_id limit : ℕ)
    → (get_recent_history cm now user_id limit).0
      ≡ recent_from limit (reverse (queries_of cm user_id))
unfolding get_recent_history new_history recent_from
answers-of cm now user_id limit = answer (lookup user_id cm.history_buffer) limit
  where
    answer :
        (o : Option UserQueryHistory) (n : ℕ)
        → let read : List QueryHistory × ContextManager = elim o [
          | none ↦ ([], cm)
          | some h ↦ (
            recent_from n (reverse h.queries),
            record cm {
              history_buffer = insert user_id (record h { last_access = now }) cm.history_buffer;
            },
          )
        ] in
          read.0 ≡ recent_from n (reverse (value_or (new_history 0) o).queries)
    answer none zero = refl
    answer none (suc n) = refl
    answer (some h) n = refl

-- After any queries of any users, the recent history of a user is, up to the limit asked for and from the
-- last to the first, what succeeded among the newest queries of that user that the size of a history admits.
pub get_recent_history-add_all :
    (u : Unicode) (config : ContextConfig) (adds : List Added) (now user_id limit : ℕ)
    → (get_recent_history (add_all u adds (new_context_manager (some config))) now user_id limit).0
      ≡ take limit (successes (reverse (newest config.max_history_size (queries_for user_id adds))))
unfolding new_context_manager newest lookup new_history
get_recent_history-add_all u config adds now user_id limit =
    let cm = add_all u adds (new_context_manager (some config)) in
    answers-of cm now user_id limit
    ∙ recent_from-take limit (reverse (queries_of cm user_id))
    ∙ ap (λ qs. take limit (successes (reverse qs)))
        (queries_of-add_all u adds (new_context_manager (some config)) config.max_history_size
          user_id [] refl (empty config.max_history_size))
  where
    empty : (n : ℕ) → ◌≡◌ {A = List QueryHistory} [] (newest n [])
    empty n = let short : ltb n 0 ≡ false = ground arith in rw short refl

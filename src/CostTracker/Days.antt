-- ===== src/CostTracker/Days.antt =====
-- internal/ai/cost_tracker.go, `RecordQueryCost`: the sums of a day against the list of its queries.
use chat2sql.Prelude.{
  ℕ, ◌+◌, ◌≡◌, refl, ap, ◌∙◌, sym, Bool, true, false, Option, none, some, List, [], ◌∷◌, Bytes,
  lookup, insert, value_or, number_key, text_key, if◌then◌else◌, length, arith, lookup-insert,
  same_bytes, same_bytes_iff, Dict, Option-cases, Bool-cases, inl, inr,
}
use chat2sql.CostTracker.State.{
  Floats, Clock, QueryCost, DailyUsage, CostTracker, CostConfig, ModelCost, new_cost_tracker,
}
use chat2sql.CostTracker.Usage.{update_daily_usage, new_daily, add_daily}
use chat2sql.CostTracker.Budget.{check_budget_limits, add_alert, record_usage, record_query_cost}
use chat2sql.CostTracker.Alerts.{used-daily}

-- A call of `RecordQueryCost`.
pub record Entry (F : Floats) : Type 0 where
  pub now : ℕ
  pub user : ℕ
  pub cost : QueryCost F

module _ (F : Floats) (k : Clock) where
  unfoldable pub record_all : CostTracker F → List (Entry F) → CostTracker F
  record_all ct [] = ct
  record_all ct (e ∷ es) = record_all (record_query_cost F k e.now e.user e.cost ct) es

  -- The queries of one day.
  abbrev pub costs_on : Bytes → List (Entry F) → List (QueryCost F)
  costs_on d [] = []
  costs_on d (e ∷ es) =
      let rest = costs_on d es in if same_bytes d (k.date e.now) then e.cost ∷ rest else rest

  -- The costs added to an amount, in order.
  abbrev pub spent : F.Float → List (QueryCost F) → F.Float
  spent t [] = t
  spent t (c ∷ cs) = spent (F.add t c.cost) cs

  abbrev pub tokens : List (QueryCost F) → ℕ
  tokens [] = 0
  tokens (c ∷ cs) = c.total_tokens + tokens cs

  -- What is on record for a day.
  abbrev pub day : Bytes → CostTracker F → DailyUsage F
  day d ct = value_or (new_daily F d 0) (lookup d ct.daily_usage)

  -- The sums of a day.
  record Sums : Type 0 where
    cost : F.Float
    tokens : ℕ
    queries : ℕ

  abbrev sums : DailyUsage F → Sums
  sums u = record { cost = u.total_cost; tokens = u.total_tokens; queries = u.query_count }

  abbrev plus : Sums → List (QueryCost F) → Sums
  plus s cs = record {
    cost = spent s.cost cs;
    tokens = s.tokens + tokens cs;
    queries = s.queries + length cs;
  }

  record_query_cost-daily :
      (now user : ℕ) (c : QueryCost F) (ct : CostTracker F)
      → (record_query_cost F k now user c ct).daily_usage
        ≡ (update_daily_usage F (k.date now) now c ct).daily_usage
  unfolding record_query_cost add_alert
  record_query_cost-daily now user c ct =
      elim (Option-cases
        (check_budget_limits F k now user c.cost (record_usage F k now user c ct))) [
          | inl e ↦ rw (e, record_query_cost) (used-daily F k now user c ct)
          | inr (x, e) ↦ rw (e, record_query_cost) (used-daily F k now user c ct)
        ]

  plus-nil : (s : Sums) → plus s [] ≡ s
  plus-nil s = ground arith

  plus-cons :
      (s : Sums) (c : QueryCost F) (cs : List (QueryCost F))
      → plus (plus s (c ∷ [])) cs ≡ plus s (c ∷ cs)
  plus-cons s c cs = ground arith

  sums-add_daily :
      (now : ℕ) (c : QueryCost F) (u : DailyUsage F)
      → sums (add_daily F now c u) ≡ plus (sums u) (c ∷ [])
  unfolding add_daily
  sums-add_daily now c u = ground arith

  sums-new :
      (d d' : Bytes) (t t' : ℕ) (o : Option (DailyUsage F))
      → sums (value_or (new_daily F d t) o) ≡ sums (value_or (new_daily F d' t') o)
  sums-new d d' t t' none = refl
  sums-new d d' t t' (some u) = refl

  -- One call, on its own day and on the others.
  sums-update :
      (d today : Bytes) (now : ℕ) (c : QueryCost F) (ct : CostTracker F)
      → sums (day d (update_daily_usage F today now c ct))
        ≡ plus (sums (day d ct)) (if same_bytes d today then c ∷ [] else [])
  unfolding update_daily_usage
  sums-update d today now c ct =
      let m = ct.daily_usage in
      let u = value_or (new_daily F today now) (lookup today m) in
      let w = add_daily F now c u in
      let found = lookup-insert today d w m in
      elim (Bool-cases (same_bytes d today)) [
        | inl e ↦
            let same = (same_bytes_iff d today).0 e in
            let hit : lookup d (insert today w m) ≡ some w = found ∙ rw e refl in
            ap (λ o. sums (value_or (new_daily F d 0) o)) hit
            ∙ (sums-add_daily now c u
                ∙ (ap (λ s. plus s (c ∷ []))
                      (sums-new today d now 0 (lookup today m)
                        ∙ ap (λ b. sums (value_or (new_daily F d 0) (lookup b m))) (sym same))
                    ∙ rw e refl))
        | inr e ↦
            let miss : lookup d (insert today w m) ≡ lookup d m = found ∙ rw e refl in
            ap (λ o. sums (value_or (new_daily F d 0) o)) miss
            ∙ (sym (plus-nil (sums (day d ct))) ∙ rw e refl)
      ]

  sums-step :
      (d : Bytes) (e : Entry F) (ct : CostTracker F)
      → sums (day d (record_query_cost F k e.now e.user e.cost ct))
        ≡ plus (sums (day d ct)) (if same_bytes d (k.date e.now) then e.cost ∷ [] else [])
  sums-step d e ct =
      ap (λ m. sums (value_or (new_daily F d 0) (lookup d m)))
        (record_query_cost-daily e.now e.user e.cost ct)
      ∙ sums-update d (k.date e.now) e.now e.cost ct

  plus-if :
      (b : Bool) (s : Sums) (c : QueryCost F) (cs : List (QueryCost F))
      → plus (plus s (if b then c ∷ [] else [])) cs ≡ plus s (if b then c ∷ cs else cs)
  plus-if true s c cs = plus-cons s c cs
  plus-if false s c cs = ap (λ t. plus t cs) (plus-nil s)

  sums-record_all :
      (d : Bytes) (es : List (Entry F)) (ct : CostTracker F)
      → sums (day d (record_all ct es)) ≡ plus (sums (day d ct)) (costs_on d es)
  unfolding record_all
  sums-record_all d [] ct = sym (plus-nil (sums (day d ct)))
  sums-record_all d (e ∷ es) ct =
      sums-record_all d es (record_query_cost F k e.now e.user e.cost ct)
      ∙ (ap (λ s. plus s (costs_on d es)) (sums-step d e ct)
          ∙ plus-if (same_bytes d (k.date e.now)) (sums (day d ct)) e.cost (costs_on d es))

-- After any sequence of recorded queries on a new tracker, the sums on record for a day are those of
-- the queries recorded on it: the costs added in order, the tokens and the number.
pub record_all-day :
    (F : Floats) (k : Clock) (table : Dict Bytes (ModelCost F)) (c : CostConfig F)
    (es : List (Entry F)) (d : Bytes)
    → let u = day F k d (record_all F k (new_cost_tracker table c) es) in
      (u.total_cost ≡ spent F k F.zero (costs_on F k d es))
      × (u.total_tokens ≡ tokens F k (costs_on F k d es))
      × (u.query_count ≡ length (costs_on F k d es))
unfolding lookup
record_all-day F k table c es d =
    let e = sums-record_all F k d es (new_cost_tracker table c) in
    (
      ap (λ (s : Sums F k). s.cost) e,
      ap (λ (s : Sums F k). s.tokens) e ∙ omega arith,
      ap (λ (s : Sums F k). s.queries) e ∙ omega arith,
    )

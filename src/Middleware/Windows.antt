-- ===== src/Middleware/Windows.antt =====
-- internal/middleware/middleware.go: what the metrics hold after any requests, one after another.
use chat2sql.Prelude.{
  newest, newest-newest, append_nil, append_assoc, ℕ, suc, ◌+◌, ◌≡◌, refl, ap, sym, ◌∙◌, List, [],
  ◌∷◌, ◌++◌, Bytes, same_bytes, same_bytes_iff, lookup, lookup-insert, text_key, value_or,
  if◌then◌else◌, Bool-cases, inl, inr, arith,
}
use chat2sql.Middleware.Metrics.{
  RequestMetrics, Served, duration_key, total_key, record_total, record_duration, record_request,
  record_all, no_metrics, window,
}

-- The durations of the requests under a key, and how many there are under a total key.
abbrev pub durations_for : Bytes → List Served → List ℕ
durations_for key [] = []
durations_for key (r ∷ rs) =
    let rest = durations_for key rs in
    if same_bytes key (duration_key r) then r.duration ∷ rest else rest

abbrev pub total_for : Bytes → List Served → ℕ
total_for key [] = 0
total_for key (r ∷ rs) =
    let rest = total_for key rs in if same_bytes key (total_key r) then suc rest else rest

abbrev pub durations_of : RequestMetrics → Bytes → List ℕ
durations_of m key = value_or [] (lookup key m.request_duration)

abbrev pub total_of : RequestMetrics → Bytes → ℕ
total_of m key = value_or 0 (lookup key m.request_total)

record_duration-durations_of :
    (n : ℕ) (r : Served) (m : RequestMetrics) (key : Bytes)
    → durations_of (record_duration n r m) key ≡ (
        if same_bytes key (duration_key r)
        then newest n (durations_of m key ++ r.duration ∷ [])
        else durations_of m key)
unfolding record_duration
record_duration-durations_of n r m key =
    ap (value_or []) (lookup-insert (duration_key r) key _ m.request_duration)
    ∙ elim (Bool-cases (same_bytes key (duration_key r))) [
      | inl hit ↦ rw hit (
          ap (λ k. newest n (durations_of m k ++ r.duration ∷ []))
            (sym ((same_bytes_iff key (duration_key r)).0 hit)))
      | inr miss ↦ rw miss refl
    ]

record_total-total_of :
    (r : Served) (m : RequestMetrics) (key : Bytes)
    → total_of (record_total r m) key
      ≡ (if same_bytes key (total_key r) then suc (total_of m key) else total_of m key)
unfolding record_total
record_total-total_of r m key =
    ap (value_or 0) (lookup-insert (total_key r) key _ m.request_total)
    ∙ elim (Bool-cases (same_bytes key (total_key r))) [
      | inl hit ↦
          rw hit (ap (λ k. suc (total_of m k)) (sym ((same_bytes_iff key (total_key r)).0 hit)))
      | inr miss ↦ rw miss refl
    ]

record_all-durations :
    (rs : List Served) (m : RequestMetrics) (key : Bytes) (before : List ℕ)
    → durations_of m key ≡ newest window before
    → durations_of (record_all rs m) key ≡ newest window (before ++ durations_for key rs)
unfolding record_total
record_all-durations [] m key before h = h ∙ ap (newest window) (sym (append_nil before))
record_all-durations (r ∷ rs) m key before h =
    let one = record_duration-durations_of window r (record_total r m) key in
    elim (Bool-cases (same_bytes key (duration_key r))) [
      | inl hit ↦
          let kept : durations_of (record_request r m) key
              ≡ newest window (before ++ r.duration ∷ []) =
            one
            ∙ rw hit (
                ap (λ ds. newest window (ds ++ r.duration ∷ [])) h
                ∙ newest-newest window before r.duration) in
          record_all-durations rs (record_request r m) key (before ++ r.duration ∷ []) kept
          ∙ rw hit (ap (newest window) (append_assoc before r.duration (durations_for key rs)))
      | inr miss ↦
          let kept : durations_of (record_request r m) key ≡ newest window before =
            one ∙ rw miss h in
          record_all-durations rs (record_request r m) key before kept ∙ rw miss refl
    ]

record_all-total :
    (rs : List Served) (m : RequestMetrics) (key : Bytes)
    → total_of (record_all rs m) key ≡ total_of m key + total_for key rs
unfolding record_duration
record_all-total [] m key = omega arith
record_all-total (r ∷ rs) m key =
    let one = record_total-total_of r m key in
    let rest = record_all-total rs (record_request r m) key in
    elim (Bool-cases (same_bytes key (total_key r))) [
      | inl hit ↦
          let counted : total_of (record_request r m) key ≡ suc (total_of m key) =
            one ∙ rw hit refl in
          rest ∙ ap (λ k. k + total_for key rs) counted ∙ rw hit (omega arith)
      | inr miss ↦
          let kept : total_of (record_request r m) key ≡ total_of m key = one ∙ rw miss refl in
          rest ∙ ap (λ k. k + total_for key rs) kept ∙ rw miss refl
    ]

-- After any requests, one after another, the total of a key is the number of its requests, and its durations
-- are the newest thousand of them, in their order.
pub record_all-refines :
    (rs : List Served) (key : Bytes)
    → (total_of (record_all rs no_metrics) key ≡ total_for key rs)
      × (durations_of (record_all rs no_metrics) key ≡ newest window (durations_for key rs))
unfolding lookup newest
record_all-refines rs key = (
  record_all-total rs no_metrics key ∙ omega arith,
  record_all-durations rs no_metrics key [] refl,
)

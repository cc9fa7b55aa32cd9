-- ===== src/Lifecycle/Fallback.antt =====
-- The event that recovers a commit repeats its key and its amount.
use cycles_client_python.Json.Laws.{get-set}
use cycles_client_python.Prelude.{
  ◌≡◌, refl, ℤ, String, false, Option, none, some, Bool-cases, inl, inr, str_eq, ap, ◌∙◌,
}
use cycles_client_python.Json.{Json, str, Fields, get, is_empty}
use cycles_client_python.Models.{CyclesMetrics, is_unset}
use cycles_client_python.Lifecycle.Bodies.{
  amount, key_or, build_commit_body, build_event_fallback_body, copy_metrics, with_metrics,
  with_metadata, json_or_null, event_base,
}

module _ (key : String) (not_metrics : str_eq "metrics" key ≡ false)
    (not_metadata : str_eq "metadata" key ≡ false) where
  get-copy_metrics : (m : Option Json) (d : Fields) → get key (copy_metrics m d) ≡ get key d
  unfolding copy_metrics
  get-copy_metrics none d = refl
  get-copy_metrics (some m) d = rw (get-set "metrics" key m d, not_metrics)

  get-with_metrics :
      (m : Option CyclesMetrics) (d : Fields) → get key (with_metrics m d) ≡ get key d
  unfolding with_metrics
  get-with_metrics none d = refl
  get-with_metrics (some m) d = elim (Bool-cases (is_unset m)) [
    | inl e ↦ rw e
    | inr e ↦ rw (e, get-set "metrics" key _ d, not_metrics)
  ]

  get-with_metadata : (m : Option Fields) (d : Fields) → get key (with_metadata m d) ≡ get key d
  unfolding with_metadata
  get-with_metadata none d = refl
  get-with_metadata (some m) d = elim (Bool-cases (is_empty m)) [
    | inl e ↦ rw e
    | inr e ↦ rw (e, get-set "metadata" key _ d, not_metadata)
  ]

-- For every reservation id and all metrics and metadata, the event that recovers a commit has the
-- commit's idempotency key and the commit's amount.
pub fallback_same_key :
    (id : String) (subject action : Json) (actual : ℤ) (unit fresh : String)
    (metrics : Option CyclesMetrics) (metadata : Option Fields) (key : Option String)
    → let c = build_commit_body actual unit metrics metadata key fresh in
      let e = build_event_fallback_body id subject action c in
      (get "idempotency_key" e ≡ some (str (key_or key fresh)))
      × (get "idempotency_key" c ≡ some (str (key_or key fresh)))
      × (get "actual" e ≡ some (amount unit actual))
      × (get "actual" c ≡ some (amount unit actual))
unfolding build_commit_body build_event_fallback_body
fallback_same_key id subject action actual unit fresh metrics metadata key =
    let c = build_commit_body actual unit metrics metadata key fresh in
    let base = event_base id subject action c in
    let keyed : get "idempotency_key" c ≡ some (str (key_or key fresh)) =
      get-with_metadata "idempotency_key" refl refl metadata _
      ∙ get-with_metrics "idempotency_key" refl refl metrics _ in
    let priced : get "actual" c ≡ some (amount unit actual) =
      get-with_metadata "actual" refl refl metadata _
      ∙ get-with_metrics "actual" refl refl metrics _ in
    let copied = get-copy_metrics "idempotency_key" refl refl (get "metrics" c) base in
    let copied' = get-copy_metrics "actual" refl refl (get "metrics" c) base in
    (
      copied ∙ ap some (ap json_or_null keyed),
      keyed,
      copied' ∙ ap some (ap json_or_null priced),
      priced,
    )

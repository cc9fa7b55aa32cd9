-- ===== src/Streaming/Declared.antt =====
-- The requests that a stream sends are valid by the limits that runcycles/models.py declares.
use Prim.Native.String.{◌++◌}
use Prim.Native.String.append
use cycles_client_python.Prelude.{
  ◌≡◌, refl, ℕ, ◌+◌, ◌≤◌, String, true, Option, none, some, arith, inl, inr, length, leb,
  Bool-cases, ok, if◌then◌else◌, str_eq,
}
use cycles_client_python.Prelude.Text.{codes}
use cycles_client_python.Json.{Json, str, obj, Fields, end, get, has_key}
use cycles_client_python.Models.{CyclesMetrics}
use cycles_client_python.Models.Requests.{
  text_within, one_of, is_model, is_valid, unit_texts, subject_rules, action_rules, commit_rules,
  release_rules, event_rules, create_rules, policy_texts, accepts_all, accepts_entry, has_required,
  or_null, is_int,
}
use cycles_client_python.Response.RetryAfter.{int64_max}
use cycles_client_python.Validation.{
  validate_non_negative, subject_fits, validate_subject, validate_ttl_ms, validate_grace_period_ms,
}
use cycles_client_python.Lifecycle.Bodies.{key_or, mark_estimate, build_release_body}
use cycles_client_python.Lifecycle.Declared.{
  metrics_fit, amount-IsValid, build_commit_body-IsValid, build_release_body-IsValid,
  build_event_fallback_body-IsValid,
}
use cycles_client_python.Lifecycle.Declared.Reservation.{put_grace-IsAccepted, dump_subject-IsValid}
use cycles_client_python.Streaming.Usage.{
  StreamUsage, derived_stream_key, valid_or_estimate, resolve_actual_cost, build_stream_metrics,
}
use cycles_client_python.Streaming.Enter.{
  StreamRequest, stream_key_ok, stream_fields, build_streaming_reservation_body,
}
use cycles_client_python.Streaming.Exit.{
  StreamReservation, stream_commit_body, stream_event_body, stream_metrics,
}

length-append : (s t : String) → length (codes (s ++ t)) ≡ length (codes s) + length (codes t)
length-append String.[] t = rw (append.nil t) (omega arith)
length-append (String.◌∷◌ c s) t = rw (append.cons c s t) (omega (arith, length-append s t))

text_within_lem :
    (k : String) → 1 ≤ length (codes k) → length (codes k) ≤ 256 → text_within 1 256 (str k) ≡ true
unfolding text_within
text_within_lem k low high = ground arith

-- A key that the caller gave is made into one of 1 to 256 characters, when the digest has 64.
derived_IsKey :
    (sha256 : String → String) (prefix key : String)
    → length (codes (sha256 key)) ≡ 64
    → length (codes prefix) ≤ 100
    → (k : String) × (derived_stream_key sha256 prefix (some key) ≡ some k)
      × (text_within 1 256 (str k) ≡ true)
unfolding derived_stream_key
derived_IsKey sha256 prefix key digest short =
    let short_key = (prefix ++ "-") ++ key in
    let long_key = (prefix ++ "-sha256-") ++ sha256 key in
    let a = length-append (prefix ++ "-") key in
    let b = length-append prefix "-" in
    let c = length-append (prefix ++ "-sha256-") (sha256 key) in
    let d = length-append prefix "-sha256-" in
    elim (Bool-cases (leb (length (codes short_key)) 256)) [
      | inl fits ↦
          (short_key, rw fits refl, text_within_lem short_key (omega (arith, a, b)) (ground arith))
      | inr long ↦ (
        long_key,
        rw long refl,
        text_within_lem long_key (omega (arith, c, d, digest)) (omega (arith, c, d, digest, short)),
      )
    ]

-- The key that an operation sends: its own, or the one that `uuid4` makes.
key_or-IsKey :
    (sha256 : String → String) (prefix fresh : String) (key : Option String)
    → ((k : String) → length (codes (sha256 k)) ≡ 64)
    → length (codes prefix) ≤ 100
    → text_within 1 256 (str fresh) ≡ true
    → text_within 1 256 (str (key_or (derived_stream_key sha256 prefix key) fresh)) ≡ true
unfolding derived_stream_key key_or
key_or-IsKey sha256 prefix fresh none digest short made = made
key_or-IsKey sha256 prefix fresh (some key) digest short made =
    let (k, is, good) = derived_IsKey sha256 prefix key (digest key) short in
    elim (Bool-cases (str_eq k "")) [
      | inl empty ↦ rw (is, key_or, empty) made
      | inr full ↦ rw (is, key_or, full) good
    ]

resolved-le :
    (usage : StreamUsage) (f : Option (StreamUsage → Option Json)) (estimate : ℕ)
    → estimate ≤ int64_max
    → (resolve_actual_cost usage f estimate).0 ≤ int64_max
unfolding resolve_actual_cost valid_or_estimate validate_non_negative
resolved-le usage f estimate le = ground arith

metrics-fit :
    (sha256 : String → String) (r : StreamReservation) (m : CyclesMetrics)
    → metrics_fit r.ctx_metrics ≡ true
    → stream_metrics sha256 r ≡ ok m
    → metrics_fit (some m) ≡ true
unfolding stream_metrics build_stream_metrics
metrics-fit sha256 r m fits built = ground (arith, built)

-- A stream of a known unit and a 64-bit estimate, whose context metrics, if the caller set any, have a
-- model version of at most 128 characters, sends valid requests only, when a digest has 64 characters
-- and a made key has 1 to 256: the commit, the release, and, for a valid subject and action, the
-- event that recovers the commit. Any key of the caller will do, of any length.
pub stream_requests-IsValid :
    (sha256 : String → String) (r : StreamReservation) (m : CyclesMetrics) (fresh : String)
    → ((k : String) → length (codes (sha256 k)) ≡ 64)
    → text_within 1 256 (str fresh) ≡ true
    → one_of unit_texts (str r.unit) ≡ true
    → r.estimate ≤ int64_max
    → metrics_fit r.ctx_metrics ≡ true
    → is_model subject_rules (obj r.subject) ≡ true
    → is_model action_rules (obj r.action) ≡ true
    → stream_metrics sha256 r ≡ ok m
    → let c = stream_commit_body sha256 r m fresh in
      let key = derived_stream_key sha256 "release" r.idempotency_key in
      (is_valid commit_rules c ≡ true)
      × (is_valid release_rules (build_release_body "stream_failed" key fresh) ≡ true)
      × (is_valid event_rules (stream_event_body sha256 r c) ≡ true)
unfolding stream_commit_body stream_event_body text_within
stream_requests-IsValid sha256 r m fresh digest made known le fits who what built =
    let keyed = key_or-IsKey sha256 "commit" fresh r.idempotency_key digest (omega arith) made in
    let freed = key_or-IsKey sha256 "release" fresh r.idempotency_key digest (omega arith) made in
    let (actual, assumed) = resolve_actual_cost r.usage r.cost_fn r.estimate in
    let commit =
      build_commit_body-IsValid actual r.unit (some m)
        (if assumed then mark_estimate r.metadata else r.metadata)
        (derived_stream_key sha256 "commit" r.idempotency_key) fresh known
        (resolved-le r.usage r.cost_fn r.estimate le) (metrics-fit sha256 r m fits built) keyed in
    (
      commit,
      build_release_body-IsValid "stream_failed" _ fresh refl freed,
      build_event_fallback_body-IsValid r.reservation_id (obj r.subject) (obj r.action) _ commit who
          what,
    )

stream_built :
    (r : StreamRequest) (fresh : String) (body : Fields)
    → build_streaming_reservation_body r fresh ≡ ok body
    → (body ≡ stream_fields r fresh) × (stream_key_ok r.idempotency_key ≡ true)
unfolding build_streaming_reservation_body validate_subject validate_ttl_ms validate_grace_period_ms
stream_built r fresh body built = ground (arith, built)

stream_key :
    (key : Option String) (fresh : String)
    → stream_key_ok key ≡ true
    → text_within 1 256 (str fresh) ≡ true
    → text_within 1 256 (str (key_or key fresh)) ≡ true
unfolding stream_key_ok key_or text_within
stream_key key fresh checked made = ground (arith, checked, made)

-- The entry of a stream: its body is built only from values that passed their checks, and then, with a
-- subject that fits its declared lengths, a 64-bit estimate, a known unit and policy, a valid action
-- and a made key of 1 to 256 characters, it is a valid request.
pub build_streaming_reservation_body-IsValid :
    (r : StreamRequest) (fresh : String) (body : Fields)
    → build_streaming_reservation_body r fresh ≡ ok body
    → text_within 1 256 (str fresh) ≡ true
    → subject_fits r.subject ≡ true
    → r.estimate ≤ int64_max
    → one_of unit_texts (str r.unit) ≡ true
    → one_of policy_texts (str r.overage_policy) ≡ true
    → is_model action_rules (obj r.action) ≡ true
    → is_valid create_rules body ≡ true
unfolding is_valid accepts_all accepts_entry has_required create_rules or_null is_int has_key get
    stream_fields
build_streaming_reservation_body-IsValid r fresh body built made fits le known policy what =
    let (is, checked) = stream_built r fresh body built in
    let who = dump_subject-IsValid r.subject fits in
    let much = amount-IsValid r.unit r.estimate known le in
    let rest = put_grace-IsAccepted r.grace_period_ms end refl in
    let keyed = stream_key r.idempotency_key fresh checked made in
    rw (is, keyed, who, what, much, policy, rest) refl

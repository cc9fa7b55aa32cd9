-- ===== src/Tests/Requesting.antt =====
-- Requests within their declared limits, and a configuration from the environment.
use cycles_client_python.Prelude.{
  ◌≡◌, refl, ℤ, pos, String, true, false, none, some, List, [], ◌∷◌, ◌++◌, All, ok, err, str_eq,
  Result, arith, if◌then◌else◌,
}
use cycles_client_python.Json.{Fields, str, field, end}
use cycles_client_python.Models.{allow}
use cycles_client_python.Models.Requests.{
  text_within, one_of, is_model, is_valid, unit_texts, subject_rules, action_rules, commit_rules,
  release_rules, event_rules, extend_rules,
}
use cycles_client_python.Exchange.{Request, extend_reservation}
use cycles_client_python.Retry.Awaiting.{resumes, cancelled_sent}
use cycles_client_python.Response.{Raised, value_error}
use cycles_client_python.Config.{CyclesConfig, Environ, from_env}
use cycles_client_python.Heartbeat.Span.{fin, reliable}
use cycles_client_python.Heartbeat.Async.{Pulse, Start, heartbeat, async_heartbeat}
use cycles_client_python.Heartbeat.Async.Cancelled.{calm_pulse, async_heartbeat-follows}
use cycles_client_python.Heartbeat.Scheduler.{new_scheduler, observe_rtt}
use cycles_client_python.Heartbeat.Heart.{Heart, Beat, start_heart}
use cycles_client_python.Lifecycle.Bodies.{build_release_body}
use cycles_client_python.Streaming.Usage.{derived_stream_key, build_stream_metrics}
use cycles_client_python.Streaming.Enter.{Entered}
use cycles_client_python.Streaming.Exit.{
  StreamReservation, stream_commit_body, stream_event_body, stream_metrics,
}
use cycles_client_python.Streaming.Declared.{stream_requests-IsValid}
use cycles_client_python.Streaming.Heartbeat.{
  stream_start_heartbeat, stream_heartbeat, stream_heartbeat_sends,
}
use cycles_client_python.Tests.Fixtures.{schemas}
use cycles_client_python.Tests.Calling.{subject, stream, stream_m}

-- Any digest of 64 characters
abbrev hex : String → String
hex s = "0123456789abcdef0123456789abcdef0123456789abcdef0123456789abcdef"

abbrev action : Fields
action = field "kind" (str "llm") (field "name" (str "chat") end)

abbrev told : StreamReservation
told = record stream { subject = field "tenant" (str "acme") end; action = action }

told_lem : stream_metrics hex told ≡ ok stream_m
unfolding stream_metrics build_stream_metrics
told_lem = refl

stream_requests-IsValid_example :
    let c = stream_commit_body hex told stream_m "k" in
    let key = derived_stream_key hex "release" told.idempotency_key in
    (is_valid commit_rules c ≡ true)
    × (is_valid release_rules (build_release_body "stream_failed" key "k") ≡ true)
    × (is_valid event_rules (stream_event_body hex told c) ≡ true)
unfolding text_within one_of is_model is_valid unit_texts subject_rules action_rules
stream_requests-IsValid_example =
    stream_requests-IsValid hex told stream_m "k" (λ k. refl) refl refl (omega arith) refl refl refl
      told_lem

abbrev entered : Entered
entered = record {
  reservation_id = "r1";
  initial_remaining = none;
  create_rtt = 10;
  create_received = 10;
  decision = allow;
  caps = none;
}

-- A beat whose attempt raised
abbrev raised_beat : Beat
raised_beat = record {
  checked = 20;
  sent = 20;
  received = 30;
  handled = 30;
  fresh_key = "k";
  outcome = none;
}

abbrev first_heart : Heart
first_heart = record {
  expires_at_ms = none;
  prev_expiry = none;
  anchor = 15;
  grants_sum = 0;
  last_grant = none;
  pending_body = none;
  last_success = 15;
  clamp_warned = false;
  sched = record {
    timeout_budget = fin 12000000;
    rtt_max = fin 10;
    lead_floor = none;
    lead_anchor = none;
    zero_streak = 0;
    prev_fail_window = none;
  };
  authoritative = false;
  delay = 0;
}

first_heart_lem : stream_start_heartbeat 60000 none entered (fin 12000000) 15 ≡ some first_heart
unfolding stream_start_heartbeat start_heart observe_rtt new_scheduler
first_heart_lem = refl

stream_heartbeat_sends_example :
    All
      (λ req.
        (body : Fields) × (req ≡ extend_reservation "r1" body)
        × (is_valid extend_rules body ≡ true))
      (stream_heartbeat schemas 60000 entered (raised_beat ∷ raised_beat ∷ []) first_heart)
unfolding text_within
stream_heartbeat_sends_example =
    stream_heartbeat_sends schemas 60000 none entered (fin 12000000) 15 first_heart
      (raised_beat ∷ raised_beat ∷ []) first_heart_lem (refl, (refl, tt))

-- A task that is cancelled while the server has its second extension
abbrev task : Start
task = record {
  reservation_id = "r1";
  ttl_ms = 60000;
  expires_at_ms = none;
  timeout = fin 12000000;
  initial_remaining = none;
  initial_rtt = some (reliable 10);
  initial_received = some 12;
  now = 15;
}

abbrev pulses : List Pulse
pulses =
    record { asleep = false; request = resumes; beat = raised_beat }
    ∷ record { asleep = false; request = cancelled_sent; beat = raised_beat }
    ∷ record { asleep = false; request = resumes; beat = raised_beat }
    ∷ []

async_heartbeat-follows_example :
    ((rest : List Request) × (heartbeat schemas task (raised_beat ∷ raised_beat ∷ raised_beat ∷ [])
        ≡ async_heartbeat schemas task pulses ++ rest))
    × (async_heartbeat schemas task
          (calm_pulse raised_beat ∷ calm_pulse raised_beat ∷ calm_pulse raised_beat ∷ [])
        ≡ heartbeat schemas task (raised_beat ∷ raised_beat ∷ raised_beat ∷ []))
async_heartbeat-follows_example = async_heartbeat-follows schemas task pulses

-- An environment with a URL, a key, and retries switched off. A float is its own text.
abbrev environ : Environ
environ name =
    if str_eq name "CYCLES_BASE_URL"
    then some "https://cycles.test"
    else if str_eq name "CYCLES_API_KEY"
    then some "secret"
    else if str_eq name "CYCLES_RETRY_ENABLED"
    then some "false"
    else none

abbrev five : String → Result Raised ℤ
five text = if str_eq text "5" then ok (pos 5) else err value_error

abbrev floats : String → Result Raised String
floats text = ok text

abbrev lower : String → String
lower text = text

abbrev pub read_config : CyclesConfig String
read_config = record {
  base_url = "https://cycles.test";
  api_key = "secret";
  tenant = none;
  workspace = none;
  app = none;
  workflow = none;
  agent = none;
  toolset = none;
  connect_timeout = "2.0";
  read_timeout = "5.0";
  retry_enabled = false;
  retry_max_attempts = pos 5;
  retry_initial_delay = "0.5";
  retry_multiplier = "2.0";
  retry_max_delay = "30.0";
  retry_flush_timeout = "10.0";
  journal_enabled = true;
  journal_dir = none;
}

read_config_lem : from_env floats five lower "CYCLES_" environ ≡ ok read_config
unfolding from_env
read_config_lem = refl

-- The same environment after its key was changed, without a tenant
abbrev rotated : CyclesConfig String
rotated = record read_config { api_key = "other" }

-- A digest that keeps the principal
abbrev plain_digest : String → String → String
plain_digest principal salt = principal

-- A path that any text names as it is written
abbrev one_slash : String → String
one_slash p = p

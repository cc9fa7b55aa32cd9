-- ===== src/Heartbeat/Async/Cancelled.antt =====
-- What a heartbeat task sends, wherever it is cancelled.
use mathlib.Core.Path.{subst}
use mathlib.Core.List.{map-append}
use cycles_client_python.Prelude.{
  ◌≡◌, refl, sym, ap, ◌∙◌, ◌⊎◌, ℕ, inl, inr, Bool, true, false, Option, none, some, List, [], ◌∷◌,
  ◌++◌, map, arith, if◌then◌else◌, Result-cases, Option-cases,
}
use cycles_client_python.Json.{Fields}
use cycles_client_python.Exchange.{Request, extend_reservation}
use cycles_client_python.Response.{Schemas}
use cycles_client_python.Retry.Awaiting.{Await, resumes, cancelled_unsent, cancelled_sent}
use cycles_client_python.Heartbeat.Heart.{Heart, Beat, Done, Next, goes, stops}
use cycles_client_python.Heartbeat.Loop.{body_of, attempt, paced, beat, run}
use cycles_client_python.Heartbeat.Async.{
  Pulse, cut_attempt, async_attempt, async_beat, async_run, Start, entering, heartbeat,
  async_heartbeat,
}

-- A list continued by another
abbrev IsStart {ℓ} : {A : Type ℓ} → List A → List A → Type ℓ
IsStart {A = A} xs ys = (rest : List A) × (ys ≡ xs ++ rest)

abbrev pub beat_of : Pulse → Beat
beat_of p = p.beat

-- Iterations without a cancellation
abbrev pub calm_pulse : Beat → Pulse
calm_pulse b = record { asleep = false; request = resumes; beat = b }

-- The bodies of an iteration and of those that follow it
abbrev chained : Option Fields → Next → List Fields → List Fields
chained sent next rest =
    let left : List Fields = elim next [ stops ↦ [] | goes ↦ rest ] in
    elim sent [ none ↦ left | some body ↦ body ∷ left ]

-- An iteration of the task is that of the thread, or the last one, which sent the same or nothing.
abbrev IsCut : Done → Done → Type 0
IsCut d got = (got ≡ d) ⊎ ((got.next ≡ stops) × ((got.sent ≡ none) ⊎ (got.sent ≡ d.sent)))

chained-IsStart :
    (sent : Option Fields) (next : Next) (xs ys : List Fields)
    → IsStart xs ys
    → IsStart (chained sent next xs) (chained sent next ys)
chained-IsStart none stops xs ys (rest, e) = ([], refl)
chained-IsStart none goes xs ys (rest, e) = (rest, e)
chained-IsStart (some body) stops xs ys (rest, e) = ([], refl)
chained-IsStart (some body) goes xs ys (rest, e) = (rest, ap (λ l. body ∷ l) e)

stopped-IsStart :
    (sent : Option Fields) (next : Next) (xs ys : List Fields)
    → IsStart (chained sent stops xs) (chained sent next ys)
stopped-IsStart none next xs ys = (chained none next ys, refl)
stopped-IsStart (some body) next xs ys = (chained none next ys, refl)

cut-IsStart :
    (d got : Done) (arest rest : Heart → List Fields)
    → IsCut d got
    → ((h : Heart) → IsStart (arest h) (rest h))
    → IsStart (chained got.sent got.next (arest got.heart)) (chained d.sent d.next (rest d.heart))
cut-IsStart d got arest rest (inl e) start =
    subst
      (λ x. IsStart (chained x.sent x.next (arest x.heart)) (chained d.sent d.next (rest d.heart)))
      (sym e) (chained-IsStart d.sent d.next (arest d.heart) (rest d.heart) (start d.heart))
cut-IsStart d got arest rest (inr (e, inl f)) start =
    rw (e, f) (chained d.sent d.next (rest d.heart), refl)
cut-IsStart d got arest rest (inr (e, inr f)) start =
    rw (e, f) (stopped-IsStart d.sent d.next (arest got.heart) (rest d.heart))

sent_or_not :
    (sent : Bool) (body : Fields)
    → ((if sent then some body else none) ≡ none) ⊎ ((if sent then some body else none) ≡ some body)
sent_or_not true body = inr refl
sent_or_not false body = inl refl

module _ (s : Schemas) (ttl_ms : ℕ) where
  cut_attempt-IsCut :
      (sent : Bool) (b : Beat) (h : Heart)
      → IsCut (attempt s ttl_ms b h) (cut_attempt s ttl_ms sent b h)
  unfolding cut_attempt attempt
  cut_attempt-IsCut sent b h = elim (Result-cases (body_of s ttl_ms b h)) [
    | inr (x, e) ↦ rw (e, cut_attempt, attempt) (inl refl)
    | inl (body, e) ↦ rw (e, cut_attempt, attempt) (inr (refl, sent_or_not sent body))
  ]

  async_attempt-IsCut :
      (await : Await) (b : Beat) (h : Heart)
      → IsCut (attempt s ttl_ms b h) (async_attempt s ttl_ms await b h)
  unfolding async_attempt
  async_attempt-IsCut resumes b h = inl refl
  async_attempt-IsCut cancelled_unsent b h = cut_attempt-IsCut false b h
  async_attempt-IsCut cancelled_sent b h = cut_attempt-IsCut true b h

  async_beat-IsCut :
      (p : Pulse) (h : Heart) → IsCut (beat s ttl_ms p.beat h) (async_beat s ttl_ms p h)
  unfolding async_beat beat
  async_beat-IsCut p h = ground (arith, async_attempt-IsCut p.request p.beat (paced s ttl_ms h))

  async_run-IsStart :
      (ps : List Pulse) (h : Heart)
      → IsStart (async_run s ttl_ms ps h) (run s ttl_ms (map beat_of ps) h)
  unfolding async_run run
  async_run-IsStart [] h = ([], refl)
  async_run-IsStart (p ∷ ps) h =
      cut-IsStart (beat s ttl_ms p.beat h) (async_beat s ttl_ms p h) (async_run s ttl_ms ps)
        (run s ttl_ms (map beat_of ps)) (async_beat-IsCut p h) (async_run-IsStart ps)

  calm_run :
      (bs : List Beat) (h : Heart) → async_run s ttl_ms (map calm_pulse bs) h ≡ run s ttl_ms bs h
  unfolding async_run run async_beat beat async_attempt
  calm_run [] h = refl
  calm_run (b ∷ bs) h =
      ap (λ l. chained (beat s ttl_ms b h).sent (beat s ttl_ms b h).next l)
        (calm_run bs (beat s ttl_ms b h).heart)

-- Wherever a heartbeat task is cancelled, it has sent the first of the requests that a heartbeat thread
-- sends from the same start over the same iterations, in that order and with those bodies; and a task
-- that is not cancelled sends them all.
pub async_heartbeat-follows :
    (s : Schemas) (c : Start) (ps : List Pulse)
    → ((rest : List Request) × (heartbeat s c (map beat_of ps) ≡ async_heartbeat s c ps ++ rest))
      × (async_heartbeat s c (map calm_pulse (map beat_of ps)) ≡ heartbeat s c (map beat_of ps))
unfolding heartbeat async_heartbeat
async_heartbeat-follows s c ps = elim (Option-cases (entering c)) [
  | inl e ↦ rw (e, heartbeat, async_heartbeat) (([], refl), refl)
  | inr (h, e) ↦
      let (rest, same) = async_run-IsStart s c.ttl_ms ps h in
      let post = λ (body : Fields). extend_reservation c.reservation_id body in
      rw (e, heartbeat, async_heartbeat)
        (
          (map post rest, ap (map post) same ∙ map-append post (async_run s c.ttl_ms ps h) rest),
          ap (map post) (calm_run s c.ttl_ms (map beat_of ps) h),
        )
]

-- ===== src/Heartbeat/Cadence.antt =====
-- When the heartbeat goes on, and how long it waits.
use cycles_client_python.Prelude.{
  ◌≡◌, refl, List, [], ◌∷◌, ℕ, ◌/◌, ◌≤◌, min, ◌⊎◌, inl, inr, Bool, true, false, Option, none, some,
  arith, String, Option-cases, Result-cases,
}
use cycles_client_python.Response.{CyclesResponse, Schemas}
use cycles_client_python.Models.{ReservationExtendResponse}
use cycles_client_python.Retry.Outcome.{extract_error_code}
use cycles_client_python.Lifecycle.Schema.{schema_valid_extend}
use cycles_client_python.Heartbeat.Span.{Span, Rtt, ms}
use cycles_client_python.Heartbeat.Heart.{Heart, Beat, Next, goes, stops, first_delay, start_heart}
use cycles_client_python.Heartbeat.Loop.{
  recover, on_ambiguous, on_extended, on_error, on_exception, on_response, on_outcome, body_of,
  attempt, paced, beat,
}

Next-cases : (n : Next) → (n ≡ goes) ⊎ (n ≡ stops)
Next-cases goes = inl refl
Next-cases stops = inr refl

module _ (s : Schemas) (ttl_ms : ℕ) where
  -- Half a second, or half the lease if that is shorter.
  abbrev pub least : ℕ
  least = min (ms 500) (ms ttl_ms / 2)

  -- Without a lease from the server, no delay but the first is below `least`.
  abbrev pub IsPaced : Heart → Type 0
  IsPaced h = h.authoritative ≡ false → (h.delay ≡ 0) ⊎ (least ≤ h.delay)

  abbrev Cadence : Next × Heart → Type 0
  Cadence (n, h) = n ≡ goes → h.authoritative ≡ false → least ≤ h.delay

  Cadence-recover :
      (now : ℕ) (l : Bool) (ra : Option ℕ) (h : Heart)
      → h.authoritative ≡ true
      → Cadence (recover s ttl_ms now l ra h)
  unfolding recover
  Cadence-recover now l ra h auth go lost = ground arith

  Cadence-on_ambiguous : (now : ℕ) (h : Heart) → Cadence (on_ambiguous s ttl_ms now h)
  unfolding on_ambiguous
  Cadence-on_ambiguous now h go lost = ground (arith, Cadence-recover now false none h)

  Cadence-on_extended :
      (b : Beat) (e : ReservationExtendResponse) (h : Heart) → Cadence (on_extended s ttl_ms b e h)
  unfolding on_extended
  Cadence-on_extended b e h go lost = ground arith

  Cadence-on_error :
      (b : Beat) (r : CyclesResponse) (code : Option String) (h : Heart)
      → (h.authoritative ≡ false → least ≤ h.delay)
      → Cadence (on_error s ttl_ms b r code h)
  unfolding on_error
  Cadence-on_error b r code h slow go lost = ground arith

  Cadence-on_exception :
      (b : Beat) (h : Heart)
      → (h.authoritative ≡ false → least ≤ h.delay)
      → Cadence (on_exception s ttl_ms b h)
  unfolding on_exception
  Cadence-on_exception b h slow go lost = ground arith

  Cadence-on_outcome :
      (b : Beat) (o : Option CyclesResponse) (h : Heart)
      → (h.authoritative ≡ false → least ≤ h.delay)
      → Cadence (on_outcome s ttl_ms b o h)
  unfolding on_outcome on_response
  Cadence-on_outcome b none h slow go lost = Cadence-on_exception b h slow go lost
  Cadence-on_outcome b (some r) h slow go lost = elim (Option-cases (schema_valid_extend s r)) [
    | inr (e, eq) ↦ ground (arith, Cadence-on_extended b e h)
    | inl eq ↦ elim (Result-cases (extract_error_code s r)) [
      | inl (code, c) ↦
          ground (arith, Cadence-on_error b r code h slow, Cadence-on_ambiguous b.handled h)
      | inr (x, c) ↦ ground (arith, Cadence-on_exception b h slow, Cadence-on_ambiguous b.handled h)
    ]
  ]

  Cadence-attempt :
      (b : Beat) (h : Heart)
      → (h.authoritative ≡ false → least ≤ h.delay)
      → let d = attempt s ttl_ms b h in Cadence (d.next, d.heart)
  unfolding attempt
  Cadence-attempt b h slow go lost = elim (Result-cases (body_of s ttl_ms b h)) [
    | inl (body, e) ↦
        ground (arith, Cadence-on_outcome b b.outcome (record h { pending_body = some body }) slow)
    | inr (x, e) ↦ ground (arith, Cadence-on_exception b h slow)
  ]

  slow-paced :
      (h : Heart)
      → IsPaced h
      → (paced s ttl_ms h).authoritative ≡ false
      → least ≤ (paced s ttl_ms h).delay
  unfolding paced
  slow-paced h p lost = ground arith

  -- An iteration that goes on without a server-stated lease leaves at least the least delay.
  beat-slow :
      (b : Beat) (h : Heart)
      → IsPaced h
      → let d = beat s ttl_ms b h in
        d.next ≡ goes → d.heart.authoritative ≡ false → least ≤ d.heart.delay
  unfolding beat
  beat-slow b h p go lost =
      ground (arith, slow-paced h p, Cadence-attempt b (paced s ttl_ms h) (slow-paced h p))

  -- The heart after these iterations, unless one of them returned
  unfoldable pub after_beats : List Beat → Heart → Option Heart
  unfolding beat
  after_beats [] h = some h
  after_beats (b ∷ bs) h =
      let d = beat s ttl_ms b h in
      let rest = after_beats bs d.heart in elim d.next [ stops ↦ none | goes ↦ rest ]

  beats-slow :
      (b : Beat) (bs : List Beat) (h h' : Heart)
      → IsPaced h
      → after_beats (b ∷ bs) h ≡ some h'
      → h'.authoritative ≡ false
      → least ≤ h'.delay
  unfolding after_beats
  beats-slow b [] h h' p is lost = ground (arith, is, lost, beat-slow b h p)
  beats-slow b (c ∷ bs) h h' p is lost =
      let d = beat s ttl_ms b h in
      elim (Next-cases d.next) [
        | inr stopped ↦ cc (rw (stopped, after_beats) at is)
        | inl go ↦
            beats-slow c bs d.heart h' (λ lost'. inr (beat-slow b h p go lost'))
              (rw (go, after_beats) at is) lost
      ]

  start-IsPaced :
      (expires received : Option ℕ) (timeout : Span) (remaining : Option ℕ) (rtt : Option Rtt)
      (now : ℕ) (h : Heart)
      → start_heart expires timeout remaining rtt received now ≡ some h
      → (remaining ≡ none → h.delay ≡ 0) × IsPaced h
  unfolding start_heart first_delay
  start-IsPaced expires received timeout none rtt now h is = ground (arith, is)
  start-IsPaced expires received timeout (some r) rtt now h is = ground (arith, is)

  -- A heartbeat whose create stated no lease makes its first attempt at once. However it started, it
  -- never waits less than half a second, or half the lease length if that is shorter, after one or more
  -- iterations, of whatever outcome, as long as it is scheduled without a server-stated lease.
  pub cadence :
      (expires received : Option ℕ) (timeout : Span) (remaining : Option ℕ) (rtt : Option Rtt)
      (now : ℕ) (b : Beat) (bs : List Beat) (h h' : Heart)
      → start_heart expires timeout remaining rtt received now ≡ some h
      → after_beats (b ∷ bs) h ≡ some h'
      → (remaining ≡ none → h.delay ≡ 0) × (h'.authoritative ≡ false → least ≤ h'.delay)
  cadence expires received timeout remaining rtt now b bs h h' started is =
      let (first, p) = start-IsPaced expires received timeout remaining rtt now h started in
      (first, beats-slow b bs h h' p is)

-- ===== src/Heartbeat/Keys.antt =====
-- An extension that has not been confirmed is repeated with its own idempotency key.
use cycles_client_python.Models.{ReservationExtendResponse}
use cycles_client_python.Prelude.{
  ◌≡◌, ℕ, ◌⊎◌, inl, inr, Bool, false, Option, none, some, List, [], ◌∷◌, arith, All, is_some,
  String, Result-cases, ◌∙◌,
}
use cycles_client_python.Json.{Fields}
use cycles_client_python.Response.{CyclesResponse, Schemas}
use cycles_client_python.Retry.Outcome.{extract_error_code}
use cycles_client_python.Lifecycle.Schema.{schema_valid_extend}
use cycles_client_python.Heartbeat.Heart.{Heart, Beat}
use cycles_client_python.Heartbeat.Loop.{
  recover, on_ambiguous, on_extended, on_error, on_exception, on_response, on_outcome, body_of,
  attempt, paced, beat, run,
}

module _ (s : Schemas) (ttl_ms : ℕ) where
  -- The attempt's outcome is a schema-valid 200.
  abbrev pub confirms : Option CyclesResponse → Bool
  confirms none = false
  confirms (some r) = is_some (schema_valid_extend s r)

  pending-recover :
      (now : ℕ) (l : Bool) (ra : Option ℕ) (h : Heart)
      → (recover s ttl_ms now l ra h).1.pending_body ≡ h.pending_body
  unfolding recover
  pending-recover now l ra h = ground arith

  pending-on_error :
      (b : Beat) (r : CyclesResponse) (code : Option String) (h : Heart)
      → (on_error s ttl_ms b r code h).1.pending_body ≡ h.pending_body
  unfolding on_error
  pending-on_error b r code h = ground arith

  pub pending-on_exception :
      (b : Beat) (h : Heart) → (on_exception s ttl_ms b h).1.pending_body ≡ h.pending_body
  unfolding on_exception
  pending-on_exception b h = ground arith

  pub pending-on_extended :
      (b : Beat) (e : ReservationExtendResponse) (h : Heart)
      → (on_extended s ttl_ms b e h).1.pending_body ≡ none
  unfolding on_extended
  pending-on_extended b e h = ground arith

  pending-on_ambiguous :
      (now : ℕ) (h : Heart) → (on_ambiguous s ttl_ms now h).1.pending_body ≡ h.pending_body
  unfolding on_ambiguous
  pending-on_ambiguous now h = ground (arith, pending-recover now false none h)

  pub pending-on_outcome :
      (b : Beat) (o : Option CyclesResponse) (h : Heart)
      → confirms o ≡ false
      → (on_outcome s ttl_ms b o h).1.pending_body ≡ h.pending_body
  unfolding on_outcome on_response
  pending-on_outcome b none h unconfirmed = pending-on_exception b h
  pending-on_outcome b (some r) h unconfirmed = elim (Result-cases (extract_error_code s r)) [
    | inl (code, e) ↦ ground (arith, pending-on_error b r code h, pending-on_ambiguous b.handled h)
    | inr (x, e) ↦ ground (arith, pending-on_exception b h, pending-on_ambiguous b.handled h)
  ]

  attempt-pending :
      (b : Beat) (h : Heart) (body : Fields)
      → h.pending_body ≡ some body
      → confirms b.outcome ≡ false
      → let d = attempt s ttl_ms b h in (d.heart.pending_body ≡ some body) × (d.sent ≡ some body)
  unfolding attempt body_of
  attempt-pending b h body held unconfirmed =
      ground
        (arith, pending-on_outcome b b.outcome (record h { pending_body = some body }) unconfirmed)

  pub pending-paced : (h : Heart) → (paced s ttl_ms h).pending_body ≡ h.pending_body
  unfolding paced
  pending-paced h = ground arith

  -- What an iteration without a confirmation leaves pending, and what it sends.
  pub beat-pending :
      (b : Beat) (h : Heart) (body : Fields)
      → h.pending_body ≡ some body
      → confirms b.outcome ≡ false
      → let d = beat s ttl_ms b h in
        (d.heart.pending_body ≡ some body) × ((d.sent ≡ none) ⊎ (d.sent ≡ some body))
  unfolding beat
  beat-pending b h body held unconfirmed =
      let held' = pending-paced h ∙ held in
      ground (arith, held', attempt-pending b (paced s ttl_ms h) body held' unconfirmed)

  -- While an extension is pending and no attempt is answered by a schema-valid 200, every body that
  -- the heartbeat sends is the pending one, with its idempotency key.
  pub run_same_key :
      (bs : List Beat) (h : Heart) (body : Fields)
      → h.pending_body ≡ some body
      → All (λ b. confirms b.outcome ≡ false) bs
      → All (λ sent. sent ≡ body) (run s ttl_ms bs h)
  unfolding run
  run_same_key [] h body held un = tt
  run_same_key (b ∷ bs) h body held (u, us) =
      let (held', sent) = beat-pending b h body held u in
      ground (arith, held', sent, run_same_key bs (beat s ttl_ms b h).heart body held' us)

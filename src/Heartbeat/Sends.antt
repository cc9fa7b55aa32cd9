-- ===== src/Heartbeat/Sends.antt =====
-- Every request of a heartbeat is a valid extension.
use cycles_client_python.Prelude.{
  ◌≡◌, refl, ap, ◌∙◌, ℕ, String, map, inl, inr, Bool, true, Option, none, some, List, [], ◌∷◌,
  arith, All, Bool-cases, Option-cases, Result-cases, ok,
}
use cycles_client_python.Json.{Fields, str}
use cycles_client_python.Exchange.{extend_reservation}
use cycles_client_python.Models.Requests.{text_within, is_valid, extend_rules}
use cycles_client_python.Response.{CyclesResponse, Schemas}
use cycles_client_python.Lifecycle.Schema.{schema_valid_extend}
use cycles_client_python.Lifecycle.Declared.{build_extend_body-IsValid}
use cycles_client_python.Heartbeat.Heart.{Heart, Beat, Done}
use cycles_client_python.Heartbeat.Loop.{
  on_response, on_outcome, body_of, attempt, paced, beat, run,
}
use cycles_client_python.Heartbeat.Keys.{
  confirms, pending-on_outcome, pending-on_extended, pending-on_exception, pending-paced,
}

-- A body that is absent or valid
abbrev is_fine : Option Fields → Bool
is_fine none = true
is_fine (some d) = is_valid extend_rules d

module _ (s : Schemas) (ttl_ms : ℕ) where
  confirmed-pending :
      (b : Beat) (o : Option CyclesResponse) (h : Heart)
      → confirms s ttl_ms o ≡ true
      → (on_outcome s ttl_ms b o h).1.pending_body ≡ none
  unfolding on_outcome on_response
  confirmed-pending b none h confirmed = cc
  confirmed-pending b (some r) h confirmed = elim (Option-cases (schema_valid_extend s r)) [
    | inl e ↦ ground (arith, e, confirmed)
    | inr (x, e) ↦ rw (e, on_outcome, on_response) (pending-on_extended s ttl_ms b x h)
  ]

  fine-on_outcome :
      (b : Beat) (o : Option CyclesResponse) (h : Heart)
      → is_fine h.pending_body ≡ true
      → is_fine (on_outcome s ttl_ms b o h).1.pending_body ≡ true
  fine-on_outcome b o h fine = elim (Bool-cases (confirms s ttl_ms o)) [
    | inl e ↦ ap is_fine (confirmed-pending b o h e)
    | inr e ↦ ap is_fine (pending-on_outcome s ttl_ms b o h e) ∙ fine
  ]

  abbrev IsFine : Done → Type 0
  IsFine d = (is_fine d.sent ≡ true) × (is_fine d.heart.pending_body ≡ true)

  body_of-IsValid :
      (b : Beat) (h : Heart) (body : Fields)
      → text_within 1 256 (str b.fresh_key) ≡ true
      → is_fine h.pending_body ≡ true
      → body_of s ttl_ms b h ≡ ok body
      → is_valid extend_rules body ≡ true
  unfolding body_of
  body_of-IsValid b h body keyed fine is = elim (Option-cases h.pending_body) [
    | inl e ↦ build_extend_body-IsValid ttl_ms b.fresh_key body (ground (arith, e, is)) keyed
    | inr (d, e) ↦ ground (arith, e, fine, is)
  ]

  attempt-IsFine :
      (b : Beat) (h : Heart)
      → text_within 1 256 (str b.fresh_key) ≡ true
      → is_fine h.pending_body ≡ true
      → IsFine (attempt s ttl_ms b h)
  unfolding attempt
  attempt-IsFine b h keyed fine = elim (Result-cases (body_of s ttl_ms b h)) [
    | inr (x, e) ↦ rw (e, attempt) (refl, ap is_fine (pending-on_exception s ttl_ms b h) ∙ fine)
    | inl (body, e) ↦
        let valid = body_of-IsValid b h body keyed fine e in
        rw (e, attempt)
          (valid, fine-on_outcome b b.outcome (record h { pending_body = some body }) valid)
  ]

  beat-IsFine :
      (b : Beat) (h : Heart)
      → text_within 1 256 (str b.fresh_key) ≡ true
      → is_fine h.pending_body ≡ true
      → IsFine (beat s ttl_ms b h)
  unfolding beat
  beat-IsFine b h keyed fine =
      let fine' = ap is_fine (pending-paced s ttl_ms h) ∙ fine in
      ground (arith, fine', attempt-IsFine b (paced s ttl_ms h) keyed fine')

  sends_fine :
      (bs : List Beat) (h : Heart)
      → is_fine h.pending_body ≡ true
      → All (λ b. text_within 1 256 (str b.fresh_key) ≡ true) bs
      → All (λ body. is_valid extend_rules body ≡ true) (run s ttl_ms bs h)
  unfolding run
  sends_fine [] h fine keyed = tt
  sends_fine (b ∷ bs) h fine (key, keys) =
      let (sent, left) = beat-IsFine b h key fine in
      ground (arith, sent, left, sends_fine bs (beat s ttl_ms b h).heart left keys)

  -- If every key that `uuid4` makes has 1 to 256 characters, every body that a heartbeat sends is a
  -- valid extension request, whatever the answers and the clock are.
  pub run-IsValid :
      (bs : List Beat) (h : Heart)
      → h.pending_body ≡ none
      → All (λ b. text_within 1 256 (str b.fresh_key) ≡ true) bs
      → All (λ body. is_valid extend_rules body ≡ true) (run s ttl_ms bs h)
  run-IsValid bs h start keyed = sends_fine bs h (ap is_fine start) keyed

-- The requests that post valid bodies to a reservation
pub extends_own :
    (id : String) (bodies : List Fields)
    → All (λ body. is_valid extend_rules body ≡ true) bodies
    → All
        (λ req.
          (body : Fields) × (req ≡ extend_reservation id body)
          × (is_valid extend_rules body ≡ true))
        (map (λ body. extend_reservation id body) bodies)
extends_own id [] valid = tt
extends_own id (b ∷ bs) (v, vs) = ((b, refl, v), extends_own id bs vs)

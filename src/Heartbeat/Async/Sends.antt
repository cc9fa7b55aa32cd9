-- ===== src/Heartbeat/Async/Sends.antt =====
-- Every request of a heartbeat, of a thread or of a task, extends its own reservation.
use mathlib.Core.Path.{subst}
use cycles_client_python.Prelude.{
  ◌≡◌, inl, inr, String, true, none, some, List, [], ◌∷◌, ◌++◌, map, arith, All, Option-cases,
}
use cycles_client_python.Json.{Fields, str}
use cycles_client_python.Models.Requests.{text_within, is_valid, extend_rules}
use cycles_client_python.Exchange.{Request, extend_reservation}
use cycles_client_python.Response.{Schemas}
use cycles_client_python.Heartbeat.Heart.{Heart, Beat, start_heart}
use cycles_client_python.Heartbeat.Sends.{extends_own, run-IsValid}
use cycles_client_python.Heartbeat.Async.{Pulse, Start, entering, heartbeat, async_heartbeat}
use cycles_client_python.Heartbeat.Async.Cancelled.{beat_of, async_heartbeat-follows}

All-front : {A : Type 0} (P : A → Type 0) (xs ys : List A) → All P (xs ++ ys) → All P xs
All-front P [] ys all = tt
All-front P (x ∷ xs) ys (p, ps) = (p, All-front P xs ys ps)

-- The request extends the reservation by a valid body.
abbrev ExtendsOwn : String → Request → Type 0
ExtendsOwn id req =
    (body : Fields) × (req ≡ extend_reservation id body) × (is_valid extend_rules body ≡ true)

entering-pending : (c : Start) (h : Heart) → entering c ≡ some h → h.pending_body ≡ none
unfolding entering start_heart
entering-pending c h is = ground (arith, is)

heartbeat_sends :
    (s : Schemas) (c : Start) (bs : List Beat)
    → All (λ b. text_within 1 256 (str b.fresh_key) ≡ true) bs
    → All (ExtendsOwn c.reservation_id) (heartbeat s c bs)
unfolding heartbeat
heartbeat_sends s c bs keyed = elim (Option-cases (entering c)) [
  | inl e ↦ rw (e, heartbeat) tt
  | inr (h, e) ↦
      rw (e, heartbeat)
        (extends_own c.reservation_id _
          (run-IsValid s c.ttl_ms bs h (entering-pending c h e) keyed))
]

-- Wherever a heartbeat task is cancelled, every request that it has sent extends its own reservation by
-- a valid request, if every key that `uuid4` makes has 1 to 256 characters.
pub async_heartbeat_sends :
    (s : Schemas) (c : Start) (ps : List Pulse)
    → All (λ b. text_within 1 256 (str b.fresh_key) ≡ true) (map beat_of ps)
    → All (ExtendsOwn c.reservation_id) (async_heartbeat s c ps)
async_heartbeat_sends s c ps keyed =
    let ((rest, same), calm) = async_heartbeat-follows s c ps in
    All-front (ExtendsOwn c.reservation_id) (async_heartbeat s c ps) rest
      (subst (All (ExtendsOwn c.reservation_id)) same (heartbeat_sends s c (map beat_of ps) keyed))

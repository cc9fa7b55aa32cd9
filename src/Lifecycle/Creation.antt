-- ===== src/Lifecycle/Creation.antt =====
-- Creating a reservation sends one request, or the same one twice.
use cycles_client_python.Prelude.{
  ◌≡◌, refl, ◌≢◌, ◌⊎◌, inl, inr, ℕ, suc, ◌==◌, Bool, true, false, ◌&&◌, not, none, some, List, ◌∷◌,
  Result, ok, err, arith, is_some, Option-cases, Bool-cases, ◌-◌,
}
use cycles_client_python.Json.{Fields}
use cycles_client_python.Models.{ReservationCreateResponse}
use cycles_client_python.Exchange.{Exchange, Server, Reply, create_reservation}
use cycles_client_python.Response.{CyclesResponse, Schemas, is_success}
use cycles_client_python.Retry.Engine.{World, send, noted}
use cycles_client_python.Lifecycle.Schema.{schema_valid_create, create_is_recoverable}
use cycles_client_python.Lifecycle.Create.{
  Created, CreateError, unreachable, still_ambiguous, refused, ambiguous_create, Verdict, done,
  again, failed, verdict_of, verdict_of_invalid, create_loop, create_reservation_with_recovery,
}

-- Whether the reservation may exist although no success was read: the call raised, or its answer is
-- no schema-valid success and has no status of HTTP's, a 5xx or above, or a 2xx.
unfoldable pub unsure : Schemas → Reply → Bool
unsure s reply = elim reply.outcome [
  | none ↦ true
  | some r ↦ not (is_some (schema_valid_create s r)) && create_is_recoverable r
]

module _ (server : Server) where
  abbrev pub create_reply : Fields → List Exchange → Reply
  create_reply body xs = server (create_reservation body) xs

  abbrev pub asked : Fields → List Exchange → List Exchange
  asked body xs = record { request = create_reservation body; reply = create_reply body xs } ∷ xs

module _ (s : Schemas) where
  -- The success that a reply carries, or an error that no success explains.
  abbrev pub IsSuccessOf : Reply → Created → Type 0
  IsSuccessOf reply c =
      (reply.outcome ≡ some c.response)
      × (schema_valid_create s c.response ≡ some c.result)
      × (c.received ≡ reply.received)

  abbrev pub valid : Reply → Bool
  valid reply = elim reply.outcome [ none ↦ false | some r ↦ is_some (schema_valid_create s r) ]

  abbrev pub IsFailureOf : Reply → CreateError → Type 0
  IsFailureOf reply e = (e ≢ unreachable) × (valid reply ≡ false)

  abbrev pub IsResultOf : Reply → Result CreateError Created → Type 0
  IsResultOf reply (ok c) = IsSuccessOf reply c
  IsResultOf reply (err e) = IsFailureOf reply e

  abbrev Judged : Reply → Verdict → Type 0
  Judged reply v =
      ((c : Created) × (v ≡ done c) × IsSuccessOf reply c)
      ⊎ ((e : CreateError) × (v ≡ failed e) × IsFailureOf reply e)

  Judged-invalid :
      (first : Bool) (reply : Reply) (r : CyclesResponse)
      → reply.outcome ≡ some r
      → schema_valid_create s r ≡ none
      → first && create_is_recoverable r ≡ false
      → Judged reply (verdict_of s first reply)
  unfolding verdict_of verdict_of_invalid
  Judged-invalid first reply r e bad sure = elim (Bool-cases (is_success r)) [
    | inl ambiguous ↦
        inr (ambiguous_create r.status, ground arith, ((λ x. ground arith), ground arith))
    | inr refusal ↦ inr (refused r, ground arith, ((λ x. ground arith), ground arith))
  ]

  Judged-valid :
      (first : Bool) (reply : Reply) (r : CyclesResponse) (p : ReservationCreateResponse)
      → reply.outcome ≡ some r
      → schema_valid_create s r ≡ some p
      → Judged reply (verdict_of s first reply)
  unfolding verdict_of
  Judged-valid first reply r p e good = inl (
    record {
      response = r;
      result = p;
      rtt = reply.received - reply.sent;
      received = reply.received;
    },
    ground arith,
    ground arith,
  )

  verdict-first :
      (reply : Reply)
      → (unsure s reply ≡ true) × (verdict_of s true reply ≡ again)
        ⊎ (unsure s reply ≡ false) × Judged reply (verdict_of s true reply)
  unfolding verdict_of verdict_of_invalid unsure
  verdict-first reply = elim (Option-cases reply.outcome) [
    | inl e ↦ inl (ground arith, ground arith)
    | inr (r, e) ↦ elim (Option-cases (schema_valid_create s r)) [
      | inl bad ↦ elim (Bool-cases (create_is_recoverable r)) [
        | inl maybe ↦ inl (ground arith, ground arith)
        | inr sure ↦ inr (ground arith, Judged-invalid true reply r e bad sure)
      ]
      | inr (p, good) ↦ inr (ground arith, Judged-valid true reply r p e good)
    ]
  ]

  verdict-last : (reply : Reply) → Judged reply (verdict_of s false reply)
  unfolding verdict_of verdict_of_invalid
  verdict-last reply = elim (Option-cases reply.outcome) [
    | inl e ↦ inr (still_ambiguous, ground arith, ((λ x. ground arith), ground arith))
    | inr (r, e) ↦ elim (Option-cases (schema_valid_create s r)) [
      | inl bad ↦ Judged-invalid false reply r e bad refl
      | inr (p, good) ↦ Judged-valid false reply r p e good
    ]
  ]

module _ (s : Schemas) {J : Type 0} (server : Server) where
  -- A verdict that ends the loop
  ended :
      (left : ℕ) (body : Fields) (w : World J)
      → let reply = create_reply server body w.exchanges in
        let (result, w') = create_loop s server (suc left) body w in
        Judged s reply (verdict_of s (left == 1) reply)
        → (w'.exchanges ≡ asked server body w.exchanges) × IsResultOf s reply result
  unfolding create_loop send
  ended left body w (inl (c, is, ok_c)) = rw is (refl, ok_c)
  ended left body w (inr (e, is, err_e)) = rw is (refl, err_e)

  -- A verdict that goes on
  resumed :
      (left : ℕ) (body : Fields) (w : World J)
      → let reply = create_reply server body w.exchanges in
        verdict_of s (left == 1) reply ≡ again
        → create_loop s server (suc left) body w
          ≡ create_loop s server left body (noted (create_reservation body) reply w)
  unfolding create_loop send
  resumed left body w is = rw is

  -- Creating a reservation sends its request once when the first reply tells whether the reservation
  -- exists, and exactly twice, with the same body and so the same key, when it does not tell. The
  -- result is a success exactly if the last reply is a schema-valid HTTP 200, and then it is that
  -- reply's response, its reading and its time of receipt; the loop is never left without a result.
  pub create_sends :
      (body : Fields) (w : World J)
      → let (result, w') = create_reservation_with_recovery s server body w in
        let first = create_reply server body w.exchanges in
        let once = asked server body w.exchanges in
        (unsure s first ≡ false) × (w'.exchanges ≡ once) × IsResultOf s first result
        ⊎ (unsure s first ≡ true)
          × (w'.exchanges ≡ asked server body once)
          × IsResultOf s (create_reply server body once) result
  unfolding create_reservation_with_recovery
  create_sends body w =
      let first = create_reply server body w.exchanges in
      elim (verdict-first s first) [
        | inr (sure, judged) ↦ let (grew, last) = ended 1 body w judged in inl (sure, grew, last)
        | inl (maybe, is) ↦
            let same = resumed 1 body w is in
            let second =
              verdict-last s (create_reply server body (asked server body w.exchanges)) in
            let (grew, last) = ended 0 body (noted (create_reservation body) first w) second in
            inr (maybe, rw same grew, rw same last)
      ]

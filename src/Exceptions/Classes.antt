-- ===== src/Exceptions/Classes.antt =====
-- The class of a protocol exception and its predicates say the same, and what makes it retryable.
use cycles_client_python.Prelude.{
  ◌≡◌, refl, inl, inr, ℤ, String, Bool, true, false, Option, none, some, str_eq, eq_iff, Result, ok,
  Bool-cases, Result-cases,
}
use cycles_client_python.Json.{Json, non_null, null, bool, int, float, str, arr, obj}
use cycles_client_python.Response.{Raised, CyclesResponse, Schemas, get_body_attribute}
use cycles_client_python.Exceptions.{
  ExceptionClass, protocol_error, budget_exceeded_error, overdraft_limit_exceeded_error,
  debt_outstanding_error, tenant_closed_error, reservation_expired_error,
  reservation_finalized_error, CyclesProtocolError, code_is, is_budget_exceeded,
  is_overdraft_limit_exceeded, is_debt_outstanding, is_tenant_closed, is_reservation_expired,
  is_reservation_finalized,
}
use cycles_client_python.Exceptions.Refusal.{
  class_of, read_error, read_retry_after, build_protocol_exception,
}

-- `except caught` for an exception of the class: `CyclesProtocolError` catches all, each subclass
-- its own.
abbrev pub catches : ExceptionClass → ExceptionClass → Bool
catches protocol_error c = true
catches budget_exceeded_error budget_exceeded_error = true
catches overdraft_limit_exceeded_error overdraft_limit_exceeded_error = true
catches debt_outstanding_error debt_outstanding_error = true
catches reservation_expired_error reservation_expired_error = true
catches reservation_finalized_error reservation_finalized_error = true
catches tenant_closed_error tenant_closed_error = true
catches _ _ = false

-- The class that a code gets is the one of its own predicate, and no other's.
abbrev IsClassOf : Option Json → ExceptionClass → Type 0
IsClassOf code c =
    (catches budget_exceeded_error c ≡ code_is code "BUDGET_EXCEEDED")
    × (catches overdraft_limit_exceeded_error c ≡ code_is code "OVERDRAFT_LIMIT_EXCEEDED")
    × (catches debt_outstanding_error c ≡ code_is code "DEBT_OUTSTANDING")
    × (catches reservation_expired_error c ≡ code_is code "RESERVATION_EXPIRED")
    × (catches reservation_finalized_error c ≡ code_is code "RESERVATION_FINALIZED")
    × (catches tenant_closed_error c ≡ code_is code "TENANT_CLOSED")

known :
    (c t : String)
    → str_eq c t ≡ true
    → IsClassOf (some (str t)) (class_of (some (str t)))
    → IsClassOf (some (str c)) (class_of (some (str c)))
known c t same at = rw ((eq_iff c t).0 same) at

text_class : (c : String) → IsClassOf (some (str c)) (class_of (some (str c)))
unfolding class_of
text_class c = elim (Bool-cases (str_eq c "BUDGET_EXCEEDED")) [
  | inl same ↦ known c "BUDGET_EXCEEDED" same (refl, refl, refl, refl, refl, refl)
  | inr not0 ↦ elim (Bool-cases (str_eq c "OVERDRAFT_LIMIT_EXCEEDED")) [
    | inl same ↦ known c "OVERDRAFT_LIMIT_EXCEEDED" same (refl, refl, refl, refl, refl, refl)
    | inr not1 ↦ elim (Bool-cases (str_eq c "DEBT_OUTSTANDING")) [
      | inl same ↦ known c "DEBT_OUTSTANDING" same (refl, refl, refl, refl, refl, refl)
      | inr not2 ↦ elim (Bool-cases (str_eq c "RESERVATION_EXPIRED")) [
        | inl same ↦ known c "RESERVATION_EXPIRED" same (refl, refl, refl, refl, refl, refl)
        | inr not3 ↦ elim (Bool-cases (str_eq c "RESERVATION_FINALIZED")) [
          | inl same ↦ known c "RESERVATION_FINALIZED" same (refl, refl, refl, refl, refl, refl)
          | inr not4 ↦ elim (Bool-cases (str_eq c "TENANT_CLOSED")) [
            | inl same ↦ known c "TENANT_CLOSED" same (refl, refl, refl, refl, refl, refl)
            | inr not5 ↦
                rw (not0, not1, not2, not3, not4, not5) (refl, refl, refl, refl, refl, refl)
          ]
        ]
      ]
    ]
  ]
]

class_lem : (code : Option Json) → IsClassOf code (class_of code)
unfolding class_of
class_lem none = (refl, refl, refl, refl, refl, refl)
class_lem (some (str c)) = text_class c
class_lem (some null) = (refl, refl, refl, refl, refl, refl)
class_lem (some (bool b)) = (refl, refl, refl, refl, refl, refl)
class_lem (some (int z)) = (refl, refl, refl, refl, refl, refl)
class_lem (some (float x)) = (refl, refl, refl, refl, refl, refl)
class_lem (some (arr xs)) = (refl, refl, refl, refl, refl, refl)
class_lem (some (obj d)) = (refl, refl, refl, refl, refl, refl)

module _ (s : Schemas) (int_of_text int_of_float : String → Result Raised ℤ) where
  built :
      (prefix : String) (r : CyclesResponse) (e : CyclesProtocolError)
      → build_protocol_exception s int_of_text int_of_float prefix r ≡ ok e
      → (e.exc_class ≡ class_of e.error_code) × (e.status ≡ r.status)
  unfolding build_protocol_exception
  built prefix r e made = elim (Result-cases (read_error s int_of_text int_of_float prefix r)) [
    | inr (x, bad) ↦ cc (rw (bad, build_protocol_exception) at made)
    | inl (reading, read) ↦ elim (Result-cases (get_body_attribute r "reason_code")) [
      | inr (x, bad) ↦ cc (rw (read, bad, build_protocol_exception) at made)
      | inl (reason, given) ↦ elim (Result-cases (get_body_attribute r "retry_after_ms")) [
        | inr (x, bad) ↦ cc (rw (read, given, bad, build_protocol_exception) at made)
        | inl (raw, there) ↦
            elim (Result-cases (read_retry_after s int_of_text int_of_float r (non_null raw))) [
              | inr (x, bad) ↦ cc (rw (read, given, there, bad, build_protocol_exception) at made)
              | inl (after, delayed) ↦
                  let is = rw (read, given, there, delayed, build_protocol_exception) at made in
                  (cc is, cc is)
            ]
      ]
    ]
  ]

  -- An exception that is built for an answer has the answer's status, and a handler for one of the
  -- six subclasses catches it exactly if the predicate of the same name holds.
  pub exception_class_agrees :
      (prefix : String) (r : CyclesResponse) (e : CyclesProtocolError)
      → build_protocol_exception s int_of_text int_of_float prefix r ≡ ok e
      → (e.status ≡ r.status)
        × (catches budget_exceeded_error e.exc_class ≡ is_budget_exceeded e)
        × (catches overdraft_limit_exceeded_error e.exc_class ≡ is_overdraft_limit_exceeded e)
        × (catches debt_outstanding_error e.exc_class ≡ is_debt_outstanding e)
        × (catches reservation_expired_error e.exc_class ≡ is_reservation_expired e)
        × (catches reservation_finalized_error e.exc_class ≡ is_reservation_finalized e)
        × (catches tenant_closed_error e.exc_class ≡ is_tenant_closed e)
  unfolding is_budget_exceeded is_overdraft_limit_exceeded is_debt_outstanding is_tenant_closed
      is_reservation_expired is_reservation_finalized
  exception_class_agrees prefix r e made =
      let (own, kept) = built prefix r e made in
      let (b, o, d, x, f, t) = class_lem e.error_code in rw own (kept, b, o, d, x, f, t)

-- ===== src/Lifecycle/Declared/Reservation.antt =====
-- The bodies that create a reservation are valid requests by the limits that runcycles/models.py
-- declares.
use cycles_client_python.Prelude.{
  ◌≡◌, refl, ℕ, zero, suc, ◌≤◌, String, true, Option, none, some, ℤ, List, [], ◌∷◌, arith, length,
}
use cycles_client_python.Json.{str, obj, Fields}
use cycles_client_python.Models.{Subject}
use cycles_client_python.Models.Requests.{
  text_within, or_null, dict_of, is_dimensions, accepts_entry, accepts_all, has_required, is_model,
  is_valid, subject_rules, create_rules, is_int,
}
use cycles_client_python.Validation.{subject_fits, text_fits, values_fit, dimensions_fit}
use cycles_client_python.Lifecycle.Reserve.{put, fields_of, put_dimensions, dump_subject, put_grace}

dimensions-AreWithin :
    (n : ℕ) (ds : List (String × String))
    → length ds ≤ n
    → values_fit ds ≡ true
    → dict_of (text_within 0 256) n (fields_of ds) ≡ true
unfolding fields_of dict_of values_fit text_fits text_within
dimensions-AreWithin n [] le fit = refl
dimensions-AreWithin zero (d ∷ ds) le fit = ground (arith, le)
dimensions-AreWithin (suc n) ((k, v) ∷ ds) le fit =
    let rest = dimensions-AreWithin n ds (omega (arith, le)) in ground (arith, fit, rest)

put-IsAccepted :
    (k : String) (o : Option String) (d : Fields)
    → ((v : String)
        → text_within 0 128 (str v) ≡ true
        → accepts_entry subject_rules k (str v) ≡ true)
    → text_fits 128 o ≡ true
    → accepts_all subject_rules d ≡ true
    → accepts_all subject_rules (put k o d) ≡ true
unfolding put accepts_all text_fits text_within
put-IsAccepted k none d known fits rest = rest
put-IsAccepted k (some v) d known fits rest =
    let here = known v (ground arith) in rw (here, rest) refl

put_dimensions-IsAccepted :
    (o : Option (List (String × String)))
    → dimensions_fit o ≡ true
    → accepts_all subject_rules (put_dimensions o) ≡ true
unfolding put_dimensions dimensions_fit accepts_all accepts_entry subject_rules or_null
    is_dimensions
put_dimensions-IsAccepted none fits = refl
put_dimensions-IsAccepted (some ds) fits =
    let within = dimensions-AreWithin 16 ds (ground arith) (ground arith) in rw within refl

pub dump_subject-IsValid :
    (s : Subject) → subject_fits s ≡ true → is_model subject_rules (obj (dump_subject s)) ≡ true
unfolding dump_subject subject_fits is_model is_valid has_required subject_rules accepts_entry
    or_null
dump_subject-IsValid s fits =
    let d₆ = put_dimensions s.dimensions in
    let d₅ = put "toolset" s.toolset d₆ in
    let d₄ = put "agent" s.agent d₅ in
    let d₃ = put "workflow" s.workflow d₄ in
    let d₂ = put "app" s.app d₃ in
    let d₁ = put "workspace" s.workspace d₂ in
    let f₆ = put_dimensions-IsAccepted s.dimensions (ground arith) in
    let f₅ = put-IsAccepted "toolset" s.toolset d₆ (λ v h. h) (ground arith) f₆ in
    let f₄ = put-IsAccepted "agent" s.agent d₅ (λ v h. h) (ground arith) f₅ in
    let f₃ = put-IsAccepted "workflow" s.workflow d₄ (λ v h. h) (ground arith) f₄ in
    let f₂ = put-IsAccepted "app" s.app d₃ (λ v h. h) (ground arith) f₃ in
    let f₁ = put-IsAccepted "workspace" s.workspace d₂ (λ v h. h) (ground arith) f₂ in
    rw (put-IsAccepted "tenant" s.tenant d₁ (λ v h. h) (ground arith) f₁) refl

-- The optional fields at the end of the body.
pub put_grace-IsAccepted :
    (g : Option ℤ) (d : Fields)
    → accepts_all create_rules d ≡ true
    → accepts_all create_rules (put_grace g d) ≡ true
unfolding put_grace accepts_all accepts_entry create_rules or_null is_int
put_grace-IsAccepted none d rest = rest
put_grace-IsAccepted (some g) d rest = rest

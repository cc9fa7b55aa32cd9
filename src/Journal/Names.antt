-- ===== src/Journal/Names.antt =====
-- The names of the journal's files are kept apart by their endings.
use Prim.Native.Char.{Char}
use Prim.Native.String.{◌++◌, count}
use text.Mathlib.TextLemmas.{
  append_inj, append_assoc, append_cancel_left, length-append, append-nil, cons-append, nil-append,
  append-eq-nil_iff, cons-ne-nil,
}
use cycles_client_python.Prelude.{
  ◌≡◌, ◌≢◌, refl, sym, ◌∙◌, ap, inl, inr, String, true, false, some, str_eq, eq_iff, eq_refl, arith,
  Bool-cases, Option-cases, is_some,
}
use cycles_client_python.Journal.Files.{stem_of}

pub not-str_eq : (s t : String) → s ≢ t → str_eq s t ≡ false
not-str_eq s t ne = elim (Bool-cases (str_eq s t)) [
  | inl e ↦ absurd (ne ((eq_iff s t).0 e))
  | inr e ↦ e
]

-- Texts with different endings of one length differ.
endings : (s t u v : String) → count u ≡ count v → u ≢ v → (s ++ u) ≢ (t ++ v)
endings s t u v same ne e =
    let lengths : count s ≡ count t =
      omega (arith, length-append s u, length-append t v, ap count e, same) in
    ne ((append_inj e lengths).1)

pub dotted : (s t : String) → (s ++ ("." ++ t)) ≢ s
dotted s t e =
    let empty = append_cancel_left s ("." ++ t) String.[] (e ∙ sym (append-nil s)) in
    cons-ne-nil _ _ (append-eq-nil_iff.0 empty).0

pub tmp-json : (s t : String) → (s ++ ".tmp") ≢ (t ++ ".json")
tmp-json s t e =
    endings s (t ++ ".") ".tmp" "json" refl (λ h. cc ((eq_iff ".tmp" "json").1 h))
      (e ∙ sym (append_assoc t "." "json"))

pub corrupt-json : (s t : String) → (s ++ ".corrupt") ≢ (t ++ ".json")
corrupt-json s t e =
    endings (s ++ ".cor") (t ++ ".") "rupt" "json" refl (λ h. cc ((eq_iff "rupt" "json").1 h))
      (append_assoc s ".cor" "rupt" ∙ e ∙ sym (append_assoc t "." "json"))

whole : (n suffix x : String) → str_eq n suffix ≡ true → "" ≡ x → n ≡ x ++ suffix
whole n suffix x same empty =
    (eq_iff n suffix).0 same ∙ sym (nil-append suffix) ∙ ap (λ y. y ++ suffix) empty

pub stem_of-append : (suffix n x : String) → stem_of suffix n ≡ some x → n ≡ x ++ suffix
unfolding stem_of
stem_of-append suffix String.[] x h = elim (Bool-cases (str_eq String.[] suffix)) [
  | inl e ↦ whole String.[] suffix x e (cc (rw e at h))
  | inr e ↦ cc (rw e at h)
]
stem_of-append suffix (String.◌∷◌ c s) x h = elim (Bool-cases (str_eq (String.◌∷◌ c s) suffix)) [
  | inl e ↦ whole (String.◌∷◌ c s) suffix x e (cc (rw e at h))
  | inr e ↦ elim (Option-cases (stem_of suffix s)) [
    | inl bad ↦ cc (rw (e, bad) at h)
    | inr (t, good) ↦
        let longer : String.◌∷◌ c t ≡ x = cc (rw (e, good) at h) in
        ap (λ y. String.◌∷◌ c y) (stem_of-append suffix s t good)
        ∙ sym (cons-append c t suffix)
        ∙ ap (λ y. y ++ suffix) longer
  ]
]

stem_of_self : (suffix : String) → is_some (stem_of suffix suffix) ≡ true
unfolding stem_of
stem_of_self String.[] = refl
stem_of_self (String.◌∷◌ c s) = rw (eq_refl (String.◌∷◌ c s))

stem_of-cons :
    (suffix : String) (c : Char) (w : String)
    → is_some (stem_of suffix w) ≡ true
    → is_some (stem_of suffix (String.◌∷◌ c w)) ≡ true
unfolding stem_of
stem_of-cons suffix c w h = elim (Bool-cases (str_eq (String.◌∷◌ c w) suffix)) [
  | inl e ↦ rw e
  | inr e ↦ elim (Option-cases (stem_of suffix w)) [
    | inl bad ↦ cc (rw bad at h)
    | inr (t, good) ↦ rw (e, good)
  ]
]

-- A text with the suffix ends with it.
pub stem_of_some : (suffix s : String) → is_some (stem_of suffix (s ++ suffix)) ≡ true
stem_of_some suffix String.[] = rw (nil-append suffix) (stem_of_self suffix)
stem_of_some suffix (String.◌∷◌ c s) =
    rw (cons-append c s suffix) (stem_of-cons suffix c (s ++ suffix) (stem_of_some suffix s))

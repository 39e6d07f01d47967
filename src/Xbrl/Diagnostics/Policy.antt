-- ===== src/Xbrl/Diagnostics/Policy.antt =====
-- src/edgar/xbrl/diagnostics.py: the policy is closed by default.
use edgar.Prelude.{
  ℕ, zero, suc, ◌+◌, ◌≡◌, ◌↔◌, ◌⊎◌, inl, inr, refl, sym, ap, ◌∙◌, arith, Bool, true, false, not,
  List, [], ◌∷◌, Option, String, raise_if-then, value_error, ◌==◌, string_eq, any, filter, All, Any,
  Bool-cases, if◌then◌else◌,
}
use edgar.Prelude.Text.{is_empty}
use edgar.Prelude.Int.{ℤ, pos, negsuc, pos_part, add_ℤ, ltb_ℤ}
use edgar.Domain.Decode.{contains}
use edgar.Xbrl.Records.Diagnostics.{
  DiagnosticRecord, IsDiagnostic, build_diagnostic, diagnostic_severities,
}
use edgar.Xbrl.Diagnostics.{
  Rationales, complete_compatible, completeness_blocking, unstructured_code, active_registry,
  is_listed, is_clean, classify_diagnostic, is_blocking, blocking_diagnostics,
  diagnostics_allow_complete, sum_occurrences, blocking_occurrence_count,
}

-- The code is that of an entry.
abbrev pub Listed : String → Rationales → Type 0
Listed code registry = Any (λ (entry : String × String). entry.0 ≡ code) registry

-- An information, or a structured diagnostic with a rationale.
abbrev pub IsCompatible : Option Rationales → DiagnosticRecord → Type 0
IsCompatible registry d =
    (d.severity ≡ "info")
    ⊎ (¬ (d.code ≡ unstructured_code) × Listed d.code (active_registry registry))

is_listed-Listed :
    (code : String) (registry : Rationales)
    → (is_listed code registry ≡ true) ↔ Listed code registry
is_listed-Listed code [] = (λ h. absurd (cc h), λ i. elim i [ ])
is_listed-Listed code (entry ∷ registry) =
    let (into, back) = is_listed-Listed code registry in
    (
      λ h. elim (Bool-cases (entry.0 == code)) [
        | inl e ↦ inl ((string_eq.equal_iff entry.0 code).0 e)
        | inr e ↦ inr (into (rw e at h))
      ],
      λ i. elim i [
        | inl e ↦ rw ((string_eq.equal_iff entry.0 code).1 e) refl
        | inr j ↦ elim (Bool-cases (entry.0 == code)) [ inl e ↦ rw e refl | inr e ↦ rw e (back j) ]
      ],
    )

-- The three tests of the classification, from their results.
classified :
    (info unstructured listed : Bool) {S C L : Type 0}
    → (info ≡ true) ↔ S
    → (unstructured ≡ true) ↔ C
    → (listed ≡ true) ↔ L
    → (is_blocking (
          if info
          then complete_compatible
          else if unstructured
          then completeness_blocking
          else if listed
          then complete_compatible
          else completeness_blocking)
        ≡ false)
      ↔ (S ⊎ (¬ C × L))
classified true u l s c k = (λ h. inl (s.0 refl), λ i. refl)
classified false true l s c k = (
  λ h. absurd (cc h),
  λ i. elim i [ inl a ↦ absurd (cc (s.1 a)) | inr b ↦ absurd (b.0 (c.0 refl)) ],
)
classified false false true s c k = (λ h. inr (λ u. absurd (cc (c.1 u)), k.0 refl), λ i. refl)
classified false false false s c k = (
  λ h. absurd (cc h),
  λ i. elim i [ inl a ↦ absurd (cc (s.1 a)) | inr b ↦ absurd (cc (k.1 b.1)) ],
)

info_iff : (s : String) → (any (λ x. x == s) ("info" ∷ []) ≡ true) ↔ (s ≡ "info")
info_iff s = (
  λ h. elim (Bool-cases ("info" == s)) [
    | inl e ↦ sym ((string_eq.equal_iff "info" s).0 e)
    | inr e ↦ absurd (cc (rw e at h))
  ],
  λ e. rw ((string_eq.equal_iff "info" s).1 (sym e)) refl,
)

classify_diagnostic-IsCompatible :
    (registry : Option Rationales) (d : DiagnosticRecord)
    → (is_blocking (classify_diagnostic registry d) ≡ false) ↔ IsCompatible registry d
unfolding classify_diagnostic
classify_diagnostic-IsCompatible registry d =
    classified (any (λ x. x == d.severity) ("info" ∷ [])) (d.code == unstructured_code)
      (is_listed d.code (active_registry registry)) (info_iff d.severity)
      (string_eq.equal_iff d.code unstructured_code)
      (is_listed-Listed d.code (active_registry registry))

-- The count of an accepted record is positive.
occurrences-IsDiagnostic :
    (d : DiagnosticRecord) → IsDiagnostic d → (n : ℕ) × (d.occurrence_count ≡ pos (suc n))
unfolding build_diagnostic
occurrences-IsDiagnostic d h =
    let (_, h1) =
      raise_if-then (not (contains diagnostic_severities d.severity))
        (value_error "unknown diagnostic severity") _ h in
    let (_, h2) =
      raise_if-then (is_empty d.code) (value_error "diagnostic code must be non-empty") _ h1 in
    let (k, _) =
      raise_if-then (ltb_ℤ d.occurrence_count (pos 1))
        (value_error "occurrence_count must be at least 1") _ h2 in
    positive d.occurrence_count k
  where
    positive : (z : ℤ) → ltb_ℤ z (pos 1) ≡ false → (n : ℕ) × (z ≡ pos (suc n))
    positive (pos zero) h = absurd (cc h)
    positive (pos (suc n)) h = (n, refl)
    positive (negsuc n) h = absurd (ground arith)

add_pos : (a b : ℕ) → add_ℤ (pos a) (pos b) ≡ pos (a + b)
add_pos a b = ground arith

is_clean-filter :
    (registry : Option Rationales) (ds : List DiagnosticRecord)
    → (is_clean (filter (λ (d : DiagnosticRecord). is_blocking (classify_diagnostic registry d)) ds)
        ≡ true)
      ↔ All (IsCompatible registry) ds
is_clean-filter registry [] = (λ h. tt, λ h. refl)
is_clean-filter registry (d ∷ ds) =
    let (into, back) = classify_diagnostic-IsCompatible registry d in
    let (rest_into, rest_back) = is_clean-filter registry ds in
    elim (Bool-cases (is_blocking (classify_diagnostic registry d))) [
      | inl e ↦ rw e (λ h. absurd (cc h), λ h. absurd (cc (e, back h.0)))
      | inr e ↦ rw e (λ h. (into e, rest_into h), λ h. rest_back h.1)
    ]

-- A projection may be complete exactly when each diagnostic is an information, or is structured and
-- its code has a rationale in the registry.
pub diagnostics_allow_complete-IsCompatible :
    (registry : Option Rationales) (ds : List DiagnosticRecord)
    → (diagnostics_allow_complete registry ds ≡ true) ↔ All (IsCompatible registry) ds
unfolding diagnostics_allow_complete blocking_diagnostics
diagnostics_allow_complete-IsCompatible registry ds = is_clean-filter registry ds

-- The sum of accepted records is not negative, and zero only of none.
occurrences_of :
    (ds : List DiagnosticRecord)
    → All IsDiagnostic ds
    → (n : ℕ) × (sum_occurrences ds ≡ pos n) × ((n ≡ 0) ↔ (is_clean ds ≡ true))
occurrences_of [] h = (0, refl, (λ _. refl, λ _. refl))
occurrences_of (d ∷ ds) h =
    let (m, e) = occurrences-IsDiagnostic d h.0 in
    let (n, s, _) = occurrences_of ds h.1 in
    (suc m + n, rw (e, s) (add_pos (suc m) n), (λ z. absurd (omega arith), λ f. absurd (cc f)))

All-filter :
    (p : DiagnosticRecord → Bool) (ds : List DiagnosticRecord)
    → All IsDiagnostic ds
    → All IsDiagnostic (filter p ds)
All-filter p [] h = tt
All-filter p (d ∷ ds) h = elim (Bool-cases (p d)) [
  | inl e ↦ rw e (h.0, All-filter p ds h.1)
  | inr e ↦ rw e (All-filter p ds h.1)
]

blocking :
    (registry : Option Rationales) (ds : List DiagnosticRecord)
    → All IsDiagnostic ds
    → All IsDiagnostic (blocking_diagnostics registry ds)
unfolding blocking_diagnostics
blocking registry ds h =
    All-filter (λ (d : DiagnosticRecord). is_blocking (classify_diagnostic registry d)) ds h

-- Of accepted records, the blocking occurrences are none exactly when a projection may be complete.
pub blocking_occurrence_count-zero_iff :
    (registry : Option Rationales) (ds : List DiagnosticRecord)
    → All IsDiagnostic ds
    → (blocking_occurrence_count registry ds ≡ pos 0)
      ↔ (diagnostics_allow_complete registry ds ≡ true)
unfolding blocking_occurrence_count diagnostics_allow_complete
blocking_occurrence_count-zero_iff registry ds h =
    let (n, s, z) = occurrences_of (blocking_diagnostics registry ds) (blocking registry ds h) in
    (λ e. z.0 (ap pos_part (sym s ∙ e)), λ e. s ∙ ap pos (z.1 e))

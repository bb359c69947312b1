-- ===== src/Options/Ranges.antt =====
-- The ranges of the numbers that the parser of the options lets through.
use ctm.Prelude.{
  ℕ, ◌≤◌, ◌≡◌, refl, subst, if_pos, if_neg, Bool, true, Option-cases, inl, inr, List, [], ◌∷◌,
  Bytes, Bytes-discrete, some, find, All, arith, Result-cases, ok,
}
use ctm.Options.{RuntimeOptions, defaults, digits, bounded_integer}
use ctm.Options.Command.{
  Setting, help, flag, text, number, settings, apply_value, Parsed, overrides,
}

abbrev pub Between : ℕ → ℕ → ℕ → Type 0
Between minimum maximum n = (minimum ≤ n) × (n ≤ maximum)

-- The numbers that `validate` does not look at.
abbrev pub InRange : RuntimeOptions → Type 0
InRange o =
    Between 100 300000 o.telemetry_stale_after_ms
    × Between 1 4096 o.telemetry_max_values
    × Between 1024 1048576 o.telemetry_max_batch_bytes
    × Between 100 60000 o.model_rescan_ms
    × Between 1024 65536 o.provider_context_bytes
    × Between 64 2048 o.provider_max_output_tokens
    × Between 1 4096 o.retrieval_cache_capacity
    × Between 1 4096 o.interpretation_cache_capacity
    × Between 1000 86400000 o.cache_ttl_ms

pub defaults-InRange : InRange defaults
defaults-InRange = ground arith

bounded_integer-Between :
    (s : Bytes) (lo hi n : ℕ) → bounded_integer s lo hi ≡ ok n → Between lo hi n
unfolding bounded_integer
bounded_integer-Between [] lo hi n h = absurd (ground arith)
bounded_integer-Between (c ∷ s) lo hi n h = elim (Option-cases (digits (c ∷ s) 0)) [
  | inl bad ↦ absurd (ground (arith, bad))
  | inr (m, e) ↦ ground (arith, e)
]

-- A setting keeps the numbers in their ranges.
abbrev Keeps : Setting → Type 0
Keeps help = Unit
Keeps (flag set) = (o : RuntimeOptions) → InRange o → InRange (set o)
Keeps (text set) = (v : Bytes) (o : RuntimeOptions) → InRange o → InRange (set v o)
Keeps (number lo hi set) =
    (n : ℕ) (o : RuntimeOptions) → Between lo hi n → InRange o → InRange (set n o)

settings-Keeps : All (λ (entry : Bytes × Setting). Keeps entry.1) settings
settings-Keeps = (
  λ v o r. r,
  (
    λ v o r. r,
    (
      λ n o b r. r,
      (
        λ v o r. r,
        (
          λ v o r. r,
          (
            λ o r. r,
            (
              λ n o b r. ground (arith, b, r),
              (
                λ n o b r. ground (arith, b, r),
                (
                  λ n o b r. ground (arith, b, r),
                  (
                    λ n o b r. ground (arith, b, r),
                    (
                      λ v o r. r,
                      (
                        λ v o r. r,
                        (
                          λ v o r. r,
                          (
                            λ v o r. r,
                            (
                              λ n o b r. ground (arith, b, r),
                              (
                                λ n o b r. ground (arith, b, r),
                                (
                                  λ v o r. r,
                                  (
                                    λ n o b r. r,
                                    (
                                      λ n o b r. r,
                                      (
                                        λ o r. r,
                                        (
                                          λ o r. r,
                                          (
                                            λ n o b r. ground (arith, b, r),
                                            (
                                              λ n o b r. ground (arith, b, r),
                                              (
                                                λ n o b r. ground (arith, b, r),
                                                (
                                                  λ v o r. r,
                                                  (
                                                    λ v o r. r,
                                                    (
                                                      λ o r. r,
                                                      (
                                                        λ n o b r. r,
                                                        (
                                                          λ v o r. r,
                                                          (
                                                            λ n o b r. r,
                                                            (
                                                            λ n o b r. r,
                                                            (λ n o b r. r, (λ v o r. r, (tt, tt))),
                                                            ),
                                                          ),
                                                        ),
                                                      ),
                                                    ),
                                                  ),
                                                ),
                                              ),
                                            ),
                                          ),
                                        ),
                                      ),
                                    ),
                                  ),
                                ),
                              ),
                            ),
                          ),
                        ),
                      ),
                    ),
                  ),
                ),
              ),
            ),
          ),
        ),
      ),
    ),
  ),
)

found-All {κ} :
    (P : Setting → Type κ) (k : Bytes) (m : List (Bytes × Setting)) (v : Setting)
    → find Bytes-discrete k m ≡ some v
    → All (λ (entry : Bytes × Setting). P entry.1) m
    → P v
unfolding find
found-All P k [] v h a = absurd (ground arith)
found-All P k ((j, w) ∷ m) v h a = elim (Bytes-discrete j k) [
  | yes same ↦
      let e : w ≡ v =
        ground (arith, if_pos (Bytes-discrete j k) same (some w) (find Bytes-discrete k m)) in
      subst P e a.0
  | no other ↦
      found-All P k m v
        (ground (arith, if_neg (Bytes-discrete j k) other (some w) (find Bytes-discrete k m))) a.1
]

apply_value-InRange :
    (s : Setting) (v : Bytes) (o o' : RuntimeOptions)
    → Keeps s
    → InRange o
    → apply_value s v o ≡ ok o'
    → InRange o'
unfolding apply_value
apply_value-InRange help v o o' k r h =
    let same : o ≡ o' = ground (arith, h) in subst InRange same r
apply_value-InRange (flag set) v o o' k r h =
    let same : o ≡ o' = ground (arith, h) in subst InRange same r
apply_value-InRange (text set) v o o' k r h =
    let same : set v o ≡ o' = ground (arith, h) in subst InRange same (k v o r)
apply_value-InRange (number lo hi set) v o o' k r h =
    elim (Result-cases (bounded_integer v lo hi)) [
      | inl (e, failed) ↦ absurd (ground (arith, failed, h))
      | inr (n, read) ↦
          let same : set n o ≡ o' = ground (arith, read, h) in
          subst InRange same (k n o (bounded_integer-Between v lo hi n read) r)
    ]

apply_text :
    (set : Bytes → RuntimeOptions → RuntimeOptions) (value : Bytes) (o : RuntimeOptions)
    → apply_value (text set) value o ≡ ok (set value o)
unfolding apply_value
apply_text set value o = refl

-- One argument and those after it, by what the argument is.
pub overrides-InRange :
    (arguments : List Bytes) (o : RuntimeOptions) (shown : Bool) (parsed : Parsed)
    → InRange o
    → overrides arguments o shown ≡ ok parsed
    → InRange parsed.0
unfolding overrides
overrides-InRange [] o shown parsed r h =
    let same : (o, shown) ≡ parsed = ground (arith, h) in subst (λ (p : Parsed). InRange p.0) same r
overrides-InRange (argument ∷ []) o shown parsed r h =
    elim (Option-cases (find Bytes-discrete argument settings)) [
      | inl unknown ↦ absurd (ground (arith, unknown, h))
      | inr (help, e) ↦
          let same : (o, true) ≡ parsed = ground (arith, e, h) in
          subst (λ (p : Parsed). InRange p.0) same r
      | inr (flag set, e) ↦
          let same : (set o, shown) ≡ parsed = ground (arith, e, h) in
          subst (λ (p : Parsed). InRange p.0) same
            (found-All Keeps argument settings (flag set) e settings-Keeps o r)
      | inr (text set, e) ↦ absurd (ground (arith, e, h))
      | inr (number lo hi set, e) ↦ absurd (ground (arith, e, h))
    ]
overrides-InRange (argument ∷ value ∷ arguments) o shown parsed r h =
    elim (Option-cases (find Bytes-discrete argument settings)) [
      | inl unknown ↦ absurd (ground (arith, unknown, h))
      | inr (help, e) ↦ overrides-InRange (value ∷ arguments) o true parsed r (ground (arith, e, h))
      | inr (flag set, e) ↦
          overrides-InRange (value ∷ arguments) (set o) shown parsed
            (found-All Keeps argument settings (flag set) e settings-Keeps o r)
            (ground (arith, e, h))
      | inr (text set, e) ↦
          overrides-InRange arguments (set value o) shown parsed
            (found-All Keeps argument settings (text set) e settings-Keeps value o r)
            (ground (arith, e, h, apply_text set value o))
      | inr (number lo hi set, e) ↦ elim (Result-cases (apply_value (number lo hi set) value o)) [
        | inl (c, failed) ↦ absurd (ground (arith, e, failed, h))
        | inr (changed, did) ↦
            overrides-InRange arguments changed shown parsed
              (apply_value-InRange (number lo hi set) value o changed
                (found-All Keeps argument settings (number lo hi set) e settings-Keeps) r did)
              (ground (arith, e, did, h))
      ]
    ]

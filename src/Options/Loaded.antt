-- ===== src/Options/Loaded.antt =====
-- The numbers that the configuration file leaves in the options, as options_config.cpp reads it.
use ctm.Prelude.{
  ℕ, ◌≡◌, refl, subst, Bool, Option-cases, inl, inr, ◌⊎◌, List, [], ◌∷◌, Bytes, Option, arith, All,
  map, Result, Result-cases, ok, err, ◌>>=◌,
}
use ctm.Json.{JsonLibrary, member}
use ctm.Options.{Error, RuntimeOptions, defaults}
use ctm.Options.Config.{
  Rule, text_rule, boolean_rule, integer_rule, unsigned_rule, Rules, sections, integer_option,
  text_option, boolean_option, unsigned_option, apply_rule, apply_rules, read_section,
  require_allowed, read_sections, load_config,
}
use ctm.Options.Ranges.{Between, InRange, defaults-InRange}

-- A line of a section keeps the numbers in their ranges.
abbrev RuleKeeps : Rule → Type 0
RuleKeeps (text_rule get set) = (v : Bytes) (o : RuntimeOptions) → InRange o → InRange (set v o)
RuleKeeps (boolean_rule get set) = (v : Bool) (o : RuntimeOptions) → InRange o → InRange (set v o)
RuleKeeps (integer_rule lo hi get set) =
    (n : ℕ) (o : RuntimeOptions) → (Between lo hi n) ⊎ (n ≡ get o) → InRange o → InRange (set n o)
RuleKeeps (unsigned_rule get set) = (n : ℕ) (o : RuntimeOptions) → InRange o → InRange (set n o)

abbrev RulesKeep : Rules → Type 0
RulesKeep = All (λ (entry : Bytes × Rule). RuleKeeps entry.1)

sections-Keep : All (λ (entry : Bytes × Rules). RulesKeep entry.1) sections
sections-Keep = (
  (λ v o r. r, (λ n o b r. r, (λ v o r. r, (λ v o r. r, (λ v o r. r, tt))))),
  (
    (λ v o r. r, (λ v o r. r, (λ v o r. r, (λ n o b r. ground (arith, b, r), tt)))),
    (
      (
        λ n o b r. ground (arith, b, r),
        (λ n o b r. ground (arith, b, r), (λ n o b r. ground (arith, b, r), tt)),
      ),
      (
        (
          λ v o r. r,
          (
            λ v o r. r,
            (
              λ n o b r. r,
              (
                λ n o b r. ground (arith, b, r),
                (λ n o b r. ground (arith, b, r), (λ v o r. r, (λ v o r. r, tt))),
              ),
            ),
          ),
        ),
        (
          (
            λ n o b r. ground (arith, b, r),
            (λ n o b r. ground (arith, b, r), (λ n o b r. ground (arith, b, r), tt)),
          ),
          (
            (λ v o r. r, tt),
            (
              (λ v o r. r, (λ v o r. r, (λ n o r. r, tt))),
              ((λ v o r. r, (λ n o b r. r, (λ n o b r. r, (λ n o b r. r, tt)))), tt),
            ),
          ),
        ),
      ),
    ),
  ),
)

-- What a rule sets after it has read its value.
set_after {ℓ} :
    {A : Type ℓ} (m : Result Error A) (set : A → RuntimeOptions) (o' : RuntimeOptions)
    → (m >>= λ v. ok (set v)) ≡ ok o'
    → (v : A) × (m ≡ ok v) × (set v ≡ o')
set_after (ok v) set o' h = (v, refl, ground (arith, h))
set_after (err e) set o' h = absurd (ground arith)

module _ (J : JsonLibrary) where
  open J use {Json, kind}

  integer_option-Between :
      (section : Json) (key : Bytes) (fallback lo hi n : ℕ)
      → integer_option J section key fallback lo hi ≡ ok n
      → (Between lo hi n) ⊎ (n ≡ fallback)
  unfolding integer_option
  integer_option-Between section key fallback lo hi n h = ground (arith, h)

  apply_rule-InRange :
      (section : Json) (key : Bytes) (rule : Rule) (o o' : RuntimeOptions)
      → RuleKeeps rule
      → InRange o
      → apply_rule J section key rule o ≡ ok o'
      → InRange o'
  unfolding apply_rule
  apply_rule-InRange section key (text_rule get set) o o' k r h =
      let (v, _, same) = set_after (text_option J section key (get o)) (λ v. set v o) o' h in
      subst InRange same (k v o r)
  apply_rule-InRange section key (boolean_rule get set) o o' k r h =
      let (v, _, same) = set_after (boolean_option J section key (get o)) (λ v. set v o) o' h in
      subst InRange same (k v o r)
  apply_rule-InRange section key (integer_rule lo hi get set) o o' k r h =
      let (n, read, same) =
        set_after (integer_option J section key (get o) lo hi) (λ v. set v o) o' h in
      subst InRange same (k n o (integer_option-Between section key (get o) lo hi n read) r)
  apply_rule-InRange section key (unsigned_rule get set) o o' k r h =
      let (n, _, same) = set_after (unsigned_option J section key (get o)) (λ v. set v o) o' h in
      subst InRange same (k n o r)

  apply_rules-InRange :
      (section : Json) (rules : Rules) (o o' : RuntimeOptions)
      → RulesKeep rules
      → InRange o
      → apply_rules J section rules o ≡ ok o'
      → InRange o'
  unfolding apply_rules
  apply_rules-InRange section [] o o' k r h =
      let same : o ≡ o' = ground (arith, h) in subst InRange same r
  apply_rules-InRange section ((key, rule) ∷ rules) o o' k r h =
      elim (Result-cases (apply_rule J section key rule o)) [
        | inl (e, failed) ↦ absurd (ground (arith, failed, h))
        | inr (changed, did) ↦
            apply_rules-InRange section rules changed o' k.1
              (apply_rule-InRange section key rule o changed k.0 r did) (ground (arith, did, h))
      ]

  read_section-InRange :
      (config : Json) (name : Bytes) (rules : Rules) (o o' : RuntimeOptions)
      → RulesKeep rules
      → InRange o
      → read_section J config name rules o ≡ ok o'
      → InRange o'
  unfolding read_section
  read_section-InRange config name rules o o' k r h = elim (Option-cases (member J config name)) [
    | inl missing ↦ let same : o ≡ o' = ground (arith, missing, h) in subst InRange same r
    | inr (section, found) ↦
        elim (Result-cases
          (require_allowed J section (map (λ (entry : Bytes × Rule). entry.0) rules))) [
            | inl (e, failed) ↦ absurd (ground (arith, found, failed, h))
            | inr (_, fine) ↦
                apply_rules-InRange section rules o o' k r (ground (arith, found, fine, h))
          ]
  ]

  read_sections-InRange :
      (config : Json) (all : List (Bytes × Rules)) (o o' : RuntimeOptions)
      → All (λ (entry : Bytes × Rules). RulesKeep entry.1) all
      → InRange o
      → read_sections J config all o ≡ ok o'
      → InRange o'
  unfolding read_sections
  read_sections-InRange config [] o o' k r h =
      let same : o ≡ o' = ground (arith, h) in subst InRange same r
  read_sections-InRange config ((name, rules) ∷ rest) o o' k r h =
      elim (Result-cases (read_section J config name rules o)) [
        | inl (e, failed) ↦ absurd (ground (arith, failed, h))
        | inr (changed, did) ↦
            read_sections-InRange config rest changed o' k.1
              (read_section-InRange config name rules o changed k.0 r did) (ground (arith, did, h))
      ]

  -- The options of a configuration file that is accepted.
  pub load_config-InRange :
      (files : Bytes → Option Bytes) (parse : Bytes → Option Json) (path : Bytes)
      (o : RuntimeOptions)
      → load_config J files parse path ≡ ok o
      → InRange o
  unfolding load_config
  load_config-InRange files parse path o h = elim (Option-cases (files path)) [
    | inl missing ↦ absurd (ground (arith, missing, h))
    | inr (body, found) ↦ elim (Option-cases (parse body)) [
      | inl bad ↦ absurd (ground (arith, found, bad, h))
      | inr (config, parsed) ↦ elim (Result-cases (read_sections J config sections defaults)) [
        | inl (e, failed) ↦ absurd (ground (arith, found, parsed, failed, h))
        | inr (read, did) ↦
            let same : record read { config_file = path } ≡ o =
              ground (arith, found, parsed, did, h) in
            subst InRange same (
              read_sections-InRange config sections defaults read sections-Keep defaults-InRange
                did)
      ]
    ]
  ]

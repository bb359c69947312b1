-- ===== src/Logger/Shift.antt =====
-- What a rotation of diagnostic_logger.cpp does to the files when no rename fails.
use ctm.Prelude.{
  ℕ, zero, suc, ◌-◌, ◌<◌, ◌≡◌, ◌≢◌, refl, sym, subst, inl, inr, Bool, true, Bytes, Option, none,
  some, arith, Option-cases, ok, ap, ◌∙◌, ℕ_discrete,
}
use ctm.Logger.{Config}
use ctm.Logger.Rotation.{absent, Archives, Files, Environment, put_archive, shift, rotate}

-- `a`, or else `b`.
abbrev pub or_else {ℓ} : {A : Type ℓ} → Option A → Option A → Option A
or_else none b = b
or_else (some a) b = some a

-- The loop from `index = n + 1` down moves each of the archives `1` to `n` one place up. The place `n + 1`
-- keeps its file when none is moved there, the others are untouched, and `1` is free if `n` is positive.
record Shifted (n : ℕ) (before after : Archives) : Type 0 where
  moved : (i : ℕ) → 0 < i → i < n → after (suc i) ≡ before i
  last : 0 < n → after (suc n) ≡ or_else (before n) (before (suc n))
  free : 0 < n → after 1 ≡ none
  above : (i : ℕ) → suc n < i → after i ≡ before i
  none_moved : n ≡ 0 → after 1 ≡ before 1

or_else-none : {A : Type 0} (a : Option A) → or_else a none ≡ a
or_else-none none = refl
or_else-none (some a) = refl

-- One round of the loop.
record Moved (k : ℕ) (a b : Archives) : Type 0 where
  from : b (suc k) ≡ none
  to : b (suc (suc k)) ≡ or_else (a (suc k)) (a (suc (suc k)))
  others : (j : ℕ) → j ≢ suc k → j ≢ suc (suc k) → b j ≡ a j

shift-suc :
    (renames : ℕ → Bool) (k : ℕ) (a : Archives)
    → ((i : ℕ) → renames i ≡ true)
    → (b : Archives) × (shift renames (suc k) a ≡ shift renames k b) × Moved k a b
unfolding shift put_archive
shift-suc renames k a all = elim (Option-cases (a (suc k))) [
  | inl empty ↦ (
    a,
    ground (arith, empty),
    record { from = empty; to = ground (arith, empty); others = λ j h h'. refl },
  )
  | inr (older, found) ↦ (
    put_archive (suc k) none (put_archive (suc (suc k)) (some older) a),
    ground (arith, found, all (suc (suc k))),
    record {
      from = ground arith;
      to = ground (arith, found);
      others = λ j h h'. ground (arith, h, h');
    },
  )
]

Shifted-suc : (k : ℕ) (a b c : Archives) → Moved k a b → Shifted k b c → Shifted (suc k) a c
Shifted-suc k a b c m s = record {
  moved = λ i positive small. elim (ℕ_discrete i k) [
    | yes same ↦ rw same (
        s.last (omega (arith, same, positive))
        ∙ ap (or_else (b k)) m.from
        ∙ or_else-none (b k)
        ∙ m.others k (omega arith) (omega arith))
    | no different ↦
        s.moved i positive (omega (arith, different, small))
        ∙ m.others i (omega (arith, small)) (omega (arith, small))
  ];
  last = λ positive. s.above (suc (suc k)) (omega arith) ∙ m.to;
  free = λ positive. elim (ℕ_discrete k 0) [
    | yes first ↦ s.none_moved first ∙ ap (λ n. b (suc n)) (sym first) ∙ m.from
    | no later ↦ s.free (omega (arith, later))
  ];
  above = λ i large. s.above i (omega arith) ∙ m.others i (omega arith) (omega arith);
  none_moved = λ e. absurd (omega arith);
}

shift-Shifted :
    (renames : ℕ → Bool) (n : ℕ) (a : Archives)
    → ((i : ℕ) → renames i ≡ true)
    → ((shift renames n a).1 ≡ true) × Shifted n a (shift renames n a).0
unfolding shift
shift-Shifted renames zero a all = (
  refl,
  record {
    moved = λ i positive small. absurd (omega arith);
    last = λ positive. absurd (omega arith);
    free = λ positive. absurd (omega arith);
    above = λ i large. refl;
    none_moved = λ e. refl;
  },
)
shift-Shifted renames (suc k) a all =
    let (b, same, m) = shift-suc renames k a all in
    let (went, s) = shift-Shifted renames k b all in
    rw same (went, Shifted-suc k a b (shift renames k b).0 m s)

-- What a rotation leaves: the log is free, its text is in the first archive, every archive but the
-- last is one place up, and the files beyond are untouched.
pub record Rotated (config : Config) (contents : Bytes) (before : Archives) (files : Files)
    : Type 0 where
  current : files.current ≡ absent
  newest : files.archives 1 ≡ some contents
  moved : (i : ℕ) → 0 < i → suc i < config.rotation_files → files.archives (suc i) ≡ before i
  oldest :
      1 < config.rotation_files
      → files.archives config.rotation_files
        ≡ or_else (before (config.rotation_files - 1)) (before config.rotation_files)
  beyond : (i : ℕ) → config.rotation_files < i → files.archives i ≡ before i

-- When no rename fails, `rotate` succeeds: the log becomes the first archive and every archive moves
-- one place up, so that at most the file in the last place is lost, and only to a newer one.
pub rotate-Rotated :
    (config : Config) (env : Environment) (contents : Bytes) (archives : Archives)
    → 0 < config.rotation_files
    → ((i : ℕ) → env.renames i ≡ true)
    → ((rotate config env contents archives).1 ≡ ok tt)
      × Rotated config contents archives (rotate config env contents archives).0
unfolding rotate put_archive
rotate-Rotated config env contents archives positive all =
    let (went, s) = shift-Shifted env.renames (config.rotation_files - 1) archives all in
    let shifted = (shift env.renames (config.rotation_files - 1) archives).0 in
    let untouched : (i : ℕ)
        → 1 < i
        → (rotate config env contents archives).0.archives i ≡ shifted i =
      λ i h. ground (arith, went, all 1) in
    let last : suc (config.rotation_files - 1) ≡ config.rotation_files = omega arith in
    (
      ground (arith, went, all 1),
      record {
        current = ground (arith, went, all 1);
        newest = ground (arith, went, all 1);
        moved = λ i h k. untouched (suc i) (omega (arith, h)) ∙ s.moved i h (omega (arith, k));
        oldest = λ h.
            untouched config.rotation_files h
            ∙ subst (λ n. shifted n ≡ or_else (archives (config.rotation_files - 1)) (archives n))
                last (s.last (omega (arith, h)));
        beyond = λ i h.
            untouched i (omega (arith, h, positive)) ∙ s.above i (omega (arith, h, positive));
      },
    )

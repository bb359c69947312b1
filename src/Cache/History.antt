-- ===== src/Cache/History.antt =====
-- Whole histories of calls of bounded_cache.cpp, against the plain list.
use ctm.Prelude.{
  ℕ, suc, ◌+◌, ◌≤◌, ◌≡◌, refl, sym, ap, ◌∙◌, inl, inr, Option-cases, List, [], ◌∷◌, Option, none,
  some, arith, leb, if◌then◌else◌, length, find, add64, ok, err, ◌⊎◌,
}
use ctm.Cache.{Cache, Config, Entry, limits_out_of_range, create, get, put, clear, snapshot}
use ctm.Cache.Lru
use ctm.Cache.Lru.{Slot}
use ctm.Cache.Nodes.{strip, length-strip}
use ctm.Cache.Represents.{Represents}
use ctm.Cache.Refine.{WithinLimits, fresh, fresh-Represents, create-fresh, get-Represents}
use ctm.Cache.Put.{put-Represents}

pub data Call {ℓ} (K V : Type ℓ) : Type ℓ where
  gets : K → ℕ → Call K V
  puts : K → V → ℕ → Call K V
  clears : Call K V

-- The answers of the `get` calls of a history, oldest first.
abbrev pub answer {ℓ} : {A V : Type ℓ} → Option V → A × List (Option V) → A × List (Option V)
answer v (a, vs) = (a, v ∷ vs)

abbrev pub then_answer {ℓ} :
    {A V : Type ℓ} → Option V → Option (A × List (Option V)) → Option (A × List (Option V))
then_answer v none = none
then_answer v (some r) = some (answer v r)

module _ {ℓ} {K V : Type ℓ} (dec : Discrete K) where
  unfoldable pub run : Cache K V → List (Call K V) → Option (Cache K V × List (Option V))
  run c [] = some (c, [])
  run c (gets k now ∷ calls) = elim (get dec c k now) [
    | none ↦ none
    | some (d, v) ↦ then_answer v (run d calls)
  ]
  run c (puts k v now ∷ calls) = elim (put dec c k v now) [ none ↦ none | some d ↦ run d calls ]
  run c (clears ∷ calls) = run (clear c) calls

  unfoldable pub ideal :
      Config → List (K × Slot V) → List (Call K V) → List (K × Slot V) × List (Option V)
  ideal f l [] = (l, [])
  ideal f l (gets k now ∷ calls) =
      answer (Lru.get dec l k now).1 (ideal f (Lru.get dec l k now).0 calls)
  ideal f l (puts k v now ∷ calls) = ideal f (Lru.put dec f.capacity f.time_to_live l k v now) calls
  ideal f l (clears ∷ calls) = ideal f [] calls

  -- The cache `c` is well-formed and holds the slots `l`.
  pub record Holds (f : Config) (c : Cache K V) (l : List (K × Slot V)) : Type ℓ where
    pub items : List (K × Entry V)
    pub represents : Represents dec c items
    pub slots : strip items ≡ l
    pub config : c.config ≡ f

  -- The history ends, with the answers and the slots of the plain list.
  abbrev pub Refines : Config → Cache K V → List (K × Slot V) → List (Call K V) → Type ℓ
  Refines f c l calls =
      (c' : Cache K V) × (run c calls ≡ some (c', (ideal f l calls).1))
      × Holds f c' (ideal f l calls).0

  clear-Represents :
      {c : Cache K V} {items : List (K × Entry V)}
      → Represents dec c items
      → Represents dec (clear c) []
  unfolding clear
  clear-Represents r = record {
    positive = r.positive;
    bounded = omega arith;
    recency = refl;
    table = λ q. refl;
    size = refl;
    entry_keys = tt;
    keys = tt;
    ids = tt;
    fresh = tt;
  }

  clear-config : (c : Cache K V) → (clear c).config ≡ c.config
  unfolding clear
  clear-config c = refl

  run-Refines :
      (calls : List (Call K V)) (f : Config) {c : Cache K V} {items : List (K × Entry V)}
      → Represents dec c items
      → c.config ≡ f
      → Refines f c (strip items) calls
  unfolding run ideal
  run-Refines [] f {c} {items} r e =
      (c, refl, record { items = items; represents = r; slots = refl; config = e })
  run-Refines (gets k now ∷ calls) f r e =
      let (d, rest, v, g, s, r', e') = get-Represents dec r k now in
      let (c', p, h) = run-Refines calls f r' (e' ∙ e) in (c', rw (g, run, p, s), rw s h)
  run-Refines (puts k v now ∷ calls) f {c} {items} r e =
      let (d, rest, g, s, r', e') = put-Represents dec r k v now in
      let s' =
        ap (λ (x : Config). Lru.put dec x.capacity x.time_to_live (strip items) k v now) (sym e)
        ∙ s in
      let (c', p, h) = run-Refines calls f r' (e' ∙ e) in
      (c', rw (g, run, s', ideal) p, rw (s', ideal) h)
  run-Refines (clears ∷ calls) f {c} r e =
      run-Refines calls f (clear-Represents r) (clear-config c ∙ e)

  -- From a new cache within the limits every history of calls is free of undefined behaviour,
  -- and its answers and final slots are those of the plain list; the constructor throws outside
  -- the limits.
  pub create-run :
      (f : Config) (calls : List (Call K V))
      → ((c : Cache K V) × (create f ≡ ok c) × WithinLimits f × Refines f c [] calls)
        ⊎ ((create {K = K} {V = V} f ≡ err limits_out_of_range) × (¬ WithinLimits f))
  create-run f calls = elim (create-fresh {V = V} dec f) [
    | inl (made, limits) ↦
        inl (fresh f, made, limits, run-Refines calls f (fresh-Represents dec f limits.0) refl)
    | inr refused ↦ inr refused
  ]

  -- However it was used, a cache within the limits never reports more entries than its capacity.
  pub entries-le-capacity :
      (f : Config) (calls : List (Call K V))
      → WithinLimits f
      → (c : Cache K V) × (run (fresh f) calls ≡ some (c, (ideal f [] calls).1))
        × ((snapshot c).entries ≤ f.capacity)
        × ((snapshot c).entries ≡ length (ideal f [] calls).0)
  unfolding snapshot
  entries-le-capacity f calls h =
      let (c, e, holds) = run-Refines calls f (fresh-Represents dec f h.0) refl in
      let r = holds.represents in
      (
        c,
        e,
        omega (arith, r.size, r.bounded, ap (λ (x : Config). x.capacity) holds.config),
        omega (arith, r.size, length-strip holds.items, ap length holds.slots),
      )

  get-put-Lru :
      (cap ttl : ℕ) (l : List (K × Slot V)) (k : K) (v : V) (now later : ℕ)
      → (Lru.get dec (Lru.put dec cap ttl l k v now) k later).1
        ≡ (if leb (now + ttl) later then none else some v)
  unfolding Lru.get Lru.put find
  get-put-Lru cap ttl l k v now later = ground arith

  -- A `get` after a `put` of the same key returns the value until the time to live has passed,
  -- and nothing from then on; neither call is undefined.
  pub get-put :
      {c : Cache K V} {items : List (K × Entry V)} (k : K) (v : V) (now later : ℕ)
      → Represents dec c items
      → (d e : Cache K V) × (put dec c k v now ≡ some d)
        × (get dec d k later ≡ some (e, if leb (now + c.time_to_live) later then none else some v))
  get-put {c} {items} k v now later r =
      let (d, rest, p, s, r', _) = put-Represents dec r k v now in
      let (e, _, a, g, t, _, _) = get-Represents dec r' k later in
      let answers =
        sym (ap (λ (x : List (K × Slot V) × Option V). x.1) t)
        ∙ ap (λ l. (Lru.get dec l k later).1) (sym s)
        ∙ get-put-Lru c.capacity c.time_to_live (strip items) k v now later in
      (d, e, p, rw (← answers) g)

  pub gets_of : List (Call K V) → ℕ
  gets_of [] = 0
  gets_of (gets k now ∷ calls) = suc (gets_of calls)
  gets_of (puts k v now ∷ calls) = gets_of calls
  gets_of (clears ∷ calls) = gets_of calls

  counted-get :
      (c d : Cache K V) (k : K) (now : ℕ) (v : Option V)
      → get dec c k now ≡ some (d, v)
      → add64 d.hits d.misses ≡ add64 (add64 c.hits c.misses) 1
  unfolding get
  counted-get c d k now v h = ground arith

  counted-put :
      (c d : Cache K V) (k : K) (v : V) (now : ℕ)
      → put dec c k v now ≡ some d
      → add64 d.hits d.misses ≡ add64 c.hits c.misses
  unfolding put
  counted-put c d k v now h = ground arith

  counted-clear : (c : Cache K V) → add64 (clear c).hits (clear c).misses ≡ add64 c.hits c.misses
  unfolding clear
  counted-clear c = refl

  -- Every `get` is counted once, as a hit or as a miss (modulo the width of the counters).
  pub hits-misses-run :
      (c d : Cache K V) (calls : List (Call K V)) (answers : List (Option V))
      → run c calls ≡ some (d, answers)
      → add64 d.hits d.misses ≡ add64 (add64 c.hits c.misses) (gets_of calls)
  unfolding run gets_of
  hits-misses-run c d [] answers h = ground arith
  hits-misses-run c d (gets k now ∷ calls) answers h = elim (Option-cases (get dec c k now)) [
    | inl e ↦ absurd (ground (arith, e))
    | inr ((c', v), e) ↦ elim (Option-cases (run c' calls)) [
      | inl e' ↦ absurd (ground (arith, e, e'))
      | inr ((d', vs), e') ↦
          ground (arith, e, e', hits-misses-run c' d' calls vs e', counted-get c c' k now v e)
    ]
  ]
  hits-misses-run c d (puts k v now ∷ calls) answers h = elim (Option-cases (put dec c k v now)) [
    | inl e ↦ absurd (ground (arith, e))
    | inr (c', e) ↦
        ground (arith, e, hits-misses-run c' d calls answers, counted-put c c' k v now e)
  ]
  hits-misses-run c d (clears ∷ calls) answers h =
      omega (arith, hits-misses-run (clear c) d calls answers h, counted-clear c)

-- ===== src/Cache/Refine.antt =====
-- The constructor and `get` of bounded_cache.cpp on a well-formed cache: what they compute, and the
-- entries in recency order that they leave.
use ctm.Prelude.{
  ℕ, ◌≤◌, ◌<◌, ◌≡◌, refl, inl, inr, Bool, true, false, List, [], ◌∷◌, Option, none, some, arith,
  leb, Bool-cases, Option-cases, find, erase, add64, ok, err, ltb, ◌==◌, ◌||◌, ◌⊎◌,
}
use ctm.Cache.{limits_out_of_range, Cache, Config, Entry, create, get}
use ctm.Cache.Lru
use ctm.Cache.Lru.{Slot, drop_last}
use ctm.Cache.Nodes.{nodes, strip, find-strip, strip-erase}
use ctm.Cache.Represents.{
  Represents, erase-Represents, touch-Represents, splice-nodes, erase_locked-nodes,
  counters-Represents,
}

-- The limits that the constructor enforces.
abbrev pub WithinLimits : Config → Type 0
WithinLimits config =
    (0 < config.capacity)
    × (config.capacity ≤ 4096)
    × (1000 ≤ config.time_to_live)
    × (config.time_to_live ≤ 86_400_000)

-- What the constructor builds.
abbrev pub fresh {ℓ} : {K V : Type ℓ} → Config → Cache K V
fresh config = record {
  config = config;
  recency = [];
  entries = [];
  next_node = 0;
  hits = 0;
  misses = 0;
  expirations = 0;
  evictions = 0;
  invalidations = 0;
}

module _ {ℓ} {K V : Type ℓ} (dec : Discrete K) where
  pub fresh-Represents :
      (config : Config) → 0 < config.capacity → Represents {V = V} dec (fresh config) []
  fresh-Represents config h = record {
    positive = h;
    bounded = omega arith;
    recency = refl;
    table = λ q. refl;
    size = refl;
    entry_keys = tt;
    keys = tt;
    ids = tt;
    fresh = tt;
  }

  -- The constructor accepts a configuration exactly when it is within the limits.
  pub create-fresh :
      (config : Config)
      → ((create {K = K} {V = V} config ≡ ok (fresh config)) × WithinLimits config)
        ⊎ ((create {K = K} {V = V} config ≡ err limits_out_of_range) × (¬ WithinLimits config))
  unfolding create
  create-fresh config = elim (Bool-cases test) [
    | inl bad ↦ inr (rw bad, λ h. ground (arith, h, bad))
    | inr fine ↦ inl (rw fine, ground arith)
  ]
    where
      test : Bool
      test =
          config.capacity == 0
          || ltb 4096 config.capacity
          || ltb config.time_to_live 1000
          || ltb 86_400_000 config.time_to_live

  module _ {c : Cache K V} {items : List (K × Entry V)} (r : Represents dec c items) (k : K) where
    module _ (now : ℕ) where
      abbrev GetsAs : Cache K V → List (K × Entry V) → Option V → Type ℓ
      GetsAs c' items' v =
          (get dec c k now ≡ some (c', v)) × (Lru.get dec (strip items) k now ≡ (strip items', v))

      get-miss :
          find dec k items ≡ none → GetsAs (record c { misses = add64 c.misses 1 }) items none
      unfolding get Lru.get
      get-miss f = ground (arith, find-strip dec k items, r.table k)

      get-expired :
          (e : Entry V)
          → find dec k items ≡ some e
          → leb e.expires_at now ≡ true
          → GetsAs
              (record c {
                recency = nodes (erase dec k items);
                entries = erase dec k c.entries;
                expirations = add64 c.expirations 1;
                misses = add64 c.misses 1;
              })
              (erase dec k items)
              none
      unfolding get Lru.get
      get-expired e f dead = ground (
        arith,
        find-strip dec k items,
        strip-erase dec k items,
        r.table k,
        erase_locked-nodes dec r k e f,
      )

      get-hit :
          (e : Entry V)
          → find dec k items ≡ some e
          → leb e.expires_at now ≡ false
          → GetsAs
              (record c { recency = nodes ((k, e) ∷ erase dec k items); hits = add64 c.hits 1 })
              ((k, e) ∷ erase dec k items)
              (some e.value)
      unfolding get Lru.get
      get-hit e f live = ground (
        arith,
        find-strip dec k items,
        strip-erase dec k items,
        r.table k,
        splice-nodes dec r k e f,
      )

      pub get-Represents :
          (c' : Cache K V) × (items' : List (K × Entry V)) × (v : Option V) × (get dec c k now
            ≡ some (c', v))
          × (Lru.get dec (strip items) k now ≡ (strip items', v))
          × Represents dec c' items'
          × (c'.config ≡ c.config)
      get-Represents = elim (Option-cases (find dec k items)) [
        | inl f ↦
            let (g, s) = get-miss f in (_, _, _, g, s, counters-Represents dec _ _ _ _ _ r, refl)
        | inr (e, f) ↦ elim (Bool-cases (leb e.expires_at now)) [
          | inl dead ↦
              let (g, s) = get-expired e f dead in
              (
                _,
                _,
                _,
                g,
                s,
                counters-Represents dec _ _ _ _ _ (erase-Represents dec r k e f),
                refl,
              )
          | inr live ↦
              let (g, s) = get-hit e f live in
              (
                _,
                _,
                _,
                g,
                s,
                counters-Represents dec _ _ _ _ _ (touch-Represents dec r k e f),
                refl,
              )
        ]
      ]

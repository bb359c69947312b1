-- ===== src/Cache.antt =====
-- src/context_hmi/bounded_cache.hpp and bounded_cache.cpp: `BoundedJsonCache`.
-- The recency list is a `std::list` of keys whose nodes are named by numbers, and an entry holds
-- the number of its node, as the source holds an iterator. `none` is undefined behaviour: an
-- iterator to a node that is gone, or `back` of an empty list. Keys and values are parameters
-- (`std::string` and `Json`, which the cache only compares and copies). Each method runs under the
-- lock; the clock reading is its argument `now`, in the unit of `time_to_live`.
pub mod Lru
pub mod Nodes
pub mod Represents
pub mod Refine
pub mod Put
pub mod History
pub mod Tests
use ctm.Prelude.{
  ℕ, suc, ◌+◌, ite, Bool, true, false, ◌||◌, List, [], ◌∷◌, Option, none, some, ltb, leb, ◌==◌,
  if◌then◌else◌, ℕ_discrete, length, find, assign, erase, add64, Result, ok, err,
}

pub record Config : Type 0 where
  pub capacity : ℕ
  -- milliseconds
  pub time_to_live : ℕ

pub data Error : Type 0 where
  limits_out_of_range : Error

-- A node of the recency list.
pub record Node {ℓ} (K : Type ℓ) : Type ℓ where
  pub id : ℕ
  pub key : K

pub record Entry {ℓ} (V : Type ℓ) : Type ℓ where
  pub value : V
  pub expires_at : ℕ
  pub recency : ℕ

pub record Cache {ℓ} (K V : Type ℓ) : Type ℓ where
  pub config : Config
  pub open config use *
  pub recency : List (Node K)
  pub entries : List (K × Entry V)
  pub next_node : ℕ
  pub hits : ℕ
  pub misses : ℕ
  pub expirations : ℕ
  pub evictions : ℕ
  pub invalidations : ℕ

-- The constructor.
unfoldable pub create {ℓ} : {K V : Type ℓ} → Config → Result Error (Cache K V)
create config =
    if config.capacity == 0
      || ltb 4096 config.capacity
      || ltb config.time_to_live 1000
      || ltb 86_400_000 config.time_to_live
    then err limits_out_of_range
    else ok (record {
      config = config;
      recency = [];
      entries = [];
      next_node = 0;
      hits = 0;
      misses = 0;
      expirations = 0;
      evictions = 0;
      invalidations = 0;
    })

module _ {ℓ} {K : Type ℓ} where
  -- `list.erase(node)`: the node's key, and the list without the node.
  unfoldable pub unlink : ℕ → List (Node K) → Option (K × List (Node K))
  unlink i [] = none
  unlink i (n ∷ ns) =
      ite (ℕ_discrete n.id i) (some (n.key, ns))
        (elim (unlink i ns) [ none ↦ none | some (k, rest) ↦ some (k, n ∷ rest) ])

  -- `list.splice(list.begin(), list, node)`.
  unfoldable pub splice_front : ℕ → List (Node K) → Option (List (Node K))
  splice_front i ns = elim (unlink i ns) [
    | none ↦ none
    | some (k, rest) ↦ some (record { id = i; key = k } ∷ rest)
  ]

  -- `list.back()`.
  unfoldable pub back : List (Node K) → Option K
  back [] = none
  back (n ∷ []) = some n.key
  back (n ∷ m ∷ ns) = back (m ∷ ns)

module _ {ℓ} {K V : Type ℓ} (dec : Discrete K) where
  -- `location` is the entry that `find` returned, with its key.
  unfoldable pub erase_locked : Cache K V → K → Entry V → Option (Cache K V)
  erase_locked c key location = elim (unlink location.recency c.recency) [
    | none ↦ none
    | some (_, rest) ↦ some (record c { recency = rest; entries = erase dec key c.entries })
  ]

  unfoldable pub get : Cache K V → K → ℕ → Option (Cache K V × Option V)
  unfolding erase_locked
  get c key now = elim (find dec key c.entries) [
    | none ↦ some (record c { misses = add64 c.misses 1 }, none)
    | some found ↦
        if leb found.expires_at now
        then elim (erase_locked c key found) [
          | none ↦ none
          | some d ↦
              some
                (record d { expirations = add64 d.expirations 1; misses = add64 d.misses 1 }, none)
        ]
        else elim (splice_front found.recency c.recency) [
          | none ↦ none
          | some moved ↦
              some (record c { recency = moved; hits = add64 c.hits 1 }, some found.value)
        ]
  ]

  -- The eviction in `put`.
  unfoldable pub make_room : Cache K V → Option (Cache K V)
  unfolding erase_locked
  make_room c =
      if leb c.capacity (length c.entries)
      then elim (back c.recency) [
        | none ↦ none
        | some key ↦ elim (find dec key c.entries) [
          | none ↦ some c
          | some oldest ↦ elim (erase_locked c key oldest) [
            | none ↦ none
            | some d ↦ some (record d { evictions = add64 d.evictions 1 })
          ]
        ]
      ]
      else some c

  unfoldable pub put : Cache K V → K → V → ℕ → Option (Cache K V)
  unfolding make_room
  put c key value now =
      let expiration = now + c.time_to_live in
      elim (find dec key c.entries) [
        | some existing ↦ elim (splice_front existing.recency c.recency) [
          | none ↦ none
          | some moved ↦
              let entry = record existing { value = value; expires_at = expiration } in
              some (record c { recency = moved; entries = assign dec key entry c.entries })
        ]
        | none ↦ elim (make_room c) [
          | none ↦ none
          | some d ↦ some (record d {
            recency = record { id = d.next_node; key = key } ∷ d.recency;
            entries =
                assign dec key
                  (record { value = value; expires_at = expiration; recency = d.next_node })
                  d.entries;
            next_node = suc d.next_node;
          })
        ]
      ]

unfoldable pub clear {ℓ} : {K V : Type ℓ} → Cache K V → Cache K V
clear c = record c {
  invalidations = add64 c.invalidations (length c.entries);
  entries = [];
  recency = [];
}

-- What `snapshot` reports.
pub record Snapshot : Type 0 where
  pub entries : ℕ
  pub capacity : ℕ
  pub ttl_ms : ℕ
  pub hits : ℕ
  pub misses : ℕ
  pub expirations : ℕ
  pub evictions : ℕ
  pub invalidations : ℕ

unfoldable pub snapshot {ℓ} : {K V : Type ℓ} → Cache K V → Snapshot
snapshot c = record {
  entries = length c.entries;
  capacity = c.capacity;
  ttl_ms = c.time_to_live;
  hits = c.hits;
  misses = c.misses;
  expirations = c.expirations;
  evictions = c.evictions;
  invalidations = c.invalidations;
}

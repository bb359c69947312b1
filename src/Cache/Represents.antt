-- ===== src/Cache/Represents.antt =====
-- The well-formed caches of bounded_cache.cpp, and what the steps that its methods share (taking an
-- entry out, moving its node to the front, adding one) do to them.
use ctm.Prelude.{
  ℕ, suc, ◌≤◌, ◌<◌, ◌≡◌, refl, sym, ap, ◌∙◌, List, ◌∷◌, none, some, arith, length, find, assign,
  erase, Distinct, find-erase_self, find-erase_ne, find-assign_self, find-assign_ne, erase-Distinct,
  assign-Distinct, length-erase, length-assign_old, length-assign_new, erase_absent,
}
use ctm.Cache.{Cache, Entry, splice_front, erase_locked}
use ctm.Cache.Nodes.{
  nodes, DistinctNodes, Below, Below-Unused, Below-suc, Below-erase, DistinctNodes-erase,
  Unused-erase_self, Below-found, unlink-nodes,
}

module _ {ℓ} {K V : Type ℓ} (dec : Discrete K) where
  -- The entries of the table in recency order.
  pub record Represents (c : Cache K V) (items : List (K × Entry V)) : Type ℓ where
    pub positive : 0 < c.capacity
    pub bounded : length items ≤ c.capacity
    pub recency : c.recency ≡ nodes items
    pub table : (q : K) → find dec q c.entries ≡ find dec q items
    pub size : length c.entries ≡ length items
    pub entry_keys : Distinct dec c.entries
    pub keys : Distinct dec items
    pub ids : DistinctNodes items
    pub fresh : Below c.next_node items

  find-erase-eq :
      (m n : List (K × Entry V)) (k q : K)
      → Distinct dec m
      → Distinct dec n
      → find dec q m ≡ find dec q n
      → find dec q (erase dec k m) ≡ find dec q (erase dec k n)
  find-erase-eq m n k q h g e = elim (dec k q) [
    | yes p ↦ rw (← p) (find-erase_self dec k m h ∙ sym (find-erase_self dec k n g))
    | no p ↦ find-erase_ne dec k q m p ∙ e ∙ sym (find-erase_ne dec k q n p)
  ]

  find-front :
      (m : List (K × Entry V)) (k q : K) (e : Entry V)
      → find dec k m ≡ some e
      → find dec q m ≡ find dec q ((k, e) ∷ erase dec k m)
  unfolding find
  find-front m k q e f = ground (arith, find-erase_ne dec k q m)

  find-front_assign :
      (m n : List (K × Entry V)) (k q : K) (e : Entry V)
      → find dec q m ≡ find dec q n
      → find dec q (assign dec k e m) ≡ find dec q ((k, e) ∷ erase dec k n)
  unfolding find
  find-front_assign m n k q e h =
      ground
        (arith, find-assign_self dec k e m, find-assign_ne dec k q e m, find-erase_ne dec k q n)

  module _ {c : Cache K V} {items : List (K × Entry V)} (r : Represents c items) (k : K) where
    -- Taking an entry out of the table and its node out of the list.
    pub erase-Represents :
        (e : Entry V)
        → find dec k items ≡ some e
        → Represents
            (record c { recency = nodes (erase dec k items); entries = erase dec k c.entries })
            (erase dec k items)
    erase-Represents e f = record {
      positive = r.positive;
      bounded = omega (arith, r.bounded, length-erase dec k e items f);
      recency = refl;
      table = λ q. find-erase-eq c.entries items k q r.entry_keys r.keys (r.table q);
      size = omega (
        arith,
        r.size,
        length-erase dec k e items f,
        length-erase dec k e c.entries (r.table k ∙ f),
      );
      entry_keys = erase-Distinct dec k c.entries r.entry_keys;
      keys = erase-Distinct dec k items r.keys;
      ids = DistinctNodes-erase dec k items r.ids;
      fresh = Below-erase dec c.next_node k items r.fresh;
    }

    -- Moving a node to the front, with its entry unchanged.
    pub touch-Represents :
        (e : Entry V)
        → find dec k items ≡ some e
        → Represents
            (record c { recency = nodes ((k, e) ∷ erase dec k items) })
            ((k, e) ∷ erase dec k items)
    touch-Represents e f = record {
      positive = r.positive;
      bounded = omega (arith, r.bounded, length-erase dec k e items f);
      recency = refl;
      table = λ q. r.table q ∙ find-front items k q e f;
      size = omega (arith, r.size, length-erase dec k e items f);
      entry_keys = r.entry_keys;
      keys = (find-erase_self dec k items r.keys, erase-Distinct dec k items r.keys);
      ids = (Unused-erase_self dec k e items r.ids f, DistinctNodes-erase dec k items r.ids);
      fresh = (
        Below-found dec c.next_node k e items r.fresh f,
        Below-erase dec c.next_node k items r.fresh,
      );
    }

    -- Moving a node to the front, with its entry overwritten.
    pub refresh-Represents :
        (e d : Entry V)
        → find dec k items ≡ some e
        → d.recency ≡ e.recency
        → Represents
            (record c {
              recency = nodes ((k, d) ∷ erase dec k items);
              entries = assign dec k d c.entries;
            })
            ((k, d) ∷ erase dec k items)
    refresh-Represents e d f same = record {
      positive = r.positive;
      bounded = omega (arith, r.bounded, length-erase dec k e items f);
      recency = refl;
      table = λ q. find-front_assign c.entries items k q d (r.table q);
      size = omega (
        arith,
        r.size,
        length-erase dec k e items f,
        length-assign_old dec k e d c.entries (r.table k ∙ f),
      );
      entry_keys = assign-Distinct dec k d c.entries r.entry_keys;
      keys = (find-erase_self dec k items r.keys, erase-Distinct dec k items r.keys);
      ids = (
        rw same (Unused-erase_self dec k e items r.ids f),
        DistinctNodes-erase dec k items r.ids,
      );
      fresh = (
        rw same (Below-found dec c.next_node k e items r.fresh f),
        Below-erase dec c.next_node k items r.fresh,
      );
    }

    -- A new key, where there is room.
    pub push-Represents :
        (d : Entry V)
        → find dec k items ≡ none
        → d.recency ≡ c.next_node
        → length items < c.capacity
        → Represents
            (record c {
              recency = nodes ((k, d) ∷ items);
              entries = assign dec k d c.entries;
              next_node = suc c.next_node;
            })
            ((k, d) ∷ items)
    push-Represents d f new room = record {
      positive = r.positive;
      bounded = room;
      recency = refl;
      table = λ q.
          find-front_assign c.entries items k q d (r.table q)
          ∙ ap (λ m. find dec q ((k, d) ∷ m)) (erase_absent dec k items f);
      size = omega (arith, r.size, length-assign_new dec k d c.entries (r.table k ∙ f));
      entry_keys = assign-Distinct dec k d c.entries r.entry_keys;
      keys = (f, r.keys);
      ids = (rw new (Below-Unused c.next_node items r.fresh), r.ids);
      fresh = (omega arith, Below-suc c.next_node items r.fresh);
    }

    pub splice-nodes :
        (e : Entry V)
        → find dec k items ≡ some e
        → splice_front e.recency c.recency
          ≡ some (record { id = e.recency; key = k } ∷ nodes (erase dec k items))
    unfolding splice_front
    splice-nodes e f = rw (r.recency, splice_front, unlink-nodes dec k e items r.ids f)

    pub erase_locked-nodes :
        (e : Entry V)
        → find dec k items ≡ some e
        → erase_locked dec c k e
          ≡ some (record c { recency = nodes (erase dec k items); entries = erase dec k c.entries })
    unfolding erase_locked
    erase_locked-nodes e f = rw (r.recency, erase_locked, unlink-nodes dec k e items r.ids f)

  -- The counters play no part in it.
  pub counters-Represents :
      {c : Cache K V} {items : List (K × Entry V)} (h m x v i : ℕ)
      → Represents c items
      → Represents
          (record c { hits = h; misses = m; expirations = x; evictions = v; invalidations = i })
          items
  counters-Represents h m x v i r = record {
    positive = r.positive;
    bounded = r.bounded;
    recency = r.recency;
    table = r.table;
    size = r.size;
    entry_keys = r.entry_keys;
    keys = r.keys;
    ids = r.ids;
    fresh = r.fresh;
  }

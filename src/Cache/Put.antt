-- ===== src/Cache/Put.antt =====
-- `put` of bounded_cache.cpp on a well-formed cache: what it computes, with and without an eviction,
-- and the entries in recency order that it leaves.
use ctm.Prelude.{
  ℕ, suc, ◌+◌, ◌<◌, ◌≡◌, refl, ap, ◌∙◌, inl, inr, true, false, List, [], ◌∷◌, none, some, arith,
  leb, if◌then◌else◌, Bool-cases, Option-cases, length, find, assign, erase, add64, length-erase,
  find-erase_ne,
}
use ctm.Cache.{Cache, Entry, back, make_room, put}
use ctm.Cache.Lru
use ctm.Cache.Lru.{Slot, drop_last}
use ctm.Cache.Nodes.{
  nodes, strip, length-strip, strip-drop_last, find-strip, strip-erase, back-nodes,
}
use ctm.Cache.Represents.{
  Represents, erase-Represents, refresh-Represents, push-Represents, splice-nodes,
  erase_locked-nodes, counters-Represents,
}

module _ {ℓ} {K V : Type ℓ} (dec : Discrete K) where
  module _ {c : Cache K V} {items : List (K × Entry V)} (r : Represents dec c items) (k : K) where
    find-erase_absent :
        (q : K) (d : Entry V)
        → find dec k items ≡ none
        → find dec q items ≡ some d
        → find dec k (erase dec q items) ≡ none
    find-erase_absent q d absent f = elim (dec q k) [
      | yes p ↦ absurd (ground arith)
      | no p ↦ find-erase_ne dec q k items p ∙ absent
    ]

    -- The cache that `make_room` leaves when it evicts the entry of `q`.
    abbrev evicted : K → Cache K V
    evicted q = record c {
      recency = nodes (erase dec q items);
      entries = erase dec q c.entries;
      evictions = add64 c.evictions 1;
    }

    make_room-full :
        (q : K) (d : Entry V)
        → back c.recency ≡ some q
        → find dec q items ≡ some d
        → leb c.capacity (length c.entries) ≡ true
        → make_room dec c ≡ some (evicted q)
    unfolding make_room
    make_room-full q d b f full = ground (arith, r.table q, erase_locked-nodes dec r q d f)

    -- What `make_room` leaves for a key that is not in the cache.
    record Room (c' : Cache K V) (items' : List (K × Entry V)) : Type ℓ where
      made : make_room dec c ≡ some c'
      represents : Represents dec c' items'
      room : length items' < c'.capacity
      absent : find dec k items' ≡ none
      config : c'.config ≡ c.config
      slots :
          strip items'
          ≡ (if leb c.capacity (length (strip items)) then drop_last (strip items) else strip items)

    Room-full :
        (q : K) (d : Entry V)
        → back c.recency ≡ some q
        → find dec q items ≡ some d
        → erase dec q items ≡ drop_last items
        → find dec k items ≡ none
        → leb c.capacity (length c.entries) ≡ true
        → Room (evicted q) (erase dec q items)
    Room-full q d b f last absent full = record {
      made = make_room-full q d b f full;
      represents = counters-Represents dec _ _ _ _ _ (erase-Represents dec r q d f);
      room = omega (arith, r.bounded, length-erase dec q d items f);
      absent = find-erase_absent q d absent f;
      config = refl;
      slots = ground (arith, last, strip-drop_last items, length-strip items, r.size);
    }

    Room-spare : find dec k items ≡ none → leb c.capacity (length c.entries) ≡ false → Room c items
    unfolding make_room
    Room-spare absent spare = record {
      made = ground arith;
      represents = r;
      room = ground (arith, r.size);
      absent = absent;
      config = refl;
      slots = ground (arith, length-strip items, r.size);
    }

  make_room_lem :
      {c : Cache K V} (items : List (K × Entry V)) (r : Represents dec c items) (k : K)
      → find dec k items ≡ none
      → (c' : Cache K V) × (items' : List (K × Entry V)) × Room r k c' items'
  make_room_lem {c} [] r k absent =
      (c, [], Room-spare r k absent (ground (arith, r.size, r.positive)))
  make_room_lem {c} ((j, e) ∷ m) r k absent =
      elim (Bool-cases (leb c.capacity (length c.entries))) [
        | inl full ↦
            let (q, d, b, f, last) = back-nodes dec j e m r.keys in
            (_, _, Room-full r k q d (ap back r.recency ∙ b) f last absent full)
        | inr spare ↦ (c, (j, e) ∷ m, Room-spare r k absent spare)
      ]

  module _ {c : Cache K V} {items : List (K × Entry V)} (r : Represents dec c items) (k : K)
      (value : V) (now : ℕ) where
    put-hit :
        (e : Entry V)
        → find dec k items ≡ some e
        → let d = record e { value = value; expires_at = now + c.time_to_live } in
          (put dec c k value now
            ≡ some (record c {
              recency = nodes ((k, d) ∷ erase dec k items);
              entries = assign dec k d c.entries;
            }))
          × (Lru.put dec c.capacity c.time_to_live (strip items) k value now
              ≡ strip ((k, d) ∷ erase dec k items))
    unfolding put Lru.put
    put-hit e f = ground (
      arith,
      find-strip dec k items,
      strip-erase dec k items,
      r.table k,
      splice-nodes dec r k e f,
    )

    put-new :
        (c' : Cache K V) (items' : List (K × Entry V))
        → find dec k items ≡ none
        → Room r k c' items'
        → let d : Entry V = record {
          value = value;
          expires_at = now + c.time_to_live;
          recency = c'.next_node;
        } in
          (put dec c k value now
            ≡ some (record c' {
              recency = record { id = c'.next_node; key = k } ∷ c'.recency;
              entries = assign dec k d c'.entries;
              next_node = suc c'.next_node;
            }))
          × (Lru.put dec c.capacity c.time_to_live (strip items) k value now
              ≡ strip ((k, d) ∷ items'))
    unfolding put Lru.put
    put-new c' items' f room =
        ground (arith, find-strip dec k items, r.table k, room.made, room.slots)

    pub put-Represents :
        (c' : Cache K V) × (items' : List (K × Entry V)) × (put dec c k value now ≡ some c')
        × (Lru.put dec c.capacity c.time_to_live (strip items) k value now ≡ strip items')
        × Represents dec c' items'
        × (c'.config ≡ c.config)
    put-Represents = elim (Option-cases (find dec k items)) [
      | inr (e, f) ↦
          let (p, s) = put-hit e f in (_, _, p, s, refresh-Represents dec r k e _ f refl, refl)
      | inl f ↦
          let (c', items', room) = make_room_lem items r k f in
          let (p, s) = put-new c' items' f room in
          (
            _,
            _,
            rw room.represents.recency at p,
            s,
            push-Represents dec room.represents k _ room.absent refl room.room,
            room.config,
          )
    ]

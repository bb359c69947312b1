-- ===== src/Cache/Tests.antt =====
-- The theorems about bounded_cache.cpp at concrete inputs, with numbers for keys and values.
use ctm.Prelude.{
  ℕ, ◌+◌, ◌≤◌, ◌≡◌, refl, ◌⊎◌, List, [], ◌∷◌, none, some, arith, length, find, assign, erase, ok,
  err, leb, if◌then◌else◌, ℕ_discrete, add64,
}
use ctm.Cache.{
  Cache, Config, limits_out_of_range, create, get, put, snapshot, unlink, splice_front, back,
  erase_locked, make_room,
}
use ctm.Cache.Refine.{WithinLimits, fresh, fresh-Represents}
use ctm.Cache.History.{
  Call, gets, puts, run, ideal, Refines, create-run, entries-le-capacity, get-put, gets_of,
  hits-misses-run,
}

abbrev config : Config
config = record { capacity = 2; time_to_live = 1000 }

abbrev calls : List (Call ℕ ℕ)
calls = puts 1 10 0 ∷ puts 2 20 1 ∷ gets 1 2 ∷ puts 3 30 3 ∷ gets 2 4 ∷ gets 3 1003 ∷ []

abbrev new : Cache ℕ ℕ
new = fresh config

-- The least recently used key is evicted, and a value lives for its time.
answers : (c : Cache ℕ ℕ) × (run ℕ_discrete new calls ≡ some (c, some 10 ∷ none ∷ none ∷ []))
unfolding run get put unlink splice_front back erase_locked make_room find assign erase ℕ_discrete
answers = (_, refl)

create-run_example :
    ((c : Cache ℕ ℕ) × (create config ≡ ok c)
      × WithinLimits config
      × Refines ℕ_discrete config c [] calls)
    ⊎ ((create {K = ℕ} {V = ℕ} config ≡ err limits_out_of_range) × (¬ WithinLimits config))
create-run_example = create-run ℕ_discrete config calls

entries-le-capacity_example :
    (c : Cache ℕ ℕ) × (run ℕ_discrete new calls ≡ some (c, (ideal ℕ_discrete config [] calls).1))
    × ((snapshot c).entries ≤ 2)
    × ((snapshot c).entries ≡ length (ideal ℕ_discrete config [] calls).0)
entries-le-capacity_example = entries-le-capacity ℕ_discrete config calls (omega arith)

get-put_example :
    (d e : Cache ℕ ℕ) × (put ℕ_discrete new 7 70 5 ≡ some d)
    × (get ℕ_discrete d 7 900 ≡ some (e, if leb (5 + new.time_to_live) 900 then none else some 70))
get-put_example =
    get-put ℕ_discrete 7 70 5 900 (fresh-Represents {V = ℕ} ℕ_discrete config (omega arith))

hits-misses-run_example :
    add64 answers.0.hits answers.0.misses
    ≡ add64 (add64 new.hits new.misses) (gets_of ℕ_discrete calls)
hits-misses-run_example =
    hits-misses-run ℕ_discrete new answers.0 calls (some 10 ∷ none ∷ none ∷ []) answers.1

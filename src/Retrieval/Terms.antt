-- ===== src/Retrieval/Terms.antt =====
-- The terms of a text, in context_retrieval.cpp. `std::sort` is an insertion sort, and a `std::set` an
-- ascending list without repetition.
use ctm.Prelude.{
  ℕ, ◌+◌, Bool, true, false, not, ◌&&◌, ◌||◌, List, [], ◌∷◌, ◌++◌, Bytes, Bytes-discrete, bytes_eq,
  codes, none, some, leb, ltb, ◌==◌, if◌then◌else◌, length, map, find, any_of, all_of,
}
use ctm.Model.{Asset, Tag, known}

unfoldable pub insert {ℓ} : {A : Type ℓ} → (A → A → Bool) → A → List A → List A
insert less x [] = x ∷ []
insert less x (y ∷ ys) = let rest = insert less x ys in if less y x then y ∷ rest else x ∷ y ∷ ys

unfoldable pub sort {ℓ} : {A : Type ℓ} → (A → A → Bool) → List A → List A
sort less [] = []
sort less (x ∷ xs) = insert less x (sort less xs)

-- `<` of `std::string`.
unfoldable pub bytes_less : Bytes → Bytes → Bool
bytes_less s [] = false
bytes_less [] (b ∷ t) = true
bytes_less (a ∷ s) (b ∷ t) = ltb a b || (a == b) && bytes_less s t

-- `std::unique` with the `erase` after it.
unfoldable pub unique : List Bytes → List Bytes
unique [] = []
unique (x ∷ xs) =
    let rest = unique xs in
    elim rest [ [] ↦ x ∷ [] | y ∷ ys ↦ if bytes_eq x y then y ∷ ys else x ∷ y ∷ ys ]

-- The sort and the `unique` that follow each other at four places, and the content of a `std::set`.
unfoldable pub sorted_set : List Bytes → List Bytes
sorted_set xs = unique (sort bytes_less xs)

abbrev pub between : ℕ → ℕ → ℕ → Bool
between lo hi c = leb lo c && leb c hi

unfoldable pub ascii_alphanumeric : ℕ → Bool
ascii_alphanumeric c = between b'a' b'z' c || between b'A' b'Z' c || between b'0' b'9' c

abbrev pub synonyms : List (Bytes × Bytes)
synonyms =
    (codes "one", codes "1")
    ∷ (codes "first", codes "1")
    ∷ (codes "two", codes "2")
    ∷ (codes "second", codes "2")
    ∷ (codes "three", codes "3")
    ∷ (codes "third", codes "3")
    ∷ (codes "four", codes "4")
    ∷ (codes "fourth", codes "4")
    ∷ (codes "five", codes "5")
    ∷ (codes "fifth", codes "5")
    ∷ (codes "warning", codes "alarm")
    ∷ (codes "warnings", codes "alarm")
    ∷ (codes "alert", codes "alarm")
    ∷ (codes "alerts", codes "alarm")
    ∷ (codes "trips", codes "alarm")
    ∷ (codes "reading", codes "overview")
    ∷ (codes "readings", codes "overview")
    ∷ (codes "measurements", codes "overview")
    ∷ (codes "dashboard", codes "overview")
    ∷ (codes "display", codes "overview")
    ∷ (codes "show", codes "overview")
    ∷ (codes "monitor", codes "overview")
    ∷ (codes "inspect", codes "overview")
    ∷ (codes "summary", codes "overview")
    ∷ (codes "temp", codes "temperature")
    ∷ []

unfoldable pub canonical_term : Bytes → Bytes
canonical_term word = elim (find Bytes-discrete word synonyms) [ none ↦ word | some t ↦ t ]

unfoldable pub lowered : ℕ → ℕ
lowered c = if between b'A' b'Z' c then c + 32 else c

-- The loop of `terms_for`; `current` is the word so far.
unfoldable pub split_terms : Bytes → Bytes → List Bytes
split_terms [] current = if length current == 0 then [] else canonical_term current ∷ []
split_terms (c ∷ text) current =
    let longer = split_terms text (current ++ lowered c ∷ []) in
    let next = split_terms text [] in
    if ascii_alphanumeric c
    then longer
    else if length current == 0
    then next
    else canonical_term current ∷ next

unfoldable pub terms_for : Bytes → List Bytes
terms_for text = sorted_set (split_terms text [])

-- `contains`, a binary search of terms that are in order.
abbrev pub contains : List Bytes → Bytes → Bool
contains terms word = known word terms

-- Whether all of the terms, at least one, are in the prompt.
unfoldable pub all_present : List Bytes → List Bytes → Bool
all_present prompt_terms terms = not (length terms == 0) && all_of (contains prompt_terms) terms

unfoldable pub starts_with : Bytes → Bytes → Bool
starts_with [] text = true
starts_with (c ∷ part) [] = false
starts_with (c ∷ part) (d ∷ text) = (c == d) && starts_with part text

-- `find(part) != npos`.
unfoldable pub occurs : Bytes → Bytes → Bool
occurs part [] = starts_with part []
occurs part (d ∷ text) = starts_with part (d ∷ text) || occurs part text

unfoldable pub has_scope_phrase : Bytes → Bool
has_scope_phrase prompt =
    let normalized =
      b' ' ∷ map (λ c. if ascii_alphanumeric c then lowered c else b' ') prompt ++ b' ' ∷ [] in
    any_of (λ part. occurs part normalized)
      (codes " for " ∷ codes " on " ∷ codes " from " ∷ codes " at " ∷ [])

abbrev pub is_numeric : Bytes → Bool
is_numeric word = not (length word == 0) && all_of (between b'0' b'9') word

unfoldable pub filter {ℓ} : {A : Type ℓ} → (A → Bool) → List A → List A
filter p [] = []
filter p (x ∷ xs) = let rest = filter p xs in if p x then x ∷ rest else rest

unfoldable pub numeric_terms : List Bytes → List Bytes
numeric_terms terms = filter is_numeric terms

unfoldable pub concat_terms : List Bytes → List Bytes
concat_terms [] = []
concat_terms (text ∷ texts) = terms_for text ++ concat_terms texts

abbrev pub aliases_of : Asset → List Bytes
aliases_of asset = elim asset.aliases [ none ↦ [] | some aliases ↦ aliases ]

unfoldable pub asset_terms : Asset → List Bytes
asset_terms asset =
    sorted_set (concat_terms (asset.id ∷ asset.name ∷ asset.kind ∷ aliases_of asset))

unfoldable pub task_hints : List Bytes → List Bytes
task_hints prompt_terms =
    if contains prompt_terms (codes "alarm")
    then codes "alarms" ∷ []
    else if any_of (contains prompt_terms) (codes "overview" ∷ codes "status" ∷ codes "state" ∷ [])
    then codes "overview" ∷ []
    else []

unfoldable pub measurement_role_hints : List Tag → List Bytes → List Bytes
measurement_role_hints tags prompt_terms = sorted_set (
    map (λ (tag : Tag). tag.role)
      (filter
        (λ (tag : Tag).
          all_present prompt_terms (terms_for tag.role)
          || all_present prompt_terms (terms_for tag.name))
        tags))

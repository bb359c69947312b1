-- ===== src/Retrieval/Score.antt =====
-- The scores of the assets, in `retrieve` of context_retrieval.cpp.
use ctm.Prelude.{
  ℕ, ◌+◌, Bool, not, ◌&&◌, ◌||◌, List, [], ◌∷◌, ◌++◌, Bytes, leb, ltb, ◌==◌, if◌then◌else◌, length,
  map, any_of,
}
use ctm.Model.{Asset}
use ctm.Retrieval.{Reason, term, declared_id, declared_name, declared_alias, Scored}
use ctm.Retrieval.Terms.{
  sort, bytes_less, terms_for, contains, all_present, has_scope_phrase, filter, numeric_terms,
  concat_terms, aliases_of, asset_terms,
}

unfoldable pub kind_mentioned : List Asset → List Bytes → Bool
kind_mentioned assets prompt_terms =
    let declared_kinds = concat_terms (map (λ (asset : Asset). asset.kind) assets) in
    any_of (contains declared_kinds) prompt_terms

unfoldable pub number_conflict : List Bytes → List Bytes → Bool
number_conflict prompt_numbers asset_numbers =
    not (length prompt_numbers == 0) && not (any_of (contains asset_numbers) prompt_numbers)

-- A part of the score with its reasons.
abbrev pub Part : Type 0
Part = ℕ × List Reason

unfoldable pub term_part : List Bytes → List Bytes → Part
term_part prompt_terms [] = (0, [])
term_part prompt_terms (t ∷ terms) =
    let rest = term_part prompt_terms terms in
    if contains prompt_terms t
    then ((if ltb 2 (length t) then 12 else 4) + rest.0, term t ∷ rest.1)
    else rest

unfoldable pub declared_part : List Bytes → Bytes → ℕ → Reason → Part
declared_part prompt_terms text points reason =
    if all_present prompt_terms (terms_for text) then (points, reason ∷ []) else (0, [])

unfoldable pub alias_part : List Bytes → List Bytes → Part
alias_part prompt_terms aliases =
    if any_of (λ alias. all_present prompt_terms (terms_for alias)) aliases
    then (90, declared_alias ∷ [])
    else (0, [])

abbrev pub plus : Part → Part → Part
plus (m, xs) (n, ys) = (m + n, xs ++ ys)

-- A round of the loop over the assets.
unfoldable pub score_asset : List Bytes → List Bytes → Asset → Scored
score_asset prompt_terms prompt_numbers asset =
    let terms = asset_terms asset in
    let nothing : Part = (0, []) in
    let (score, reasons) =
      if number_conflict prompt_numbers (numeric_terms terms)
      then nothing
      else plus (term_part prompt_terms terms) (
          plus (declared_part prompt_terms asset.id 80 declared_id) (
            plus (declared_part prompt_terms asset.name 100 declared_name)
              (alias_part prompt_terms (aliases_of asset)))) in
    record { asset = asset; score = score; reasons = reasons }

-- The order of the candidates: the higher score first, then by id.
unfoldable pub before : Scored → Scored → Bool
before left right =
    if left.score == right.score
    then bytes_less left.asset.id right.asset.id
    else ltb right.score left.score

unfoldable pub scored : List Asset → List Bytes → List Scored
scored assets prompt_terms = sort before (
    filter (λ (item : Scored). ltb 0 item.score)
      (map (score_asset prompt_terms (numeric_terms prompt_terms)) assets))

unfoldable pub specific_reference : List Asset → Bytes → List Bytes → List Scored → Bool
specific_reference assets prompt prompt_terms items =
    kind_mentioned assets prompt_terms
    || not (length (numeric_terms prompt_terms) == 0)
    || (length items == 0) && has_scope_phrase prompt
    || any_of (λ (item : Scored). leb 80 item.score) items

-- The best score, or 0 when it is below 12.
unfoldable pub eligibility_score : List Scored → ℕ
eligibility_score [] = 0
eligibility_score (item ∷ items) = if ltb item.score 12 then 0 else item.score

-- ===== src/Telemetry/Order.antt =====
-- The order of the batches that telemetry_store.cpp accepts.
use ctm.Prelude.{
  ℕ, ◌≡◌, sym, subst, ite, inl, inr, List, [], ◌∷◌, Bytes, Bytes-discrete, Option, none, some,
  arith, find, Result-cases, ok, err,
}
use ctm.Json.{JsonLibrary}
use ctm.Telemetry.{Store}
use ctm.Telemetry.Batch.{check_batch, ingest}
use ctm.Telemetry.Commit.{Advances, ingest-Accepted, ingest-refused}

module _ (J : JsonLibrary) where
  open J use {Json}

  -- The arguments of a call of `ingest`.
  pub record Request : Type 0 where
    pub document : Json
    pub generation : ℕ
    pub batch : Json
    pub now : ℕ

  abbrev pub serve : Store J → Request → Store J
  serve s r = (ingest J s r.document r.generation r.batch r.now).0

  -- The source and the sequence number of a batch that is accepted.
  pub accepted : Store J → Request → Option (Bytes × ℕ)
  accepted s r = elim (ingest J s r.document r.generation r.batch r.now).1 [
    | err _ ↦ none
    | ok _ ↦ elim (check_batch J r.document r.generation r.batch s.maximum_values_per_batch) [
      | err _ ↦ none
      | ok checked ↦ some (checked.source_id, checked.sequence)
    ]
  ]

  -- The sequence numbers that are accepted from a source, along calls of `ingest`.
  pub sequences : Bytes → Store J → List Request → List ℕ
  sequences source s [] = []
  sequences source s (r ∷ requests) =
      let rest = sequences source (serve s r) requests in
      elim (accepted s r) [
        | none ↦ rest
        | some (from, n) ↦ ite (Bytes-discrete from source) (n ∷ rest) rest
      ]

  -- Each number is above the one before it.
  abbrev pub Ascending : Option ℕ → List ℕ → Type 0
  Ascending last [] = Unit
  Ascending last (n ∷ ns) = Advances J last n × Ascending (some n) ns

  sequences-none :
      (source : Bytes) (s : Store J) (r : Request) (requests : List Request)
      → accepted s r ≡ none
      → sequences source s (r ∷ requests) ≡ sequences source (serve s r) requests
  unfolding sequences
  sequences-none source s r requests h = ground (arith, h)

  sequences-some :
      (source from : Bytes) (n : ℕ) (s : Store J) (r : Request) (requests : List Request)
      → accepted s r ≡ some (from, n)
      → sequences source s (r ∷ requests)
        ≡ ite
            (Bytes-discrete from source)
            (n ∷ sequences source (serve s r) requests)
            (sequences source (serve s r) requests)
  unfolding sequences
  sequences-some source from n s r requests h = ground (arith, h)

  -- From each source, the accepted sequence numbers go up strictly, from the last one that the
  -- store knows, whatever batches are sent in between and whichever are refused.
  pub sequences-Ascending :
      (source : Bytes) (requests : List Request) (s : Store J)
      → Ascending (find Bytes-discrete source s.source_sequences) (sequences source s requests)
  unfolding sequences accepted
  sequences-Ascending source [] s = tt
  sequences-Ascending source (r ∷ requests) s =
      let rest = sequences-Ascending source requests (serve s r) in
      let last = find Bytes-discrete source s.source_sequences in
      elim (Result-cases (ingest J s r.document r.generation r.batch r.now).1) [
        | inl (e, refused) ↦ rw (sequences-none source s r requests (ground (arith, refused))) (
            subst
              (λ (t : Store J).
                Ascending (find Bytes-discrete source t.source_sequences)
                  (sequences source (serve s r) requests))
              (ingest-refused J s r.document r.generation r.batch r.now e refused) rest)
        | inr (_, went) ↦
            let (checked, e, a) = ingest-Accepted J s r.document r.generation r.batch r.now went in
            let step =
              sequences-some source checked.source_id checked.sequence s r requests
                (ground (arith, went, e)) in
            let known = a.sequences source in
            elim (Bytes-discrete checked.source_id source) [
              | yes same ↦
                  let longer : sequences source s (r ∷ requests)
                      ≡ checked.sequence ∷ sequences source (serve s r) requests =
                    ground (arith, step, same) in
                  let now_last : find Bytes-discrete source (serve s r).source_sequences
                      ≡ some checked.sequence =
                    ground (arith, known, same) in
                  let both : Ascending last
                      (checked.sequence ∷ sequences source (serve s r) requests) =
                    (
                      subst
                          (λ from.
                            Advances J (find Bytes-discrete from s.source_sequences)
                              checked.sequence)
                          same a.advances,
                      subst (λ o. Ascending o (sequences source (serve s r) requests)) now_last
                          rest,
                    ) in
                  subst (λ l. Ascending last l) (sym longer) both
              | no other ↦
                  let as_long : sequences source s (r ∷ requests)
                      ≡ sequences source (serve s r) requests =
                    ground (arith, step, other) in
                  let still : find Bytes-discrete source (serve s r).source_sequences ≡ last =
                    ground (arith, known, other) in
                  subst (λ l. Ascending last l) (sym as_long)
                    (subst (λ o. Ascending o (sequences source (serve s r) requests)) still rest)
            ]
      ]

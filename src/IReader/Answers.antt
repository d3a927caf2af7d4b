-- ===== src/IReader/Answers.antt =====
-- Which results the reads of ireader.go return.
use mathlib.Core.Path.{ap₂}
use secure_store.IReader.{
  Event, IReader, ReaderResult, Run, begin_read, begins, close, closed, context_ended, end_context,
  end_goroutine, ends, go, pull, pulls, read_returns, stay,
}
use secure_store.Prelude.{Bool-cases, List, [], ap, inl, inr, refl, sym, ℕ, ◌∙◌, ◌∷◌, ◌≡◌}

module _ {R : Type 0} (read : ℕ → R → ReaderResult × R) where
  -- The reads of the source, one after the other, by the sizes of their buffers.
  pub source_results : List ℕ → R → List ReaderResult
  source_results [] r = []
  source_results (p ∷ ps) r = (read p r).0 ∷ source_results ps (read p r).1

abbrev pub sizes : List Event → List ℕ
sizes [] = []
sizes (read_returns p r ∷ es) = p ∷ sizes es
sizes (_ ∷ es) = sizes es

abbrev pub results : List Event → List ReaderResult
results [] = []
results (read_returns p r ∷ es) = r ∷ results es
results (_ ∷ es) = results es

module _ {R : Type 0} (read : ℕ → R → ReaderResult × R) where
  begin_read-silent :
      (p : ℕ) (i : IReader R) (es : List Event)
      → (results ((begin_read p i).0 ∷ es) ≡ results es)
        × (sizes ((begin_read p i).0 ∷ es) ≡ sizes es)
        × ((begin_read p i).1.source ≡ i.source)
  unfolding begin_read
  begin_read-silent p i es = elim (Bool-cases i.cancelled) [
    | inl c ↦ (rw c refl, rw c refl, rw c refl)
    | inr c ↦ (rw c refl, rw c refl, rw c refl)
  ]

  -- In every run, however reads, closing and the end of the context come, the results that the
  -- reads return are those of the source's reads with the same buffers, one after the other: none
  -- is lost, changed or returned twice.
  pub results-source :
      {i j : IReader R} {es : List Event}
      → Run read i es j
      → results es ≡ source_results read (sizes es) i.source
  unfolding pull end_goroutine close end_context source_results
  results-source (stay i) = refl
  results-source (go {es = es} (begins p i) run) =
      let (same_results, same_sizes, same_source) = begin_read-silent p i es in
      same_results ∙ results-source run ∙ ap₂ (source_results read) (sym same_sizes) same_source
  results-source (go (pulls before p behind i h w) run) =
      ap (◌∷◌ (read p i.source).0) (results-source run)
  results-source (go (ends i h w) run) = results-source run
  results-source (go (closed i) run) = results-source run
  results-source (go (context_ended i) run) = results-source run

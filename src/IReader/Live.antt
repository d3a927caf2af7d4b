-- ===== src/IReader/Live.antt =====
-- When a read of ireader.go gets its result, and when it never does.
use secure_store.IReader.{
  Event, IReader, ReaderResult, Run, Step, begin_read, begins, close, closed, context_ended,
  end_context, end_goroutine, ends, go, new_ireader, pull, pulls, read_begins, read_returns, stay,
}
use secure_store.Prelude.{List, [], arith, false, not, refl, subst, true, ℕ, ◌∙◌, ◌∷◌, ◌≡◌}

module _ {R : Type 0} (read : ℕ → R → ReaderResult × R) where
  -- The goroutine runs as long as the context has not ended, and the reader is open exactly as long
  -- as the goroutine runs.
  pub record IsLive (i : IReader R) : Type 0 where
    pub admits : i.cancelled ≡ not i.running
    pub runs : i.ctx_done ≡ false → i.running ≡ true

  begin_read-IsLive : (p : ℕ) (i : IReader R) → IsLive i → IsLive (begin_read p i).1
  unfolding begin_read
  begin_read-IsLive p i l = record {
    admits = ground (arith, l.admits);
    runs = λ d. let r = l.runs (ground arith) in ground arith;
  }

  stays_IsLive : {i j : IReader R} {e : Event} → Step read i e j → IsLive i → IsLive j
  unfolding pull end_goroutine close end_context
  stays_IsLive (begins p i) l = begin_read-IsLive p i l
  stays_IsLive (pulls before p behind i h w) l = record { admits = l.admits; runs = l.runs }
  stays_IsLive (ends i h d) l = record { admits = refl; runs = λ n. cc }
  stays_IsLive (closed i) l = record { admits = l.admits; runs = l.runs }
  stays_IsLive (context_ended i) l = record { admits = l.admits; runs = λ n. cc }

  remains_IsLive : {i j : IReader R} {es : List Event} → Run read i es j → IsLive i → IsLive j
  remains_IsLive (stay i) l = l
  remains_IsLive (go s r) l = remains_IsLive r (stays_IsLive s l)

  pub new_ireader-IsLive : (source : R) (size : ℕ) → IsLive (new_ireader source size)
  unfolding new_ireader
  new_ireader-IsLive source size = record { admits = refl; runs = λ n. refl }

  -- A run of a new reader in which a read of `p` bytes returns with the next read of the source.
  pub Serves : ℕ → IReader R → Type 0
  Serves p i =
      Run read i (read_begins p ∷ read_returns p (read p i.source).0 ∷ [])
        (record i { source = (read p i.source).1 })

  served : (p : ℕ) (i : IReader R) → IsLive i → i.ctx_done ≡ false → Serves p i
  unfolding Serves begin_read pull
  served p i l d =
      let waits : IReader R = record i { waiting = p ∷ i.waiting } in
      let runs = l.runs d in
      let admitted : begin_read p i ≡ (read_begins p, waits) = ground (arith, l.admits) in
      go (subst (λ x. Step read i x.0 x.1) admitted (begins p i))
        (go (pulls [] p i.waiting waits runs refl) (stay _))

  -- In every state that a new reader gets to, the context that it was given not having ended, a
  -- read is let in and can return the source's next read, whether the reader was closed or not.
  pub new_ireader-Serves :
      (source : R) (size p : ℕ) (es : List Event) (i : IReader R)
      → Run read (new_ireader source size) es i
      → i.ctx_done ≡ false
      → Serves p i
  new_ireader-Serves source size p es i r d =
      served p i (remains_IsLive r (new_ireader-IsLive source size)) d

  stopped_once :
      {i j : IReader R} {e : Event}
      → Step read i e j
      → i.cancelled ≡ true
      → i.running ≡ false
      → (j.waiting ≡ i.waiting) × (j.cancelled ≡ true) × (j.running ≡ false)
  unfolding begin_read close end_context
  stopped_once (begins p i) c n = (ground arith, ground arith, ground arith)
  stopped_once (pulls before p behind i h w) c n = cc
  stopped_once (ends i h d) c n = cc
  stopped_once (closed i) c n = (refl, c, n)
  stopped_once (context_ended i) c n = (refl, c, n)

  stopped_for_ever :
      {i j : IReader R} {es : List Event}
      → Run read i es j
      → i.cancelled ≡ true
      → i.running ≡ false
      → (j.waiting ≡ i.waiting)
  stopped_for_ever (stay i) c n = refl
  stopped_for_ever (go s r) c n =
      let (same, c', n') = stopped_once s c n in stopped_for_ever r c' n' ∙ same

  -- Once the goroutine of a new reader has ended, the reads that waited then wait for ever: in
  -- every later state the same reads wait.
  pub new_ireader-stuck :
      (source : R) (size : ℕ) (es fs : List Event) (i j : IReader R)
      → Run read (new_ireader source size) es i
      → i.running ≡ false
      → Run read i fs j
      → j.waiting ≡ i.waiting
  new_ireader-stuck source size es fs i j r n later =
      let live = remains_IsLive r (new_ireader-IsLive source size) in
      stopped_for_ever later (ground (arith, live.admits)) n

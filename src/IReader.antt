-- ===== src/IReader.antt =====
-- ireader.go: a reader whose reads are done by one goroutine, until the context that `NewIReader`
-- was given ends. `Close` and `Cancel` end a context made from it, which nobody waits for. A step
-- is what one goroutine does between two waits; the mutex is held within a step only.
pub mod Answers
pub mod Live
use secure_store.Effects.{Error, reader_closed}
use secure_store.Effects.Reader.{Bytes}
use secure_store.Prelude.{Bool, List, Option, [], false, if◌then◌else◌, true, ℕ, ◌++◌, ◌∷◌, ◌≡◌}

-- `readerResult`, with the bytes that were read in place of their number
pub record ReaderResult : Type 0 where
  pub bytes : Bytes
  pub error : Option Error

-- `ctx_done` is the end of the context given, `own_done` that of `ret.ctx`. `waiting` has the
-- sizes of the buffers of the reads that found the reader open and have no result yet, `running`
-- tells whether the goroutine goes on.
pub record IReader (R : Type 0) : Type 0 where
  pub source : R
  pub size : ℕ
  pub cancelled : Bool
  pub ctx_done : Bool
  pub own_done : Bool
  pub running : Bool
  pub waiting : List ℕ

unfoldable pub new_ireader : {R : Type 0} → R → ℕ → IReader R
new_ireader source size = record {
  source = source;
  size = size;
  cancelled = false;
  ctx_done = false;
  own_done = false;
  running = true;
  waiting = [];
}

-- What can be seen from outside.
pub data Event : Type 0 where
  read_begins : ℕ → Event
  read_refused : ℕ → Error → Event
  read_returns : ℕ → ReaderResult → Event
  closes context_ends goroutine_ends : Event

module _ {R : Type 0} where
  -- A read of a closed reader is refused; another one waits.
  unfoldable pub begin_read : ℕ → IReader R → Event × IReader R
  begin_read p i =
      if i.cancelled
      then (read_refused p reader_closed, i)
      else (read_begins p, record i { waiting = p ∷ i.waiting })

  unfoldable pub end_goroutine : IReader R → IReader R
  end_goroutine i = record i { cancelled = true; running = false }

  -- `Close` and `Cancel`
  unfoldable pub close : IReader R → IReader R
  close i = record i { own_done = true }

  unfoldable pub end_context : IReader R → IReader R
  end_context i = record i { ctx_done = true; own_done = true }

module _ {R : Type 0} (read : ℕ → R → ReaderResult × R) where
  -- The goroutine takes one of the reads that wait: `p`, between others.
  unfoldable pub pull : List ℕ → ℕ → List ℕ → IReader R → Event × IReader R
  pull before p behind i =
      let r = read p i.source in
      (read_returns p r.0, record i { source = r.1; waiting = before ++ behind })

  -- Where the context has ended and a read waits, `select` may take either.
  pub data Step : IReader R → Event → IReader R → Type 0 where
    begins : (p : ℕ) (i : IReader R) → Step i (begin_read p i).0 (begin_read p i).1
    pulls :
        (before : List ℕ) (p : ℕ) (behind : List ℕ) (i : IReader R)
        → i.running ≡ true
        → i.waiting ≡ before ++ (p ∷ behind)
        → Step i (pull before p behind i).0 (pull before p behind i).1
    ends :
        (i : IReader R)
        → i.running ≡ true
        → i.ctx_done ≡ true
        → Step i goroutine_ends (end_goroutine i)
    closed : (i : IReader R) → Step i closes (close i)
    context_ended : (i : IReader R) → Step i context_ends (end_context i)

  pub data Run : IReader R → List Event → IReader R → Type 0 where
    stay : (i : IReader R) → Run i [] i
    go :
        {i j k : IReader R} {e : Event} {es : List Event}
        → Step i e j
        → Run j es k
        → Run i (e ∷ es) k

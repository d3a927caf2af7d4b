-- ===== src/Cli/Ends.antt =====
-- The loop of cli/cli.go and the answers that it reads.
use secure_store.Cli.{
  Terminal, ask, attempt, if_given, ignored, next_answer, now, on_outside, prompt,
}
use secure_store.Effects.{Exec, Outcome, continue, err, external, lift, ok, panic, pure, ◌>>=◌}
use secure_store.Prelude.{
  Bool, List, Option, String, [], arith, false, if◌then◌else◌, inl, inr, length, none, refl, some,
  true, ℕ, ◌<◌, ◌∷◌, ◌≡◌, ◌≤◌, ◌⊎◌,
}

abbrev pub left : {N : Type 0} → Terminal N → ℕ
left t = length t.answers

-- A part of the program that uses up answers, if anything.
pub record Shrinks {N A : Type 0} (m : Exec (Terminal N) A) : Type 0 where
  pub uses : (t : Terminal N) → left (m t).1 ≤ left t

module _ {N A B : Type 0} where
  continue-left :
      (r : Outcome A) (f : A → Exec (Terminal N) B) (t : Terminal N)
      → ((a : A) → Shrinks (f a))
      → left (continue r f t).1 ≤ left t
  continue-left (ok a) f t h = (h a).uses t
  continue-left (err e) f t h = omega arith
  continue-left panic f t h = omega arith

  pub bind :
      (m : Exec (Terminal N) A) (f : A → Exec (Terminal N) B)
      → Shrinks m
      → ((a : A) → Shrinks (f a))
      → Shrinks (m >>= f)
  bind m f g h = record {
    uses = λ t.
        let first = g.uses t in
        let then_rest = continue-left (m t).0 f (m t).1 h in omega (arith, first, then_rest);
  }

module _ {N : Type 0} where
  pub next_answer-left :
      (xs : List (Outcome String)) (t : Terminal N)
      → length xs ≤ left t
      → left (next_answer xs t).1 ≤ left t
  next_answer-left [] t h = omega arith
  next_answer-left (x ∷ xs) t h = omega (arith, h)

  pub prompt-Shrinks : Shrinks {N = N} prompt
  unfolding prompt
  prompt-Shrinks = record { uses = λ t. next_answer-left t.answers t (omega arith) }

  -- A prompt uses up an answer, unless there is none.
  pub next_answer-used :
      (xs : List (Outcome String)) (t : Terminal N)
      → length xs ≡ left t
      → ((next_answer xs t).0 ≡ err (external 0)) ⊎ (left (next_answer xs t).1 < left t)
  next_answer-used [] t h = inl refl
  next_answer-used (x ∷ xs) t h = inr (omega (arith, h))

  pub pure-Shrinks : {A : Type 0} (a : A) → Shrinks {N = N} (pure a)
  pure-Shrinks a = record { uses = λ t. omega arith }

  pub lift-Shrinks : {A : Type 0} (r : Outcome A) → Shrinks {N = N} (lift r)
  lift-Shrinks r = record { uses = λ t. omega arith }

  pub ask-Shrinks : Shrinks {N = N} ask
  ask-Shrinks = record { uses = prompt-Shrinks.uses }

  pub attempt-Shrinks : {A : Type 0} (m : Exec (Terminal N) A) → Shrinks m → Shrinks (attempt m)
  attempt-Shrinks m h = record { uses = h.uses }

  pub outside-Shrinks : {A : Type 0} (m : Exec N A) → Shrinks (on_outside m)
  unfolding on_outside
  outside-Shrinks m = record { uses = λ t. omega arith }

  pub now-Shrinks : Shrinks {N = N} now
  unfolding now
  now-Shrinks = record { uses = λ t. omega arith }

  pub given-Shrinks :
      {A : Type 0} (f : A → Exec (Terminal N) (Unit {0})) (r : Option A)
      → ((a : A) → Shrinks (f a))
      → Shrinks (if_given f r)
  given-Shrinks f none h = pure-Shrinks tt
  given-Shrinks f (some a) h = h a

  pub ignored-Shrinks : {A : Type 0} (m : Exec (Terminal N) A) → Shrinks m → Shrinks (ignored m)
  ignored-Shrinks m h = bind (attempt m) (λ r. pure tt) (attempt-Shrinks m h) (λ r. pure-Shrinks tt)

  pub choose :
      {A : Type 0} (b : Bool) (m n : Exec (Terminal N) A)
      → Shrinks m
      → Shrinks n
      → Shrinks (if b then m else n)
  choose true m n h k = h
  choose false m n h k = k

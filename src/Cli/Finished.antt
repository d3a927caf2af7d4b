-- ===== src/Cli/Finished.antt =====
-- The end of the loop of cli/cli.go.
use secure_store.Cli.{CliOutside, Terminal, prompt}
use secure_store.Cli.Ends.{left, next_answer-used}
use secure_store.Cli.Operations.{main_loop, operate}
use secure_store.Cli.Rounds.{operate-Shrinks}
use secure_store.Effects.{Exec, Outcome, continue, err, ok, panic, pure, ◌>>◌}
use secure_store.Prelude.{
  Bool, Bool-cases, String, ap, arith, false, if◌then◌else◌, inl, inr, length, refl, suc, true,
  zero, ℕ, ◌<◌, ◌↔◌, ◌∙◌, ◌≡◌, ◌≢◌, ◌≤◌, ◌⊎◌,
}
use secure_store.Prelude.Eq.{bytes_Eq, string_Eq, ◌==◌}
use text.Mathlib.TextEquality.{eq_iff}

continue-ends :
    {N A : Type 0} (r : Outcome A) (f : A → Exec (Terminal N) Bool) (t : Terminal N)
    → ((a : A) → r ≡ ok a → (f a t).0 ≢ ok false)
    → (continue r f t).0 ≢ ok false
continue-ends (ok a) f t h = h a refl
continue-ends (err e) f t h = λ x. cc
continue-ends panic f t h = λ x. cc

continue-ok :
    {N A : Type 0} (r : Outcome A) (f : A → Exec (Terminal N) Bool) (t v : Terminal N) (b : Bool)
    → continue r f t ≡ (ok b, v)
    → (a : A) × (r ≡ ok a) × (f a t ≡ (ok b, v))
continue-ok (ok a) f t v b h = (a, refl, h)
continue-ok (err e) f t v b h = cc
continue-ok panic f t v b h = cc

-- Whether a round was the last one.
if-ok :
    {N : Type 0} (b : Bool) (m : Exec (Terminal N) Bool) (t v : Terminal N)
    → (if b then pure true else m) t ≡ (ok true, v)
    → ((b ≡ true) × (t ≡ v)) ⊎ ((b ≡ false) × (m t ≡ (ok true, v)))
if-ok true m t v h = inl (refl, ap (λ r. r.1) h)
if-ok false m t v h = inr (refl, h)

module _ {N H : Type 0} (o : CliOutside N H) where
  -- The sessions that are left by Exit: it is chosen, or another operation is, which comes to its
  -- end, and the session is left by Exit behind it.
  pub data Left : Terminal N → Terminal N → Type 0 where
    exits : (t v : Terminal N) → prompt t ≡ (ok "Exit", v) → Left t v
    rounds :
        (op : String) (t t1 t2 v : Terminal N)
        → prompt t ≡ (ok op, t1)
        → (op == "Exit") ≡ false
        → operate o op t1 ≡ (ok tt, t2)
        → Left t2 v
        → Left t v

  asked_for :
      (op : String) (t v : Terminal N)
      → (prompt t).0 ≡ ok op
      → (prompt t).1 ≡ v
      → prompt t ≡ (ok op, v)
  asked_for op t v a b = rw (← a) (rw (← b) refl)

  -- A round that was given an answer, and the rounds behind it.
  round_ends :
      (rest : Exec (Terminal N) Bool) (op : String) (t : Terminal N)
      → ((u : Terminal N) → left u ≤ left t → (rest u).0 ≢ ok false)
      → ((if op == "Exit" then pure true else operate o op >> rest) t).0 ≢ ok false
  round_ends rest op t ih = elim (Bool-cases (op == "Exit")) [
    | inl x ↦ rw x (λ y. cc)
    | inr x ↦ rw x (
        continue-ends (operate o op t).0 _ (operate o op t).1
          (λ u e. ih (operate o op t).1 ((operate-Shrinks o op).uses t)))
  ]

  prompt-left : (op : String) (t : Terminal N) → (prompt t).0 ≡ ok op → left (prompt t).1 < left t
  unfolding prompt
  prompt-left op t e = elim (next_answer-used t.answers t refl) [ inl n ↦ ground arith | inr l ↦ l ]

  fuel_left : (fuel : ℕ) (t : Terminal N) → left t < fuel → (main_loop o fuel t).0 ≢ ok false
  unfolding main_loop
  fuel_left zero t h = omega (arith, h)
  fuel_left (suc fuel) t h = continue-ends (prompt t).0 _ (prompt t).1 (λ op e.
      let used = prompt-left op t e in
      round_ends (main_loop o fuel) op (prompt t).1
        (λ u l. fuel_left fuel u (omega (arith, h, used, l))))

  main_loop-Left : (fuel : ℕ) (t v : Terminal N) → main_loop o fuel t ≡ (ok true, v) → Left t v
  unfolding main_loop
  main_loop-Left zero t v h = cc
  main_loop-Left (suc fuel) t v h =
      let (op, asked, rest) = continue-ok (prompt t).0 _ (prompt t).1 v true h in
      elim (if-ok (op == "Exit") (operate o op >> main_loop o fuel) (prompt t).1 v rest) [
        | inl (x, same) ↦ exits t v (asked_for "Exit" t v (asked ∙ ap ok ((eq_iff _ _).0 x)) same)
        | inr (x, more) ↦
            let (ended, worked, behind) =
              continue-ok (operate o op (prompt t).1).0 _ (operate o op (prompt t).1).1 v true
                more in
            rounds op t (prompt t).1 (operate o op (prompt t).1).1 v
              (ap (λ a. (a, (prompt t).1)) asked) x
              (ap (λ a. (a, (operate o op (prompt t).1).1)) worked)
              (main_loop-Left fuel (operate o op (prompt t).1).1 v behind)
      ]

  Left-main_loop :
      (fuel : ℕ) (t v : Terminal N) → left t < fuel → Left t v → main_loop o fuel t ≡ (ok true, v)
  unfolding main_loop
  Left-main_loop zero t v h l = absurd (omega (arith, h))
  Left-main_loop (suc fuel) t v h (exits _ _ asked) = rw asked refl
  Left-main_loop (suc fuel) t v h (rounds op _ t1 t2 _ asked x worked l) =
      let used = prompt-left op t (ap (λ r. r.0) asked) in
      let kept = (operate-Shrinks o op).uses t1 in
      let behind : left t2 < fuel =
        omega (arith, h, used, kept, ap (λ r. left r.1) asked, ap (λ r. left r.1) worked) in
      rw asked (rw x (rw worked (Left-main_loop fuel t2 v behind l)))

  -- With more fuel than there are answers of prompts, the loop of the command line does not run
  -- out of fuel, and it is left without an error exactly if the session leads to Exit: Exit is
  -- chosen, or another operation is, which comes to its end, and the session behind it leads to
  -- Exit.
  pub main_loop_ends :
      (fuel : ℕ) (t v : Terminal N)
      → length t.answers < fuel
      → ((main_loop o fuel t).0 ≢ ok false) × (main_loop o fuel t ≡ (ok true, v) ↔ Left t v)
  main_loop_ends fuel t v h =
      (fuel_left fuel t h, (main_loop-Left fuel t v, Left-main_loop fuel t v h))

-- ===== src/Cli.antt =====
-- cli/cli.go: a loop of prompts over a client. promptui is a parameter: the answers that its prompts
-- give, one after the other, an error where a prompt fails; a choice is answered by one of its
-- items. The progress bar and printing are left out. `err` is a call of `log.Fatal`, and `panic` a
-- panic. The operations are in the child `Operations`.
pub mod Operations
pub mod Ends
pub mod Rounds
pub mod Finished
use secure_store.Access.{ExAccessKey}
use secure_store.Effects.{Exec, Outcome, err, external, ok, panic, pure, ◌>>=◌}
use secure_store.Effects.Reader.{Bytes, Reader}
use secure_store.Http.{Http}
use secure_store.Prelude.{List, Option, String, [], none, some, ◌∷◌}
use secure_store.Prelude.Int.{ℤ}
use secure_store.Users.{UserJson}

-- Calls of package os, of crypto/sha512 and argon2, and the bytes of a text.
pub record CliOutside (N H : Type 0) : Type 0 where
  pub http : Http N
  pub open_file : String → Exec N H
  pub stat_size : H → Exec N ℤ
  pub content : H → N → Reader
  pub create_file : String → Exec N H
  pub read_from : H → Reader → Exec N (Unit {0})
  pub close_bar : Exec N (Unit {0})
  pub new_uuid : Exec N String
  pub sum512 : Bytes → Bytes
  pub id_key : Bytes → Bytes
  pub bytes_of_text : String → Bytes
  pub marshal_key : ExAccessKey → Outcome Bytes
  pub marshal_user : UserJson → Outcome Bytes

-- `answers` are those that the prompts to come will give.
pub record Terminal (N : Type 0) : Type 0 where
  pub outside : N
  pub answers : List (Outcome String)

-- A prompt whose error is a panic.
abbrev or_panic : {A : Type 0} → Outcome A → Outcome A
or_panic (ok a) = ok a
or_panic (err e) = panic
or_panic panic = panic

-- An error that is logged, or only tested.
abbrev attempted : {A : Type 0} → Outcome A → Outcome (Option A)
attempted (ok a) = ok (some a)
attempted (err e) = ok none
attempted panic = panic

module _ {N : Type 0} where
  -- A prompt behind the last answer fails.
  abbrev next_answer : List (Outcome String) → Exec (Terminal N) String
  next_answer [] t = (err (external 0), t)
  next_answer (a ∷ rest) t = (a, record t { answers = rest })

  unfoldable pub prompt : Exec (Terminal N) String
  prompt t = next_answer t.answers t

  abbrev ask : Exec (Terminal N) String
  ask t = let r = prompt t in (or_panic r.0, r.1)

  abbrev attempt : {A : Type 0} → Exec (Terminal N) A → Exec (Terminal N) (Option A)
  attempt m t = let r = m t in (attempted r.0, r.1)

  unfoldable pub on_outside : {A : Type 0} → Exec N A → Exec (Terminal N) A
  on_outside m t = ((m t.outside).0, record t { outside = (m t.outside).1 })

  -- The terminal itself.
  unfoldable pub now : Exec (Terminal N) (Terminal N)
  now t = (ok t, t)

  -- What follows a call only if it gave no error.
  abbrev if_given :
      {A : Type 0} → (A → Exec (Terminal N) (Unit {0})) → Option A → Exec (Terminal N) (Unit {0})
  if_given f none = pure tt
  if_given f (some a) = f a

  abbrev ignored : {A : Type 0} → Exec (Terminal N) A → Exec (Terminal N) (Unit {0})
  ignored m = attempt m >>= λ r. pure tt

-- ===== src/Base/Effects.antt =====
-- Errors as values, and calls that may throw. The state comes back after a throw too, since what
-- a C++ method wrote before it threw stays written.
use mathlib.Core.Bool.{Bool, true, false}

-- The exceptions of the program, one constructor for each throw site, and three outcomes that are
-- no exceptions: a failed `assert`, undefined behaviour, and a loop that has not ended on its fuel.
pub data Error : Type 0 where
  too_long read_failure duplicate_preload empty_preload no_equals bad_option_value : Error
  class_after_preload dnssec_after_preload edns_after_preload protocol_after_preload : Error
  bad_protocol open_failure : Error
  usage_exit bad_flag both_inputs unknown_protocol bad_cast stdin_threads thread_failure : Error
  null_callback small_buffer unexpected_length system_failure : Error
  after_run external_repository bad_class : Error
  socket_failure timer_failure bogus_header : Error
  assertion undefined diverged : Error

-- No handler catches these: the program is aborted, or never gets there.
abbrev pub is_fatal : Error → Bool
is_fatal assertion = true
is_fatal undefined = true
is_fatal diverged = true
is_fatal _ = false

pub data Result (A : Type 0) : Type 0 where
  ok : A → Result A
  err : Error → Result A

-- A call on an object of type S.
abbrev pub Action : Type 0 → Type 0 → Type 0
Action S A = S → Result A × S

module _ {S : Type 0} where
  abbrev pub pure : {A : Type 0} → A → Action S A
  pure a s = (ok a, s)

  abbrev pub throw : {A : Type 0} → Error → Action S A
  throw e s = (err e, s)

  abbrev pub get : Action S S
  get s = (ok s, s)

  abbrev pub modify : (S → S) → Action S (Unit {0})
  modify f s = (ok tt, f s)

  abbrev pub throw_if : Bool → Error → Action S (Unit {0})
  throw_if true e s = (err e, s)
  throw_if false e s = (ok tt, s)

  infixl 5 ◌>>=◌ ◌>>◌
  abbrev pub ◌>>=◌ : {A B : Type 0} → Action S A → (A → Action S B) → Action S B
  ◌>>=◌ m f s = let (r, s') = m s in elim r [ ok a ↦ f a s' | err e ↦ (err e, s') ]

  abbrev pub ◌>>◌ : {A B : Type 0} → Action S A → Action S B → Action S B
  m >> k = m >>= λ _. k

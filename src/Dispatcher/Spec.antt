-- ===== src/Dispatcher/Spec.antt =====
-- What the session of src/lib/dispatcher.cc promises, in the abstract: how many queries were sent and
-- completed, whether more are sent, and the ids that are waited for, in no order.
pub mod Unique
use mathlib.Core.Quot
use mathlib.Core.Quot.{Quot, Quot-set}
use queryperfpp.Base.{ℕ, zero, suc, ◌≡◌, Bool, true, false, List, [], ◌∷◌, arith, if◌then◌else◌}
use queryperfpp.Dispatcher.Numbering.{occurrences, to_qid}

abbrev pub SameIds : List ℕ → List ℕ → Type 0
SameIds xs ys = (k : ℕ) → occurrences k xs ≡ occurrences k ys

-- Ids, each as often as it is waited for.
abbrev pub Bag : Type 0
Bag = Quot SameIds

abbrev pub bag_of : List ℕ → Bag
bag_of = Quot.mk

unfoldable pub units : ℕ → Bag → ℕ
units k = Quot.lift (hlevel) (occurrences k) λ xs ys h. h k

unfoldable pub put : ℕ → Bag → Bag
put x = Quot.lift Quot-set (λ xs. bag_of (x ∷ xs)) λ xs ys h. Quot.sound λ k. omega (arith, h k)

pub record Window : Type 0 where
  pub sent : ℕ
  pub completed : ℕ
  pub sending : Bool
  pub waiting : Bag

-- What a callback means: nothing, the end of a query by its id, answered or given up, or the end of
-- the test.
pub data Label : Type 0 where
  nothing : Label
  done : Bool → ℕ → Label
  expired : Label

abbrev pub completed_by : Bool → ℕ → ℕ
completed_by answered n = if answered then suc n else n

-- An id that is not waited for changes nothing. Another leaves the bag; while more is sent the next
-- one takes its place, which is the number of queries sent so far in 16 bits.
pub data Step : Window → Label → Window → Type 0 where
  idle : (w : Window) → Step w nothing w
  unknown :
      (w : Window) (answered : Bool) (qid : ℕ)
      → units qid w.waiting ≡ 0
      → Step w (done answered qid) w
  refill :
      (w : Window) (answered : Bool) (qid : ℕ) (others : Bag)
      → w.sending ≡ true
      → w.waiting ≡ put qid others
      → Step w (done answered qid) (record w {
        sent = suc w.sent;
        completed = completed_by answered w.completed;
        waiting = put (to_qid w.sent) others;
      })
  retire :
      (w : Window) (answered : Bool) (qid : ℕ) (others : Bag)
      → w.sending ≡ false
      → w.waiting ≡ put qid others
      → Step w
          (done answered qid)
          (record w { completed = completed_by answered w.completed; waiting = others })
  expire : (w : Window) → Step w expired (record w { sending = false })

-- Any number of steps.
pub data Steps : Window → Window → Type 0 where
  stay : (w : Window) → Steps w w
  then_step : (u v w : Window) (l : Label) → Step u l v → Steps v w → Steps u w

-- The ids of the first queries, newest last.
abbrev pub first_ids : ℕ → ℕ → List ℕ
first_ids n zero = []
first_ids n (suc k) = to_qid n ∷ first_ids (suc n) k

-- The window when `n` queries have been sent and none is done.
abbrev pub initial : ℕ → Window
initial n = record { sent = n; completed = 0; sending = true; waiting = bag_of (first_ids 0 n) }

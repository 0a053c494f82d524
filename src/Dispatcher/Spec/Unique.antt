-- ===== src/Dispatcher/Spec/Unique.antt =====
-- The abstract session of src/lib/dispatcher.cc: what a callback means decides what it does.
use mathlib.Core.Quot
use mathlib.Core.Quot.{Quot, Quot-set}
use queryperfpp.Base.{ℕ, suc, ◌+◌, ◌≡◌, refl, sym, ap, ◌∙◌, arith, ◌==◌, if◌then◌else◌}
use queryperfpp.Dispatcher.Numbering.{to_qid}
use queryperfpp.Dispatcher.Spec.{
  Bag, units, put, Window, Label, completed_by, Step, idle, unknown, refill, retire, expire,
}

units-put : (k x : ℕ) (b : Bag) → units k (put x b) ≡ (if k == x then 1 else 0) + units k b
unfolding units put
units-put k x = Quot.ind (λ b. hlevel) (λ xs. refl)

ext : (b c : Bag) → ((k : ℕ) → units k b ≡ units k c) → b ≡ c
unfolding units
ext = Quot.ind (λ _. hlevel Quot-set) λ xs. Quot.ind (λ _. hlevel Quot-set) λ ys. Quot.sound

put-cancel : (x : ℕ) (b c : Bag) → put x b ≡ put x c → b ≡ c
put-cancel x b c e = ext b c λ k. omega (arith, units-put k x b, units-put k x c, ap (units k) e)

put-waited : (x : ℕ) (b : Bag) → units x (put x b) ≡ suc (units x b)
put-waited x b = ground (arith, units-put x x b)

-- The abstract session is deterministic: from one window, one meaning of a callback leads to one
-- window.
pub Step-unique : (u v w : Window) (l : Label) → Step u l v → Step u l w → v ≡ w
Step-unique u v w l (idle x) (idle y) = refl
Step-unique u v w l (expire x) (expire y) = refl
Step-unique u v w l (unknown x a q e) (unknown y a' q' e') = refl
Step-unique u v w l (unknown x a q e) (refill y a' q' o on e') =
    absurd (omega (arith, e, ap (units q) e', put-waited q o))
Step-unique u v w l (unknown x a q e) (retire y a' q' o on e') =
    absurd (omega (arith, e, ap (units q) e', put-waited q o))
Step-unique u v w l (refill x a q o on e) (unknown y a' q' e') =
    absurd (omega (arith, e', ap (units q) e, put-waited q o))
Step-unique u v w l (refill x a q o on e) (refill y a' q' o' on' e') =
    ap
      (λ (b : Bag). record x {
        sent = suc x.sent;
        completed = completed_by a x.completed;
        waiting = put (to_qid x.sent) b;
      })
      (put-cancel q o o' (sym e ∙ e'))
Step-unique u v w l (refill x a q o on e) (retire y a' q' o' off e') = absurd (cc)
Step-unique u v w l (retire x a q o on e) (unknown y a' q' e') =
    absurd (omega (arith, e', ap (units q) e, put-waited q o))
Step-unique u v w l (retire x a q o off e) (refill y a' q' o' on e') = absurd (cc)
Step-unique u v w l (retire x a q o off e) (retire y a' q' o' off' e') =
    ap (λ (b : Bag). record x { completed = completed_by a x.completed; waiting = b })
      (put-cancel q o o' (sym e ∙ e'))

-- ===== src/Base/Behind.antt =====
-- What holds behind an action if it returns.
use queryperfpp.Base.Effects.{Result, ok, err, Action, ◌>>=◌}

-- What holds behind an action that returns.
abbrev pub Gives : {S A : Type 0} → (A → S → Type 0) → Result A × S → Type 0
Gives P (ok a, s) = P a s
Gives P (err e, s) = Unit

result-Gives :
    {S A B : Type 0} (P : A → S → Type 0) (Q : B → S → Type 0) (r : Result A) (t s : S)
    (k : A → Action S B)
    → Gives P (r, t)
    → ((a : A) (u : S) → P a u → Gives Q (k a u))
    → Gives Q (◌>>=◌ (λ (_ : S). (r, t)) k s)
result-Gives P Q (ok a) t s k p h = h a t p
result-Gives P Q (err e) t s k p h = tt

pub bind-Gives :
    {S A B : Type 0} (P : A → S → Type 0) (Q : B → S → Type 0) (m : Action S A) (k : A → Action S B)
    (s : S)
    → Gives P (m s)
    → ((a : A) (u : S) → P a u → Gives Q (k a u))
    → Gives Q ((m >>= k) s)
bind-Gives P Q m k s p h = result-Gives P Q (m s).0 (m s).1 s k p h

pub Gives-map :
    {S A : Type 0} (P Q : A → S → Type 0) (x : Result A × S)
    → Gives P x
    → ((a : A) (s : S) → P a s → Q a s)
    → Gives Q x
Gives-map P Q (ok a, s) p h = h a s p
Gives-map P Q (err e, s) p h = tt

pub Gives-both :
    {S A : Type 0} (P Q : A → S → Type 0) (x : Result A × S)
    → Gives P x
    → Gives Q x
    → Gives (λ (a : A) (s : S). P a s × Q a s) x
Gives-both P Q (ok a, s) p q = (p, q)
Gives-both P Q (err e, s) p q = tt

-- What holds whether the action returns or throws.
pub always-Gives :
    {S A : Type 0} (Q : S → Type 0) (x : Result A × S) → Q x.1 → Gives (λ (_ : A) (s : S). Q s) x
always-Gives Q (ok a, s) q = q
always-Gives Q (err e, s) q = tt

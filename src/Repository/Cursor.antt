-- ===== src/Repository/Cursor.antt =====
-- A place in a list of requests that is gone through round and round, for
-- src/lib/query_repository.cc.
use native.Mathlib.Nat.{mod_self, mod-eq_of_lt}
use queryperfpp.Base.{
  ℕ, zero, suc, ◌+◌, ◌%◌, ◌≤◌, ◌<◌, ◌≡◌, refl, sym, ap, ◌∙◌, some, List, [], ◌∷◌, map, length,
  get_elem?, arith,
}
use queryperfpp.Repository.Dns.{Request}

-- The requests from an index on.
abbrev pub from_index : ℕ → List Request → List Request
from_index zero all = all
from_index (suc i) [] = []
from_index (suc i) (q ∷ all) = from_index i all

-- With nothing ahead, all comes again.
abbrev pub cycle : List Request → List Request → List Request
cycle all [] = all
cycle all (q ∷ ahead) = q ∷ ahead

pub cycle_self : (all : List Request) → cycle all all ≡ all
cycle_self [] = refl
cycle_self (q ∷ all) = refl

-- What an index finds, and what is behind it.
pub record Cut (all : List Request) (i : ℕ) : Type 0 where
  pub request : Request
  pub behind : List Request
  pub cut : from_index i all ≡ request ∷ behind
  pub found : get_elem? all i ≡ some request
  pub next : from_index (suc i) all ≡ behind

pub from_index-Cut : (all : List Request) (i : ℕ) → i < length all → Cut all i
from_index-Cut [] i h = absurd (omega arith)
from_index-Cut (q ∷ all) zero h = record {
  request = q;
  behind = all;
  cut = refl;
  found = refl;
  next = refl;
}
from_index-Cut (q ∷ all) (suc i) h =
    let c = from_index-Cut all i (omega arith) in
    record { request = c.request; behind = c.behind; cut = c.cut; found = c.found; next = c.next }

length-from_index :
    (all : List Request) (i : ℕ) → i ≤ length all → length (from_index i all) + i ≡ length all
length-from_index all zero h = omega arith
length-from_index [] (suc i) h = omega arith
length-from_index (q ∷ all) (suc i) h = omega (arith, length-from_index all i (omega arith))

-- Behind the index `i` comes the next one, and behind the last the first.
pub cycle-next :
    (all : List Request) (i : ℕ)
    → i < length all
    → cycle all (from_index (suc i) all) ≡ from_index ((i + 1) % length all) all
cycle-next all i h = go (from_index (suc i) all) refl
  where
    go :
        (xs : List Request)
        → from_index (suc i) all ≡ xs
        → cycle all xs ≡ from_index ((i + 1) % length all) all
    go [] e =
        let last : i + 1 ≡ length all =
          omega (arith, length-from_index all (suc i) h, ap (λ (ys : List Request). length ys) e) in
        ap (λ (k : ℕ). from_index k all)
          (sym (ap (λ (k : ℕ). k % length all) last ∙ mod_self (length all)))
    go (q ∷ xs) e =
        let inside : i + 1 < length all =
          omega (arith, length-from_index all (suc i) h, ap (λ (ys : List Request). length ys) e) in
        let same : suc i ≡ (i + 1) % length all = omega (arith, mod-eq_of_lt inside) in
        sym e ∙ ap (λ (k : ℕ). from_index k all) same

pub elem-map :
    {A B : Type 0} (f : A → B) (xs : List A) (i : ℕ) (x : A)
    → get_elem? xs i ≡ some x
    → get_elem? (map f xs) i ≡ some (f x)
elem-map f [] i x e = cc
elem-map f (y ∷ ys) zero x e = cc
elem-map f (y ∷ ys) (suc i) x e = elem-map f ys i x e

-- ===== src/Dispatcher/Loop/Find.antt =====
-- What `find_if` finds, for src/lib/dispatcher.cc.
use queryperfpp.Base.{
  suc, ◌+◌, ◌≡◌, refl, ap, Bool, true, false, Bool-cases, inl, inr, Option, none, some, List, [],
  ◌∷◌, ◌++◌, arith, length, length-append,
}
use queryperfpp.Dispatcher.Loop.{Split, cons_split, find_if}

module _ {A : Type 0} where
  -- Every element fails the test.
  abbrev pub Fail : (A → Bool) → List A → Type 0
  Fail p [] = Unit
  Fail p (x ∷ xs) = (p x ≡ false) × Fail p xs

  -- The first element that passes, and the list around it; or none passes.
  abbrev pub Finds : (A → Bool) → List A → Option (Split A) → Type 0
  Finds p xs none = Fail p xs
  Finds p xs (some s) = (xs ≡ s.before ++ s.found ∷ s.after) × (p s.found ≡ true) × Fail p s.before

  cons-Finds :
      (p : A → Bool) (x : A) (xs : List A) (o : Option (Split A))
      → p x ≡ false
      → Finds p xs o
      → Finds p (x ∷ xs) (cons_split x o)
  cons-Finds p x xs none e h = (e, h)
  cons-Finds p x xs (some s) e h = (ap (◌∷◌ x) h.0, h.1, (e, h.2))

  pub find_if-Finds : (p : A → Bool) (xs : List A) → Finds p xs (find_if p xs)
  unfolding find_if
  find_if-Finds p [] = tt
  find_if-Finds p (x ∷ xs) = elim (Bool-cases (p x)) [
    | inl hit ↦ rw hit (refl, hit, tt)
    | inr miss ↦ rw miss (cons-Finds p x xs (find_if p xs) miss (find_if-Finds p xs))
  ]

  -- Behind elements that fail, the one that passes is found.
  pub find_if_first :
      (p : A → Bool) (xs : List A) (y : A) (ys : List A)
      → Fail p xs
      → p y ≡ true
      → find_if p (xs ++ y ∷ ys) ≡ some (record { before = xs; found = y; after = ys })
  unfolding find_if
  find_if_first p [] y ys f h = rw h
  find_if_first p (x ∷ xs) y ys f h = rw (f.0, find_if_first p xs y ys f.1 h)

  pub length-middle :
      (xs : List A) (x : A) (ys : List A) → length (xs ++ x ∷ ys) ≡ suc (length xs + length ys)
  length-middle xs x ys = omega (arith, length-append xs (x ∷ ys))

  pub length-moved :
      (xs ys : List A) (x : A) → length (x ∷ (ys ++ xs)) ≡ suc (length xs + length ys)
  length-moved xs ys x = omega (arith, length-append ys xs)

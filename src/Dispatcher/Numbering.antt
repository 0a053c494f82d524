-- ===== src/Dispatcher/Numbering.antt =====
-- The numbers of the outstanding queries of src/lib/dispatcher.cc: each was the n-th that was sent,
-- no two have the same number, and the id of a query is its number in 16 bits. The list is in no
-- particular order, since a query that is sent again comes to its front.
use mathlib.Core.List.{map-append}
use queryperfpp.Base.{
  ℕ, suc, ◌+◌, ◌%◌, ◌≤◌, ◌<◌, ◌≡◌, refl, ap, some, List, [], ◌∷◌, ◌++◌, map, arith, ◌==◌, ltb,
  if◌then◌else◌,
}
use queryperfpp.Dispatcher.Types.{QueryEvent}
use queryperfpp.Dispatcher.Query.{u16_mod}
use queryperfpp.Dispatcher.Loop.{find_if, match_response}
use queryperfpp.Dispatcher.Loop.Find.{Fail, find_if_first}

-- How often a number is in a list.
abbrev pub occurrences : ℕ → List ℕ → ℕ
occurrences k [] = 0
occurrences k (x ∷ xs) = (if k == x then 1 else 0) + occurrences k xs

pub occurrences-append :
    (k : ℕ) (xs ys : List ℕ) → occurrences k (xs ++ ys) ≡ occurrences k xs + occurrences k ys
occurrences-append k [] ys = omega arith
occurrences-append k (x ∷ xs) ys = omega (arith, occurrences-append k xs ys)

-- Numbers below `sent`, each at most once.
abbrev pub Distinct : ℕ → List ℕ → Type 0
Distinct sent seqs = (k : ℕ) → occurrences k seqs ≤ (if ltb k sent then 1 else 0)

-- No number below `lo`.
abbrev pub From : ℕ → List ℕ → Type 0
From lo seqs = (k : ℕ) → k < lo → occurrences k seqs ≡ 0

-- A split of one list splits a list of the same images.
map-split :
    {A B : Type 0} (f : ℕ → B) (g : A → B) (seqs : List ℕ) (xs : List A) (x : A) (ys : List A)
    → map f seqs ≡ map g (xs ++ x ∷ ys)
    → (heads : List ℕ) × (q : ℕ) × (bs : List ℕ) × (seqs ≡ heads ++ q ∷ bs)
      × (map f heads ≡ map g xs)
      × (f q ≡ g x)
      × (map f bs ≡ map g ys)
map-split f g [] [] x ys e = cc
map-split f g [] (z ∷ xs) x ys e = cc
map-split f g (q ∷ seqs) [] x ys e = ([], q, seqs, refl, refl, cc, cc)
map-split f g (q ∷ seqs) (z ∷ xs) x ys e =
    let (heads, r, bs, split, left, mid, right) = map-split f g seqs xs x ys (cc) in
    (q ∷ heads, r, bs, ap (◌∷◌ q) split, cc, mid, right)

abbrev pub to_qid : ℕ → ℕ
to_qid n = n % u16_mod

module _ {C : Type 0} where
  abbrev pub qids : List (QueryEvent C) → List ℕ
  qids = map (λ (e : QueryEvent C). e.qid)

  -- The numbers of the outstanding queries, when `sent` have been sent.
  pub record IsNumbered (sent : ℕ) (events : List (QueryEvent C)) : Type 0 where
    pub seqs : List ℕ
    pub distinct : Distinct sent seqs
    pub ids : map to_qid seqs ≡ qids events

  pub IsNumbered-nil : (sent : ℕ) → IsNumbered sent []
  IsNumbered-nil sent = record { seqs = []; distinct = λ k. omega arith; ids = refl }

  -- A query that has just been sent for the first time goes to the end.
  pub IsNumbered-push :
      (sent : ℕ) (xs : List (QueryEvent C)) (y : QueryEvent C)
      → y.qid ≡ to_qid sent
      → IsNumbered sent xs
      → IsNumbered (suc sent) (xs ++ y ∷ [])
  IsNumbered-push sent xs y e o = record {
    seqs = o.seqs ++ sent ∷ [];
    distinct = λ k. ground (arith, occurrences-append k o.seqs (sent ∷ []), o.distinct k);
    ids = cc (
      map-append to_qid o.seqs (sent ∷ []),
      map-append (λ (z : QueryEvent C). z.qid) xs (y ∷ []),
      o.ids,
      e,
    );
  }

  module _ (sent : ℕ) (xs : List (QueryEvent C)) (x : QueryEvent C) (ys : List (QueryEvent C))
      (o : IsNumbered sent (xs ++ x ∷ ys)) where
    pub IsNumbered-remove : IsNumbered sent (xs ++ ys)
    IsNumbered-remove =
        let (heads, q, bs, split, left, mid, right) = map-split to_qid _ o.seqs xs x ys o.ids in
        record {
          seqs = heads ++ bs;
          distinct = λ k. ground (
            arith,
            occurrences-append k heads bs,
            occurrences-append k heads (q ∷ bs),
            ap (occurrences k) split,
            o.distinct k,
          );
          ids = cc (
            map-append to_qid heads bs,
            map-append (λ (z : QueryEvent C). z.qid) xs ys,
            left,
            right,
          );
        }

    -- A query that is sent again gets the next number and comes to the front.
    pub IsNumbered-restart :
        (next : ℕ) (y : QueryEvent C)
        → next ≡ suc sent
        → y.qid ≡ to_qid sent
        → IsNumbered next (y ∷ (ys ++ xs))
    IsNumbered-restart next y n e =
        let (heads, q, bs, split, left, mid, right) = map-split to_qid _ o.seqs xs x ys o.ids in
        record {
          seqs = sent ∷ (bs ++ heads);
          distinct = λ k. ground (
            arith,
            occurrences-append k bs heads,
            occurrences-append k heads (q ∷ bs),
            ap (occurrences k) split,
            o.distinct k,
          );
          ids = cc (
            map-append to_qid bs heads,
            map-append (λ (z : QueryEvent C). z.qid) ys xs,
            left,
            right,
            e,
          );
        }

    pub IsNumbered-replace : (y : QueryEvent C) → y.qid ≡ x.qid → IsNumbered sent (xs ++ y ∷ ys)
    IsNumbered-replace y e = record {
      seqs = o.seqs;
      distinct = o.distinct;
      ids = cc (
        map-append (λ (z : QueryEvent C). z.qid) xs (x ∷ ys),
        map-append (λ (z : QueryEvent C). z.qid) xs (y ∷ ys),
        o.ids,
        e,
      );
    }

  -- Within 65536 queries no earlier one in the list has the id of a later one.
  ids_differ :
      (lo q sent : ℕ) (heads bs : List ℕ) (xs : List (QueryEvent C)) (qid : ℕ)
      → Distinct sent (heads ++ q ∷ bs)
      → From lo (heads ++ q ∷ bs)
      → sent ≤ lo + u16_mod
      → map to_qid heads ≡ qids xs
      → to_qid q ≡ qid
      → Fail (match_response qid) xs
  ids_differ lo q sent heads bs [] qid o l near e f = tt
  ids_differ lo q sent [] bs (x ∷ xs) qid o l near e f = absurd (cc)
  ids_differ lo q sent (a ∷ heads) bs (x ∷ xs) qid o l near e f = (
    ground (
      arith,
      occurrences-append q heads (q ∷ bs),
      occurrences-append a heads (q ∷ bs),
      o q,
      o a,
      l q,
      l a,
    ),
    ids_differ lo q sent heads bs xs qid (λ k. omega (arith, o k)) (λ k h. omega (arith, l k h))
        near (cc) f,
  )

  -- If at most 65536 queries were sent from the oldest outstanding one on, a response with the id of
  -- an outstanding query is matched with that query and no other.
  pub find-own :
      (sent lo : ℕ) (xs : List (QueryEvent C)) (y : QueryEvent C) (ys : List (QueryEvent C))
      (o : IsNumbered sent (xs ++ y ∷ ys))
      → From lo o.seqs
      → sent ≤ lo + u16_mod
      → find_if (match_response y.qid) (xs ++ y ∷ ys)
        ≡ some (record { before = xs; found = y; after = ys })
  find-own sent lo xs y ys o late near =
      let (heads, q, bs, split, left, mid, right) = map-split to_qid _ o.seqs xs y ys o.ids in
      find_if_first (match_response y.qid) xs y ys
        (ids_differ lo q sent heads bs xs y.qid (rw split at o.distinct) (rw split at late) near
          left mid)
        (ground arith)

-- ===== src/Stream/Extract.antt =====
-- How `>>` goes over a line, word by word, for src/lib/query_repository.cc.
use queryperfpp.Base.{ℕ, ◌<◌, ◌≡◌, refl, ap, ◌∙◌, true, false, [], ◌∷◌, is_nil, Text, length, arith}
use queryperfpp.Stream.{Stream, extract, extract_from, skip_space, word_of, after_word, is_space}
use queryperfpp.Stream.Words.{
  words, ends_in_space, word-step, words-skip_space, skip_space-word, length-skip_space,
  length-after_word, ends-skip_space, ends-skipped, ends-after_word, after_word-space,
}

-- A stream over a line, with `r` ahead, as `>>` leaves it behind a word.
abbrev pub behind : Text → Text → Stream
behind line r = record {
  content = line;
  rest = r;
  eof_bit = is_nil r;
  fail_bit = false;
  bad_bit = false;
  seekable = true;
}

abbrev pub failed_at_end : Text → Stream
failed_at_end line = record (behind line []) { fail_bit = true }

pub extract-word :
    (line : Text) (c : ℕ) (t : Text) (d : ℕ) (u : Text)
    → skip_space (c ∷ t) ≡ d ∷ u
    → extract (behind line (c ∷ t)) [] ≡ (word_of (d ∷ u), behind line (after_word (d ∷ u)))
unfolding extract extract_from
extract-word line c t d u e = rw e refl

pub extract-space :
    (line : Text) (c : ℕ) (t : Text)
    → skip_space (c ∷ t) ≡ []
    → extract (behind line (c ∷ t)) [] ≡ ([], failed_at_end line)
unfolding extract extract_from
extract-space line c t e = rw e refl

pub extract-end : (line : Text) → extract (behind line []) [] ≡ ([], failed_at_end line)
unfolding extract
extract-end line = refl

-- Behind a word comes a space, or nothing.
abbrev pub Follows : Text → Type 0
Follows [] = Unit
Follows (c ∷ t) = is_space c ≡ true

pub after_word-Follows : (s : Text) → Follows (after_word s)
after_word-Follows s = go (after_word s) refl
  where
    go : (r : Text) → after_word s ≡ r → Follows r
    go [] e = tt
    go (c ∷ t) e = after_word-space s c t e

-- The words of a text, and of what is behind the first.
pub words-first :
    (s : Text) (d : ℕ) (u : Text)
    → skip_space s ≡ d ∷ u
    → words s ≡ word_of (d ∷ u) ∷ words (after_word (d ∷ u))
words-first s d u e = words-skip_space s ∙ ap words e ∙ word-step d u (skip_space-word s d u e)

pub ends-first :
    (s : Text) (d : ℕ) (u : Text)
    → skip_space s ≡ d ∷ u
    → ends_in_space s ≡ ends_in_space (after_word (d ∷ u))
ends-first s d u e = ends-skipped s d u e ∙ ends-after_word d u (skip_space-word s d u e)

pub ends-nothing :
    (c : ℕ) (t : Text) → is_space c ≡ true → skip_space (c ∷ t) ≡ [] → ends_in_space (c ∷ t) ≡ true
unfolding skip_space
ends-nothing c t space e = ends-skip_space c t (ground arith) space

pub shorter :
    (c : ℕ) (t : Text) (d : ℕ) (u : Text)
    → is_space c ≡ true
    → skip_space (c ∷ t) ≡ d ∷ u
    → length (after_word (d ∷ u)) < length (c ∷ t)
unfolding skip_space
shorter c t d u space e =
    ground (arith, length-skip_space t, length-after_word (d ∷ u), ap length e)

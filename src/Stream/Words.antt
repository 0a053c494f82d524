-- ===== src/Stream/Words.antt =====
-- The words of a text, and how the extraction `>>` of src/lib/query_repository.cc's streams takes them.
use queryperfpp.Base.{
  ℕ, ◌≤◌, ◌≡◌, refl, Bool, true, false, Bool-cases, inl, inr, List, [], ◌∷◌, if◌then◌else◌, Text,
  length, arith,
}
use queryperfpp.Stream.{is_space, skip_space, word_of, after_word}

-- Whether a text goes on with a word, and whether a space is its last character.
abbrev pub in_word : Text → Bool
in_word [] = false
in_word (c ∷ s) = if is_space c then false else true

abbrev pub ends_in_space : Text → Bool
ends_in_space [] = false
ends_in_space (c ∷ []) = is_space c
ends_in_space (c ∷ d ∷ s) = ends_in_space (d ∷ s)

-- One character before the words of what follows.
abbrev pub grow : ℕ → Bool → List Text → List Text
grow c true (w ∷ ws) = (c ∷ w) ∷ ws
grow c true [] = (c ∷ []) ∷ []
grow c false ws = (c ∷ []) ∷ ws

-- The words of a text, by its characters.
abbrev pub words : Text → List Text
words [] = []
words (c ∷ s) = if is_space c then words s else grow c (in_word s) (words s)

-- A text that starts with a word is the word and what is behind it.
pub word-step :
    (c : ℕ) (s : Text)
    → is_space c ≡ false
    → words (c ∷ s) ≡ word_of (c ∷ s) ∷ words (after_word (c ∷ s))
unfolding word_of after_word
word-step c [] e = rw e refl
word-step c (d ∷ s) e = elim (Bool-cases (is_space d)) [
  | inl space ↦ ground (arith, e, space)
  | inr letter ↦ ground (arith, e, letter, word-step d s letter)
]

pub words-skip_space : (s : Text) → words s ≡ words (skip_space s)
unfolding skip_space
words-skip_space [] = refl
words-skip_space (c ∷ s) = ground (arith, words-skip_space s)

-- Where the space ends: nothing is left, or a word.
pub skip_space-word : (s : Text) (c : ℕ) (t : Text) → skip_space s ≡ c ∷ t → is_space c ≡ false
unfolding skip_space
skip_space-word [] c t e = cc
skip_space-word (d ∷ s) c t e = ground (arith, skip_space-word s c t)

pub length-skip_space : (s : Text) → length (skip_space s) ≤ length s
unfolding skip_space
length-skip_space [] = omega arith
length-skip_space (c ∷ s) = ground (arith, length-skip_space s)

pub length-after_word : (s : Text) → length (after_word s) ≤ length s
unfolding after_word
length-after_word [] = omega arith
length-after_word (c ∷ s) = ground (arith, length-after_word s)

pub ends-skip_space :
    (c : ℕ) (s : Text) → skip_space s ≡ [] → is_space c ≡ true → ends_in_space (c ∷ s) ≡ true
unfolding skip_space
ends-skip_space c [] e h = h
ends-skip_space c (d ∷ s) e h = ground (arith, ends-skip_space d s)

pub ends-skipped :
    (s : Text) (c : ℕ) (t : Text) → skip_space s ≡ c ∷ t → ends_in_space s ≡ ends_in_space (c ∷ t)
unfolding skip_space
ends-skipped [] c t e = cc
ends-skipped (d ∷ []) c t e = ground (arith)
ends-skipped (d ∷ d' ∷ s) c t e = ground (arith, ends-skipped (d' ∷ s) c t)

pub ends-after_word :
    (c : ℕ) (s : Text)
    → is_space c ≡ false
    → ends_in_space (c ∷ s) ≡ ends_in_space (after_word (c ∷ s))
unfolding after_word
ends-after_word c [] e = ground (arith)
ends-after_word c (d ∷ s) e = ground (arith, ends-after_word d s)

-- Behind a word there is a space, or nothing.
pub after_word-space : (s : Text) (c : ℕ) (t : Text) → after_word s ≡ c ∷ t → is_space c ≡ true
unfolding after_word
after_word-space [] c t e = cc
after_word-space (d ∷ s) c t e = ground (arith, after_word-space s c t)

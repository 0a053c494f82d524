-- ===== src/Stream/Lines.antt =====
-- What one `getline` and one `>>` consume.
use queryperfpp.Base.{◌≤◌, ◌<◌, ◌≡◌, refl, false, [], ◌∷◌, arith, length, is_nil, Text}
use queryperfpp.Stream.{after_line, has_newline, skip_space, after_word}

pub after_line-le : (s : Text) → length (after_line s) ≤ length s
unfolding after_line
after_line-le [] = omega arith
after_line-le (c ∷ s) = ground (arith, after_line-le s)

-- A line that is not empty has taken something from the text.
pub after_line-lt : (s : Text) → is_nil s ≡ false → length (after_line s) < length s
unfolding after_line
after_line-lt [] h = cc
after_line-lt (c ∷ s) h = ground (arith, after_line-le s)

pub skip_space-le : (s : Text) → length (skip_space s) ≤ length s
unfolding skip_space
skip_space-le [] = omega arith
skip_space-le (c ∷ s) = ground (arith, skip_space-le s)

pub after_word-le : (s : Text) → length (after_word s) ≤ length s
unfolding after_word
after_word-le [] = omega arith
after_word-le (c ∷ s) = ground (arith, after_word-le s)

-- A text with no newline is one line, and nothing is left behind it.
pub after_line-nil : (s : Text) → has_newline s ≡ false → after_line s ≡ []
unfolding after_line has_newline
after_line-nil [] h = refl
after_line-nil (c ∷ s) h = ground (arith, after_line-nil s)

-- ===== src/Repository/Line/Options.antt =====
-- The options of a line by its words, against `parseQueryOptions` of src/lib/query_repository.cc.
use queryperfpp.Base.{
  ℕ, zero, suc, ◌<◌, ◌≡◌, refl, sym, ap, ◌∙◌, Bool, true, List, [], ◌∷◌, if◌then◌else◌, Text,
  length, arith, no_equals, Result, ok, err,
}
use queryperfpp.Stream.{Stream, extract, skip_space, word_of, after_word}
use queryperfpp.Stream.Words.{words, ends_in_space, words-skip_space}
use queryperfpp.Repository.Dns.{Dns}
use queryperfpp.Repository.Line.{split_option, read_option, parse_query_options}
use queryperfpp.Stream.Extract.{
  behind, failed_at_end, extract-word, extract-space, Follows, after_word-Follows, words-first,
  ends-first, ends-nothing, shorter,
}

module _ (dns : Dns) where
  -- The serial that the options give, from left to right; behind the last a space counts as an empty
  -- option.
  unfoldable pub options_of : List Text → Bool → ℕ → Result ℕ
  options_of [] trailing serial = if trailing then err no_equals else ok serial
  options_of (w ∷ ws) trailing serial = elim (read_option dns (split_option w) serial) [
    | err e ↦ err e
    | ok serial' ↦ options_of ws trailing serial'
  ]

  options_of-≡ :
      (ws ws' : List Text) (b b' : Bool) (serial : ℕ)
      → ws ≡ ws'
      → b ≡ b'
      → options_of ws b serial ≡ options_of ws' b' serial
  options_of-≡ ws ws' b b' serial p q = cc

  -- One round of `parseQueryOptions`.
  abbrev after_option : ℕ → ℕ → Text × Stream → Result ℕ
  after_option fuel serial (option, ss) = elim (read_option dns (split_option option) serial) [
    | err e ↦ err e
    | ok serial' ↦ parse_query_options dns fuel ss serial'
  ]

  no_option : (fuel serial : ℕ) (ss : Stream) → after_option fuel serial ([], ss) ≡ err no_equals
  unfolding read_option split_option
  no_option fuel serial ss = refl

  after_option-words :
      (fuel : ℕ) (line : Text) (serial : ℕ) (w r : Text)
      → ((serial : ℕ)
          → parse_query_options dns fuel (behind line r) serial
            ≡ options_of (words r) (ends_in_space r) serial)
      → after_option fuel serial (w, behind line r)
        ≡ options_of (w ∷ words r) (ends_in_space r) serial
  unfolding options_of
  after_option-words fuel line serial w r rest = go (read_option dns (split_option w) serial)
    where
      go :
          (x : Result ℕ)
          → ◌≡◌ {A = Result ℕ}
              (elim x [ err e ↦ err e | ok s ↦ parse_query_options dns fuel (behind line r) s ])
              (elim x [ err e ↦ err e | ok s ↦ options_of (words r) (ends_in_space r) s ])
      go (err e) = refl
      go (ok s) = rest s

  pub parse_query_options-words :
      (fuel : ℕ) (line r : Text) (serial : ℕ)
      → length r < fuel
      → Follows r
      → parse_query_options dns fuel (behind line r) serial
        ≡ options_of (words r) (ends_in_space r) serial
  unfolding parse_query_options options_of
  parse_query_options-words zero line r serial h f = absurd (omega arith)
  parse_query_options-words (suc fuel) line [] serial h f = refl
  parse_query_options-words (suc fuel) line (c ∷ t) serial h f =
      go (skip_space (c ∷ t)) refl λ d u e serial.
        parse_query_options-words fuel line (after_word (d ∷ u)) serial
          (omega (arith, shorter c t d u f e)) (after_word-Follows (d ∷ u))
    where
      go :
          (s : Text)
          → skip_space (c ∷ t) ≡ s
          → ((d : ℕ) (u : Text)
              → skip_space (c ∷ t) ≡ d ∷ u
              → (serial : ℕ)
              → parse_query_options dns fuel (behind line (after_word (d ∷ u))) serial
                ≡ options_of
                    (words (after_word (d ∷ u)))
                    (ends_in_space (after_word (d ∷ u)))
                    serial)
          → after_option fuel serial (extract (behind line (c ∷ t)) [])
            ≡ options_of (words (c ∷ t)) (ends_in_space (c ∷ t)) serial
      go [] e rest =
          ap (after_option fuel serial) (extract-space line c t e)
          ∙ no_option fuel serial (failed_at_end line)
          ∙ sym (
              options_of-≡ (words (c ∷ t)) [] (ends_in_space (c ∷ t)) true serial
                (words-skip_space (c ∷ t) ∙ ap words e) (ends-nothing c t f e))
      go (d ∷ u) e rest =
          ap (after_option fuel serial) (extract-word line c t d u e)
          ∙ after_option-words fuel line serial (word_of (d ∷ u)) (after_word (d ∷ u)) (rest d u e)
          ∙ sym (
              options_of-≡ (words (c ∷ t)) _ (ends_in_space (c ∷ t)) _ serial
                (words-first (c ∷ t) d u e) (ends-first (c ∷ t) d u e))

-- ===== src/Repository/Line/Describe.antt =====
-- What one line of query data says, by its words, against the parse of a line in
-- src/lib/query_repository.cc.
use queryperfpp.Base.{
  ℕ, suc, ◌≡◌, refl, sym, ap, ◌∙◌, Bool, true, Option, none, List, [], ◌∷◌, if◌then◌else◌, Text,
  length, arith, no_equals, Error, Result, ok, err,
}
use queryperfpp.Stream.{
  Stream, fails, extract, extract_from, open_stream, skip_space, word_of, after_word,
}
use queryperfpp.Stream.Words.{words, ends_in_space, words-skip_space}
use queryperfpp.Repository.Dns.{Dns, Request}
use queryperfpp.Repository.Line.{
  split_option, read_option, query_options, build_request, parse_line,
}
use queryperfpp.Stream.Extract.{
  behind, failed_at_end, extract-word, extract-space, extract-end, Follows, after_word-Follows,
  words-first, ends-first,
}
use queryperfpp.Repository.Line.Options.{options_of, parse_query_options-words}

module _ (dns : Dns) where
  -- A name, a type, and options.
  unfoldable pub describe : ℕ → List Text → Bool → Option Request
  describe qclass [] trailing = none
  describe qclass (qname ∷ []) trailing = none
  describe qclass (qname ∷ qtype ∷ options) trailing =
      build_request dns qclass qname qtype (options_of dns options trailing 0)

  module _ (qclass : ℕ) where
    -- The parts of the parse behind the type, and behind the name.
    abbrev after_type : Text → Text × Stream → Option Request
    after_type qname_text (qtype_text, ss) =
        if fails ss
        then none
        else build_request dns qclass qname_text qtype_text (query_options dns ss)

    abbrev after_name : Text × Stream → Option Request
    after_name (qname_text, ss) = after_type qname_text (extract ss [])

    describe-≡ :
        (ws ws' : List Text) (b b' : Bool)
        → ws ≡ ws'
        → b ≡ b'
        → describe qclass ws b ≡ describe qclass ws' b'
    describe-≡ ws ws' b b' p q = cc

    after_type-words :
        (line qname qtype r : Text)
        → Follows r
        → after_type qname (qtype, behind line r)
          ≡ describe qclass (qname ∷ qtype ∷ words r) (ends_in_space r)
    unfolding describe query_options
    after_type-words line qname qtype r f =
        ap (build_request dns qclass qname qtype)
          (parse_query_options-words dns (suc (suc (length r))) line r 0 (omega arith) f)

    after_name-words :
        (line qname r : Text)
        → Follows r
        → after_name (qname, behind line r) ≡ describe qclass (qname ∷ words r) (ends_in_space r)
    unfolding describe
    after_name-words line qname [] f = ap (after_type qname) (extract-end line)
    after_name-words line qname (c ∷ t) f = go (skip_space (c ∷ t)) refl
      where
        go :
            (s : Text)
            → skip_space (c ∷ t) ≡ s
            → after_name (qname, behind line (c ∷ t))
              ≡ describe qclass (qname ∷ words (c ∷ t)) (ends_in_space (c ∷ t))
        go [] e =
            ap (after_type qname) (extract-space line c t e)
            ∙ sym (
                describe-≡ (qname ∷ words (c ∷ t)) (qname ∷ []) _ _
                  (ap (λ (ws : List Text). qname ∷ ws) (words-skip_space (c ∷ t) ∙ ap words e))
                  refl)
        go (d ∷ u) e =
            ap (after_type qname) (extract-word line c t d u e)
            ∙ after_type-words line qname (word_of (d ∷ u)) (after_word (d ∷ u))
                (after_word-Follows (d ∷ u))
            ∙ sym (
                describe-≡ (qname ∷ words (c ∷ t)) _ _ _
                  (ap (λ (ws : List Text). qname ∷ ws) (words-first (c ∷ t) d u e))
                  (ends-first (c ∷ t) d u e))

    no_name : (line : Text) → after_name ([], failed_at_end line) ≡ none
    unfolding extract
    no_name line = refl

    -- A line is parsed as its words say: a name, a type and options, and a line that ends in a space
    -- has an empty option. The loop over the options ends.
    pub parse_line-describe :
        (line : Text)
        → parse_line dns qclass line ≡ describe qclass (words line) (ends_in_space line)
    unfolding parse_line describe open_stream extract extract_from skip_space
    parse_line-describe [] = refl
    parse_line-describe (c ∷ t) = go (skip_space (c ∷ t)) refl
      where
        go :
            (s : Text)
            → skip_space (c ∷ t) ≡ s
            → after_name (extract (behind (c ∷ t) (c ∷ t)) [])
              ≡ describe qclass (words (c ∷ t)) (ends_in_space (c ∷ t))
        go [] e =
            ap after_name (extract-space (c ∷ t) c t e)
            ∙ no_name (c ∷ t)
            ∙ sym (
                describe-≡ (words (c ∷ t)) [] (ends_in_space (c ∷ t)) _
                  (words-skip_space (c ∷ t) ∙ ap words e) refl)
        go (d ∷ u) e =
            ap after_name (extract-word (c ∷ t) c t d u e)
            ∙ after_name-words (c ∷ t) (word_of (d ∷ u)) (after_word (d ∷ u))
                (after_word-Follows (d ∷ u))
            ∙ sym (
                describe-≡ (words (c ∷ t)) _ _ _ (words-first (c ∷ t) d u e)
                  (ends-first (c ∷ t) d u e))

    options_of-trailing :
        (ws : List Text) (serial : ℕ) → (e : Error) × (options_of dns ws true serial ≡ err e)
    unfolding options_of
    options_of-trailing [] serial = (no_equals, refl)
    options_of-trailing (w ∷ ws) serial =
        go (read_option dns (split_option w) serial) λ s. options_of-trailing ws s
      where
        go :
            (r : Result ℕ)
            → ((s : ℕ) → (e : Error) × (options_of dns ws true s ≡ err e))
            → (e : Error) × ((elim r [ err e ↦ err e | ok s ↦ options_of dns ws true s ]) ≡ err e)
        go (err e) rest = (e, refl)
        go (ok s) rest = rest s

    describe-trailing : (ws : List Text) → describe qclass ws true ≡ none
    unfolding describe build_request
    describe-trailing [] = refl
    describe-trailing (qname ∷ []) = refl
    describe-trailing (qname ∷ qtype ∷ options) =
        ap (build_request dns qclass qname qtype) (options_of-trailing options 0).1

    -- A line that ends in a space, a tab or a carriage return gives no request, whatever it says.
    pub parse_line-trailing :
        (line : Text) → ends_in_space line ≡ true → parse_line dns qclass line ≡ none
    parse_line-trailing line e =
        parse_line-describe line
        ∙ ap (describe qclass (words line)) e
        ∙ describe-trailing (words line)

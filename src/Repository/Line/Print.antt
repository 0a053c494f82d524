-- ===== src/Repository/Line/Print.antt =====
-- Lines of query data that are written as src/lib/query_repository.cc reads them.
use queryperfpp.Base.{
  ℕ, ◌≡◌, refl, ap, ◌∙◌, Bool, false, Option, some, List, [], ◌∷◌, ◌++◌, map, Text, ◌==◌, arith,
  Result, ok, err,
}
use queryperfpp.Stream.{is_space}
use queryperfpp.Stream.Words.{words, in_word, ends_in_space}
use queryperfpp.Repository.Dns.{Dns}
use queryperfpp.Repository.Line.{
  cons_name, split_option, read_option, set_option, build_request, parse_line,
}
use queryperfpp.Repository.Line.Options.{options_of}
use queryperfpp.Repository.Line.Describe.{describe, parse_line-describe}

-- No space in a text.
abbrev pub NoSpace : Text → Type 0
NoSpace [] = Unit
NoSpace (c ∷ s) = (is_space c ≡ false) × NoSpace s

-- A word has a character and no space.
abbrev pub IsWord : Text → Type 0
IsWord [] = ⊥
IsWord (c ∷ s) = NoSpace (c ∷ s)

abbrev pub AllWords : List Text → Type 0
AllWords [] = Unit
AllWords (w ∷ ws) = IsWord w × AllWords ws

-- A word before a text: behind it, nothing or a space and more words.
abbrev pub after : List Text → Text
after [] = []
after (w ∷ ws) = 32 ∷ (w ++ after ws)

abbrev pub join : List Text → Text
join [] = []
join (w ∷ ws) = w ++ after ws

words-word :
    (c : ℕ) (s : Text) (ws : List Text)
    → NoSpace (c ∷ s)
    → in_word (after ws) ≡ false
    → words (c ∷ s ++ after ws) ≡ (c ∷ s) ∷ words (after ws)
words-word c [] ws (e, n) f = ground (arith)
words-word c (d ∷ s) ws (e, n) f = ground (arith, words-word d s ws n f)

after-in_word : (ws : List Text) → in_word (after ws) ≡ false
unfolding is_space
after-in_word [] = refl
after-in_word (w ∷ ws) = refl

words-after : (ws : List Text) → AllWords ws → words (after ws) ≡ ws
unfolding is_space
words-after [] a = refl
words-after ([] ∷ ws) (w, a) = elim w [ ]
words-after ((c ∷ s) ∷ ws) (w, a) =
    words-word c s ws w (after-in_word ws) ∙ ap (◌∷◌ (c ∷ s)) (words-after ws a)

ends-word :
    (c : ℕ) (s : Text) (ws : List Text)
    → NoSpace (c ∷ s)
    → ends_in_space (c ∷ s ++ after ws) ≡ ends_in_space (after ws)
ends-word c [] [] n = n.0
ends-word c [] (w ∷ ws) n = refl
ends-word c (d ∷ s) ws n = ends-word d s ws n.1

ends-after : (ws : List Text) → AllWords ws → ends_in_space (after ws) ≡ false
ends-after [] a = refl
ends-after ([] ∷ ws) (w, a) = elim w [ ]
ends-after ((c ∷ s) ∷ ws) (w, a) = ends-word c s ws w ∙ ends-after ws a

-- Words that are joined by spaces are read as these words.
words-join : (ws : List Text) → AllWords ws → words (join ws) ≡ ws
words-join [] a = refl
words-join ([] ∷ ws) (w, a) = elim w [ ]
words-join ((c ∷ s) ∷ ws) (w, a) =
    words-word c s ws w (after-in_word ws) ∙ ap (◌∷◌ (c ∷ s)) (words-after ws a)

ends-join : (ws : List Text) → AllWords ws → ends_in_space (join ws) ≡ false
ends-join [] a = refl
ends-join ([] ∷ ws) (w, a) = elim w [ ]
ends-join ((c ∷ s) ∷ ws) (w, a) = ends-word c s ws w ∙ ends-after ws a

-- An option is a name without `=`, and a value.
abbrev pub QueryOption : Type 0
QueryOption = Text × Text

abbrev pub NoEquals : Text → Type 0
NoEquals [] = Unit
NoEquals (c ∷ s) = (c == b'=' ≡ false) × NoEquals s

abbrev pub print_option : QueryOption → Text
print_option (optname, optarg) = optname ++ b'=' ∷ optarg

abbrev pub AllOptions : List QueryOption → Type 0
AllOptions [] = Unit
AllOptions ((optname, optarg) ∷ os) =
    NoEquals optname × (NoSpace optname × (NoSpace optarg × AllOptions os))

split_option-print :
    (optname optarg : Text)
    → NoEquals optname
    → split_option (print_option (optname, optarg)) ≡ some (optname, optarg)
unfolding split_option cons_name
split_option-print [] optarg n = refl
split_option-print (c ∷ s) optarg (e, n) = ground (arith, split_option-print s optarg n)

NoSpace-append : (s t : Text) → NoSpace s → NoSpace t → NoSpace (s ++ t)
NoSpace-append [] t n m = m
NoSpace-append (c ∷ s) t (e, n) m = (e, NoSpace-append s t n m)

print_option-IsWord :
    (optname optarg : Text)
    → NoSpace optname
    → NoSpace optarg
    → IsWord (print_option (optname, optarg))
unfolding is_space
print_option-IsWord [] optarg n m = (refl, m)
print_option-IsWord (c ∷ s) optarg (e, n) m = (e, NoSpace-append s (b'=' ∷ optarg) n (refl, m))

AllOptions-AllWords : (os : List QueryOption) → AllOptions os → AllWords (map print_option os)
AllOptions-AllWords [] a = tt
AllOptions-AllWords ((optname, optarg) ∷ os) (e, (n, (m, a))) =
    (print_option-IsWord optname optarg n m, AllOptions-AllWords os a)

abbrev pub print_query : Text → Text → List QueryOption → Text
print_query qname qtype os = join (qname ∷ qtype ∷ map print_option os)

module _ (dns : Dns) where
  -- What the options set, one by one.
  abbrev pub set_options : List QueryOption → ℕ → Result ℕ
  set_options [] serial = ok serial
  set_options ((optname, optarg) ∷ os) serial = elim (set_option dns optname optarg serial) [
    | err e ↦ err e
    | ok serial' ↦ set_options os serial'
  ]

  -- The options behind one.
  abbrev behind_option : List QueryOption → Result ℕ → Result ℕ
  behind_option os (err e) = err e
  behind_option os (ok serial) = options_of dns (map print_option os) false serial

  options_of-print :
      (os : List QueryOption) (serial : ℕ)
      → AllOptions os
      → options_of dns (map print_option os) false serial ≡ set_options os serial
  unfolding options_of read_option
  options_of-print [] serial a = refl
  options_of-print ((optname, optarg) ∷ os) serial (e, (n, (m, a))) =
      ap (λ (o : Option QueryOption). behind_option os (read_option dns o serial))
        (split_option-print optname optarg e)
      ∙ go (set_option dns optname optarg serial) λ s. options_of-print os s a
    where
      go :
          (r : Result ℕ)
          → ((s : ℕ) → options_of dns (map print_option os) false s ≡ set_options os s)
          → ◌≡◌ {A = Result ℕ}
              (elim r [ err e ↦ err e | ok s ↦ options_of dns (map print_option os) false s ])
              (elim r [ err e ↦ err e | ok s ↦ set_options os s ])
      go (err e) rest = refl
      go (ok s) rest = rest s

  -- A query that is written with single spaces is read back: its name, its type and, from left to
  -- right, its options.
  pub parse_line-print :
      (qclass : ℕ) (qname qtype : Text) (os : List QueryOption)
      → IsWord qname
      → IsWord qtype
      → AllOptions os
      → parse_line dns qclass (print_query qname qtype os)
        ≡ build_request dns qclass qname qtype (set_options os 0)
  unfolding describe
  parse_line-print qclass qname qtype os n t a =
      let all : AllWords (qname ∷ qtype ∷ map print_option os) =
        (n, (t, AllOptions-AllWords os a)) in
      parse_line-describe dns qclass (print_query qname qtype os)
      ∙ ap (λ (b : Bool). describe dns qclass (words (print_query qname qtype os)) b)
          (ends-join (qname ∷ qtype ∷ map print_option os) all)
      ∙ ap (λ (ws : List Text). describe dns qclass ws false)
          (words-join (qname ∷ qtype ∷ map print_option os) all)
      ∙ ap (build_request dns qclass qname qtype) (options_of-print os 0 a)

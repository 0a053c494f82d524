-- ===== src/Main/Usage.antt =====
-- `usage` of src/bin/queryperfpp/queryperfpp.cc: the text that it writes to the standard error before
-- the program exits with status 1, and the options that it names.
use queryperfpp.Base.{
  zero, suc, ℕ, ◌≡◌, refl, ◌||◌, Bool, true, false, List, [], ◌∷◌, ◌++◌, ◌==◌, if◌then◌else◌, Text,
  codes, arith, Result, ok, err, length,
}
use queryperfpp.Stream.Decimal.{decimal, decimal_on}
use queryperfpp.Repository.Requests.{lines}
use queryperfpp.Dispatcher.Settings.{default_port, default_duration, default_server}
use queryperfpp.Main.Options.{Options, take_option}

abbrev pub default_thread_count : ℕ
default_thread_count = 1

abbrev pub default_class : Text
default_class = codes "IN"

abbrev pub default_dnssec : Bool
default_dnssec = true

abbrev pub default_edns : Bool
default_edns = true

abbrev pub default_protocol : Text
default_protocol = codes "udp"

abbrev on_off : Bool → Text
on_off flag = if flag then codes "on" else codes "off"

-- `std::string(size, ' ')`
abbrev pub spaces : ℕ → Text
spaces zero = []
spaces (suc n) = b' ' ∷ spaces n

abbrev usage_head : Text
usage_head = codes "Usage: queryperf++ "

unfoldable pub usage : Text
unfolding decimal
usage =
    usage_head
    ++ codes "[-C qclass] [-d datafile] [-D on|off] [-e on|off] [-l limit]\n"
    ++ spaces (length usage_head)
    ++ codes "[-L] [-n #threads] [-p port] [-P udp|tcp] [-Q query_sequence]\n"
    ++ spaces (length usage_head)
    ++ codes "[-s server_addr]\n"
    ++ codes "  -C sets default query class (default: "
    ++ default_class
    ++ codes ")\n"
    ++ codes "  -d sets the input data file (default: stdin)\n"
    ++ codes "  -D sets whether to set EDNS DO bit (default: "
    ++ on_off default_edns
    ++ codes ")\n"
    ++ codes "  -e sets whether to include EDNS (default: "
    ++ on_off default_dnssec
    ++ codes ")\n"
    ++ codes "  -l sets how long to run tests in seconds (default: "
    ++ decimal default_duration
    ++ codes ")\n"
    ++ codes "  -L enables query preloading (default: disabled)\n"
    ++ codes "  -n sets the number of querying threads (default: "
    ++ decimal default_thread_count
    ++ codes ")\n"
    ++ codes "  -p sets the port on which to query the server (default: "
    ++ decimal default_port
    ++ codes ")\n"
    ++ codes "  -P sets transport protocol for queries (default: "
    ++ default_protocol
    ++ codes ")\n"
    ++ codes "  -Q sets newline-separated query data (default: unspecified)\n"
    ++ codes "  -s sets the server to query (default: "
    ++ default_server
    ++ codes ")"
    ++ codes "\n"

-- A letter in front of the letters of some lines, if the line is about an option.
abbrev cons_letter : Text → Text → Text
cons_letter (a ∷ b ∷ c ∷ letter ∷ line) letters =
    if a == b' '
    then if b == b' ' then if c == b'-' then letter ∷ letters else letters else letters
    else letters
cons_letter _ letters = letters

abbrev letters_of : List Text → Text
letters_of [] = []
letters_of (line ∷ rest) = cons_letter line (letters_of rest)

-- The letters of the options that a text explains, each on a line of its own.
abbrev pub explained : Text → Text
explained text = letters_of (lines text)

abbrev pub holds : ℕ → Text → Bool
holds ch [] = false
holds ch (c ∷ text) = ch == c || holds ch text

abbrev pub is_ok : {A : Type 0} → Result A → Bool
is_ok (ok a) = true
is_ok (err e) = false

usage-letters : explained usage ≡ codes "CdDelLnpPQs"
unfolding usage lines decimal decimal_on
usage-letters = refl

-- The options that the main program takes are those that its usage explains, a line for each; any
-- other letter of `getopt` ends the program.
pub take_option-explained :
    (ch : ℕ) (optarg : Text) (o : Options)
    → is_ok (take_option ch optarg o) ≡ holds ch (explained usage)
unfolding take_option
take_option-explained ch optarg o = rw usage-letters (ground arith)

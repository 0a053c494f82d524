-- ===== src/Repository/Dns.antt =====
-- The requests of src/lib/query_repository.cc, and what the file takes from bundy's libdns++ and
-- from boost: `Dns` is a parameter of all that calls them.
use queryperfpp.Base.{ℕ, Bool, Option, List, Text}

-- A constructor or function that throws on a bad argument returns `none` here.
pub record Dns : Type 0 where
  -- `RRType(text)` and `RRClass(text)`, by their 16-bit codes.
  pub rrtype : Text → Option ℕ
  pub rrclass : Text → Option ℕ
  -- `Name(text)`, by the name's wire form.
  pub name : Text → Option Text
  -- `createRdata(RRType::SOA(), class, text)`, by the wire form.
  pub soa_rdata : ℕ → Text → Option Text
  -- `RRType::AXFR()`, `RRType::IXFR()` and `RRClass::IN()`.
  pub axfr : ℕ
  pub ixfr : ℕ
  pub class_in : ℕ
  -- `lexical_cast<uint32_t>(text)` and `lexical_cast<string>(n)`.
  pub cast_u32 : Text → Option ℕ
  pub show_u32 : ℕ → Text

pub record Question : Type 0 where
  pub qname : Text
  pub qclass : ℕ
  pub qtype : ℕ

-- An RRset with the one rdata that the source adds.
pub record Rrset : Type 0 where
  pub owner : Text
  pub rrclass : ℕ
  pub rrtype : ℕ
  pub ttl : ℕ
  pub rdata : Text

-- A question with the RRsets of the authority section.
abbrev pub Request : Type 0
Request = Question × List Rrset

-- `struct RequestParam`; `question` is a shared pointer, null at first.
pub record RequestParam : Type 0 where
  pub question : Option Question
  pub proto : ℕ
  pub authorities : List Rrset
  pub use_dnssec : Bool
  pub use_edns : Bool

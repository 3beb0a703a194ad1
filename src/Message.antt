-- ===== src/Message.antt =====
-- src/dnsmessage.pb-c.h: the decoded messages that the engines read. A field behind a `has_` flag
-- is an option, as is a string, which may be NULL. Fields that no engine reads are left out.
use pdns_logger.Base.{
  Bool, true, false, ℕ, List, [], ◌∷◌, ◌++◌, Option, none, some, ◌==◌, if◌then◌else◌,
}
use pdns_logger.Text.{Text}

-- `ProtobufCBinaryData`: `len` bytes at `data`, and what the memory holds behind them. The decoder
-- sets `data` to NULL for a field without bytes.
pub record Binary : Type 0 where
  pub bytes : List ℕ
  pub beyond : List ℕ

-- What a pointer to memory is as a string: the bytes before the first NUL.
abbrev pub until_nul : List ℕ → Text
until_nul [] = []
until_nul (c ∷ cs) = if c == 0 then [] else c ∷ until_nul cs

-- `data` as a `char *`. With no NUL among the bytes the reading goes on behind them.
abbrev pub as_string : Binary → Option Text
as_string b = elim b.bytes [ [] ↦ none | x ∷ xs ↦ some (until_nul (x ∷ (xs ++ b.beyond))) ]

abbrev pub has_nul : List ℕ → Bool
has_nul [] = false
has_nul (c ∷ cs) = if c == 0 then true else has_nul cs

-- Read as a string, the field is NULL or ends within its bytes.
abbrev pub terminated : Binary → Bool
terminated b = elim b.bytes [ [] ↦ true | x ∷ xs ↦ has_nul (x ∷ xs) ]

-- `PBDNSMessage__DNSResponse__DNSRR`
pub record Record : Type 0 where
  pub name : Option Text
  pub type : Option ℕ
  pub class_ : Option ℕ
  pub ttl : Option ℕ
  pub rdata : Option Binary

-- `PBDNSMessage__DNSQuestion`
pub record Question : Type 0 where
  pub qname : Option Text
  pub qtype : Option ℕ
  pub qclass : Option ℕ

-- `PBDNSMessage__DNSResponse`; `n_rrs` is the length of `rrs`.
pub record Response : Type 0 where
  pub rcode : Option ℕ
  pub rrs : List Record
  pub appliedpolicy : Option Text

-- `PBDNSMessage`
pub record Message : Type 0 where
  pub timesec : Option ℕ
  pub id : Option ℕ
  pub from : Option Binary
  pub originalrequestorsubnet : Option Binary
  pub question : Option Question
  pub response : Option Response

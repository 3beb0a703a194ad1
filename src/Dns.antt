-- ===== src/Dns.antt =====
-- src/pdns-logger-dns.c and src/pdns-logger-dns.h: names of DNS classes, types and reply codes.
pub mod Codes
pub mod Lookup
use Prim.Native.String.{String}
use pdns_logger.Base.{ℕ, List, [], ◌∷◌, Option, none, some, ltb, length, get_elem?, if◌then◌else◌}
use pdns_logger.Dns.Codes.*
use pdns_logger.Text.{Text, codes}

-- `struct dns_nameval`; the name of a table's last entry is NULL.
abbrev pub NameVal : Type 0
NameVal = ℕ × Option Text

abbrev entry : ℕ → String → NameVal
entry v name = (v, some (codes name))

abbrev sentinel : NameVal
sentinel = (0, none)

abbrev pub dns_classtab : List NameVal
dns_classtab =
    entry (class_number dns_c_invalid) "INVALID"
    ∷ entry (class_number dns_c_in) "IN"
    ∷ entry (class_number dns_c_ch) "CH"
    ∷ entry (class_number dns_c_hs) "HS"
    ∷ entry (class_number dns_c_any) "ANY"
    ∷ sentinel
    ∷ []

abbrev pub dns_typetab : List NameVal
dns_typetab =
    entry (type_number dns_t_invalid) "INVALID"
    ∷ entry (type_number dns_t_a) "A"
    ∷ entry (type_number dns_t_ns) "NS"
    ∷ entry (type_number dns_t_md) "MD"
    ∷ entry (type_number dns_t_mf) "MF"
    ∷ entry (type_number dns_t_cname) "CNAME"
    ∷ entry (type_number dns_t_soa) "SOA"
    ∷ entry (type_number dns_t_mb) "MB"
    ∷ entry (type_number dns_t_mg) "MG"
    ∷ entry (type_number dns_t_mr) "MR"
    ∷ entry (type_number dns_t_null) "NULL"
    ∷ entry (type_number dns_t_wks) "WKS"
    ∷ entry (type_number dns_t_ptr) "PTR"
    ∷ entry (type_number dns_t_hinfo) "HINFO"
    ∷ entry (type_number dns_t_minfo) "MINFO"
    ∷ entry (type_number dns_t_mx) "MX"
    ∷ entry (type_number dns_t_txt) "TXT"
    ∷ entry (type_number dns_t_rp) "RP"
    ∷ entry (type_number dns_t_afsdb) "AFSDB"
    ∷ entry (type_number dns_t_x25) "X25"
    ∷ entry (type_number dns_t_isdn) "ISDN"
    ∷ entry (type_number dns_t_rt) "RT"
    ∷ entry (type_number dns_t_nsap) "NSAP"
    ∷ entry (type_number dns_t_nsap_ptr) "NSAP_PTR"
    ∷ entry (type_number dns_t_sig) "SIG"
    ∷ entry (type_number dns_t_key) "KEY"
    ∷ entry (type_number dns_t_px) "PX"
    ∷ entry (type_number dns_t_gpos) "GPOS"
    ∷ entry (type_number dns_t_aaaa) "AAAA"
    ∷ entry (type_number dns_t_loc) "LOC"
    ∷ entry (type_number dns_t_nxt) "NXT"
    ∷ entry (type_number dns_t_eid) "EID"
    ∷ entry (type_number dns_t_nimloc) "NIMLOC"
    ∷ entry (type_number dns_t_srv) "SRV"
    ∷ entry (type_number dns_t_atma) "ATMA"
    ∷ entry (type_number dns_t_naptr) "NAPTR"
    ∷ entry (type_number dns_t_kx) "KX"
    ∷ entry (type_number dns_t_cert) "CERT"
    ∷ entry (type_number dns_t_a6) "A6"
    ∷ entry (type_number dns_t_dname) "DNAME"
    ∷ entry (type_number dns_t_sink) "SINK"
    ∷ entry (type_number dns_t_opt) "OPT"
    ∷ entry (type_number dns_t_tsig) "TSIG"
    ∷ entry (type_number dns_t_ixfr) "IXFR"
    ∷ entry (type_number dns_t_axfr) "AXFR"
    ∷ entry (type_number dns_t_mailb) "MAILB"
    ∷ entry (type_number dns_t_maila) "MAILA"
    ∷ entry (type_number dns_t_any) "ANY"
    ∷ entry (type_number dns_t_zxfr) "ZXFR"
    ∷ entry (type_number dns_t_max) "MAX"
    ∷ sentinel
    ∷ []

abbrev pub dns_rcodetab : List NameVal
dns_rcodetab =
    entry (rcode_number dns_r_noerror) "NOERROR"
    ∷ entry (rcode_number dns_r_formerr) "FORMERR"
    ∷ entry (rcode_number dns_r_servfail) "SERVFAIL"
    ∷ entry (rcode_number dns_r_nxdomain) "NXDOMAIN"
    ∷ entry (rcode_number dns_r_notimpl) "NOTIMPL"
    ∷ entry (rcode_number dns_r_refused) "REFUSED"
    ∷ entry (rcode_number dns_r_yxdomain) "YXDOMAIN"
    ∷ entry (rcode_number dns_r_yxrrset) "YXRRSET"
    ∷ entry (rcode_number dns_r_nxrrset) "NXRRSET"
    ∷ entry (rcode_number dns_r_notauth) "NOTAUTH"
    ∷ entry (rcode_number dns_r_notzone) "NOTZONE"
    ∷ entry (rcode_number dns_r_badsig) "BADSIG"
    ∷ entry (rcode_number dns_r_badkey) "BADKEY"
    ∷ entry (rcode_number dns_r_badtime) "BADTIME"
    ∷ sentinel
    ∷ []

-- The lookups take the number for an index into the table. It is unsigned, and compared with the
-- number of entries, the last one included.
abbrev pub name_at : List NameVal → ℕ → Option Text
name_at table i =
    if ltb i (length table) then (elim (get_elem? table i) [ none ↦ none | some e ↦ e.1 ]) else none

-- `pdns_logger_rcode2p`
unfoldable pub rcode2p : ℕ → Option Text
rcode2p i = name_at dns_rcodetab i

-- `pdns_logger_type2p`
unfoldable pub type2p : ℕ → Option Text
type2p i = name_at dns_typetab i

-- `pdns_logger_class2p`
unfoldable pub class2p : ℕ → Option Text
class2p i = name_at dns_classtab i

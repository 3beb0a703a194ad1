-- ===== src/Dns/Codes.antt =====
-- src/pdns-logger-dns.h: the enumerations of DNS classes, types and reply codes.
use pdns_logger.Base.{ℕ}

-- `enum dns_class_e`
pub data DnsClass : Type 0 where
  dns_c_invalid dns_c_in dns_c_ch dns_c_hs dns_c_any : DnsClass

abbrev pub class_number : DnsClass → ℕ
class_number dns_c_invalid = 0
class_number dns_c_in = 1
class_number dns_c_ch = 3
class_number dns_c_hs = 4
class_number dns_c_any = 255

-- `enum dns_type_e`
pub data DnsType : Type 0 where
  dns_t_invalid dns_t_a dns_t_ns dns_t_md dns_t_mf dns_t_cname : DnsType
  dns_t_soa dns_t_mb dns_t_mg dns_t_mr dns_t_null dns_t_wks : DnsType
  dns_t_ptr dns_t_hinfo dns_t_minfo dns_t_mx dns_t_txt dns_t_rp : DnsType
  dns_t_afsdb dns_t_x25 dns_t_isdn dns_t_rt dns_t_nsap dns_t_nsap_ptr : DnsType
  dns_t_sig dns_t_key dns_t_px dns_t_gpos dns_t_aaaa dns_t_loc : DnsType
  dns_t_nxt dns_t_eid dns_t_nimloc dns_t_srv dns_t_atma dns_t_naptr : DnsType
  dns_t_kx dns_t_cert dns_t_a6 dns_t_dname dns_t_sink dns_t_opt : DnsType
  dns_t_tsig dns_t_ixfr dns_t_axfr dns_t_mailb dns_t_maila dns_t_any : DnsType
  dns_t_zxfr dns_t_max : DnsType

abbrev pub type_number : DnsType → ℕ
type_number dns_t_invalid = 0
type_number dns_t_a = 1
type_number dns_t_ns = 2
type_number dns_t_md = 3
type_number dns_t_mf = 4
type_number dns_t_cname = 5
type_number dns_t_soa = 6
type_number dns_t_mb = 7
type_number dns_t_mg = 8
type_number dns_t_mr = 9
type_number dns_t_null = 10
type_number dns_t_wks = 11
type_number dns_t_ptr = 12
type_number dns_t_hinfo = 13
type_number dns_t_minfo = 14
type_number dns_t_mx = 15
type_number dns_t_txt = 16
type_number dns_t_rp = 17
type_number dns_t_afsdb = 18
type_number dns_t_x25 = 19
type_number dns_t_isdn = 20
type_number dns_t_rt = 21
type_number dns_t_nsap = 22
type_number dns_t_nsap_ptr = 23
type_number dns_t_sig = 24
type_number dns_t_key = 25
type_number dns_t_px = 26
type_number dns_t_gpos = 27
type_number dns_t_aaaa = 28
type_number dns_t_loc = 29
type_number dns_t_nxt = 30
type_number dns_t_eid = 31
type_number dns_t_nimloc = 32
type_number dns_t_srv = 33
type_number dns_t_atma = 34
type_number dns_t_naptr = 35
type_number dns_t_kx = 36
type_number dns_t_cert = 37
type_number dns_t_a6 = 38
type_number dns_t_dname = 39
type_number dns_t_sink = 40
type_number dns_t_opt = 41
type_number dns_t_tsig = 250
type_number dns_t_ixfr = 251
type_number dns_t_axfr = 252
type_number dns_t_mailb = 253
type_number dns_t_maila = 254
type_number dns_t_any = 255
type_number dns_t_zxfr = 256
type_number dns_t_max = 65536

-- `enum dns_rcode_e`
pub data DnsRcode : Type 0 where
  dns_r_noerror dns_r_formerr dns_r_servfail dns_r_nxdomain dns_r_notimpl dns_r_refused : DnsRcode
  dns_r_yxdomain dns_r_yxrrset dns_r_nxrrset dns_r_notauth dns_r_notzone dns_r_badsig : DnsRcode
  dns_r_badkey dns_r_badtime : DnsRcode

abbrev pub rcode_number : DnsRcode → ℕ
rcode_number dns_r_noerror = 0
rcode_number dns_r_formerr = 1
rcode_number dns_r_servfail = 2
rcode_number dns_r_nxdomain = 3
rcode_number dns_r_notimpl = 4
rcode_number dns_r_refused = 5
rcode_number dns_r_yxdomain = 6
rcode_number dns_r_yxrrset = 7
rcode_number dns_r_nxrrset = 8
rcode_number dns_r_notauth = 9
rcode_number dns_r_notzone = 10
rcode_number dns_r_badsig = 16
rcode_number dns_r_badkey = 17
rcode_number dns_r_badtime = 18

-- ===== src/Status.antt =====
-- src/pdns-logger.h.in: the status that most functions of the daemon return.

-- `pdns_status_t`
pub data Status : Type 0 where
  pdns_no pdns_ok pdns_fork pdns_retry : Status

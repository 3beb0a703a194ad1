-- ===== src/Sqlite/Wanted.antt =====
-- logsqlite_log of src/pdns-logger-sqlite.c for a message that is to be logged.
use pdns_logger.Base.{
  ℕ, Bool, false, ◌&&◌, ◌||◌, Option, some, ◌≡◌, ap, ◌∙◌, Result, ok, ◌>>=◌, if◌then◌else◌,
}
use pdns_logger.Line.{Libc}
use pdns_logger.Message.{Response, Message}
use pdns_logger.Sqlite.{Engine, log, log_records, log_response}
use pdns_logger.Sqlite.Rows.{Row}
use pdns_logger.Status.{pdns_ok}
use pdns_logger.Text.{Text, zstr}

-- It goes on to the records.
pub log-wanted :
    (c : Libc) (mprintf : Row → Option Text) (ndebug : Bool) (memory : ℕ → Bool)
    (between : ℕ → Engine → Result Engine) (msg : Message) (r : Response) (s : Engine)
    → msg.response ≡ some r
    → s.disabled ≡ false
    → (s.rewrites_only && zstr r.appliedpolicy) ≡ false
    → log c mprintf ndebug memory between (some msg) s
      ≡ (log_records c mprintf ndebug memory between msg r r.rrs s >>= λ s'. ok (pdns_ok, s'))
unfolding log log_response
log-wanted c mprintf ndebug memory between msg r s answered enabled wanted =
    let rest =
      log_records c mprintf ndebug memory between msg r r.rrs s >>= λ s'. ok (pdns_ok, s') in
    ap (λ o. log_response c mprintf ndebug memory between msg o s) answered
    ∙ ap (λ b. if b || (s.rewrites_only && zstr r.appliedpolicy) then ok (pdns_ok, s) else rest)
        enabled
    ∙ ap (λ b. if b then ok (pdns_ok, s) else rest) wanted

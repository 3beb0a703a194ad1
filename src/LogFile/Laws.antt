-- ===== src/LogFile/Laws.antt =====
-- The options of src/pdns-logger-file.c, and what its engine writes for a message.
use pdns_logger.Base.{
  ◌≤◌, Bool, true, false, not, ◌&&◌, ◌||◌, ◌⊎◌, List, [], ◌∷◌, ◌++◌, Option, none, some, ◌≡◌, refl,
  sym, ◌∙◌, ap, arith, if◌then◌else◌, ok, length, append_assoc, append-nil,
}
use pdns_logger.Config.Options.{sets, setting, is-text_eq}
use pdns_logger.Config.{Entry, Ini, string, handle_all}
use pdns_logger.Line.Bounds.{joined}
use pdns_logger.Line.Overflow.{message_pieces, message_lines, log_message-fits}
use pdns_logger.Line.Records.{write_all}
use pdns_logger.Line.{Libc, log_message}
use pdns_logger.LogFile.{Event, opened, wrote, flushed, Engine, opt_handler, init, write_log, log}
use pdns_logger.Message.{Message, Response}
use pdns_logger.Status.{pdns_ok, pdns_no}
use pdns_logger.Text.Compare.{text_eq_iff}
use pdns_logger.Text.{Text, codes, zstr, flag}

abbrev pub section : Text
section = codes "logfile"

opt_handler_lem :
    (s : Engine) (e : Entry)
    → opt_handler s e ≡ record s {
      file = if sets section (codes "logfile") e then some (string e.value) else s.file;
      force_flush =
          if sets section (codes "force-flush") e then flag (string e.value) else s.force_flush;
      rewrites_only =
          if sets section (codes "only-rewrites") e then flag (string e.value) else s.rewrites_only;
      disabled = if sets section (codes "disabled") e then flag (string e.value) else s.disabled;
    }
unfolding opt_handler
opt_handler_lem s e = ground (
  arith,
  is-text_eq e.section section,
  is-text_eq e.name (codes "logfile"),
  is-text_eq e.name (codes "force-flush"),
  is-text_eq e.name (codes "only-rewrites"),
  is-text_eq e.name (codes "disabled"),
  text_eq_iff (string e.name) (codes "logfile"),
  text_eq_iff (string e.name) (codes "force-flush"),
  text_eq_iff (string e.name) (codes "only-rewrites"),
  text_eq_iff (string e.name) (codes "disabled"),
)

-- Each option of section [logfile] ends at what the last entry for it says; nothing else changes.
pub logfile_settings :
    (es : List Entry) (s : Engine)
    → handle_all opt_handler s es ≡ record s {
      file = setting section (codes "logfile") some es s.file;
      force_flush = setting section (codes "force-flush") flag es s.force_flush;
      rewrites_only = setting section (codes "only-rewrites") flag es s.rewrites_only;
      disabled = setting section (codes "disabled") flag es s.disabled;
    }
unfolding setting
logfile_settings [] s = refl
logfile_settings (e ∷ es) s = rw opt_handler_lem (logfile_settings es _)

-- The state in which `init` leaves the options.
abbrev pub configured : Ini → Option Text → Engine → Engine
configured ini inifile s = handle_all opt_handler s (ini (string inifile)).1

-- `logfile_init` opens the file exactly if the configuration could be read, does not disable the
-- engine, names a file, and the file can be opened; only then is the stream set. It reports PDNS_OK
-- exactly then or if the engine is disabled.
pub logfile_init_lem :
    (ini : Ini) (opens : Bool) (inifile : Option Text) (s : Engine)
    → s.fp ≡ false
    → let s' = configured ini inifile s in
      let read = not (zstr inifile) && (ini (string inifile)).0 in
      let ready = read && (not s'.disabled && (not (zstr s'.file) && opens)) in
      let (status, t) = init ini opens inifile s in
      (t.fp ≡ ready)
      × (t.events ≡ (if ready then s.events ++ opened (string s'.file) ∷ [] else s.events))
      × (status ≡ (if ready || (read && s'.disabled) then pdns_ok else pdns_no))
unfolding init
logfile_init_lem ini opens inifile s h = ground (arith, logfile_settings (ini (string inifile)).1 s)

-- What a line is in the file: the text, and a flush if that is asked for.
abbrev pub line_events : Bool → List Text → List Event
line_events flush [] = []
line_events flush (t ∷ ts) =
    if flush then wrote t ∷ flushed ∷ line_events flush ts else wrote t ∷ line_events flush ts

line_events-cons :
    (flush : Bool) (t : Text) (ts : List Text)
    → line_events flush (t ∷ ts) ≡ line_events flush (t ∷ []) ++ line_events flush ts
line_events-cons true t ts = refl
line_events-cons false t ts = refl

pub write_log_lem :
    (t : Text) (s : Engine)
    → s.fp ≡ true
    → write_log t s ≡ record s { events = s.events ++ line_events s.force_flush (t ∷ []) }
unfolding write_log
write_log_lem t s h = ground (arith, append_assoc s.events (wrote t ∷ []) (flushed ∷ []))

write_all-events :
    (ts : List Text) (s : Engine)
    → s.fp ≡ true
    → write_all write_log ts s ≡ record s { events = s.events ++ line_events s.force_flush ts }
write_all-events [] s h = ap (λ es. record s { events = es }) (sym (append-nil s.events))
write_all-events (t ∷ ts) s h =
    let first = line_events s.force_flush (t ∷ []) in
    ap (write_all write_log ts) (write_log_lem t s h)
    ∙ write_all-events ts (record s { events = s.events ++ first }) h
    ∙ ap (λ es. record s { events = es })
        (append_assoc s.events first (line_events s.force_flush ts)
          ∙ ap (λ es. s.events ++ es) (sym (line_events-cons s.force_flush t ts)))

-- For a message that is to be logged and whose text fits the buffer, an engine with an open file
-- appends the message's lines to it, each flushed if force-flush is set, and changes nothing else.
pub logfile_log_lem :
    (c : Libc) (ndebug : Bool) (msg : Message) (r : Response) (s : Engine)
    → s.fp ≡ true
    → s.disabled ≡ false
    → msg.response ≡ some r
    → (s.rewrites_only && zstr r.appliedpolicy) ≡ false
    → (ndebug ≡ true) ⊎ (msg.originalrequestorsubnet ≡ none)
    → length (joined (message_pieces c msg r)) ≤ 1023
    → log c ndebug (some msg) s ≡ (
      ok pdns_ok,
      record s { events = s.events ++ line_events s.force_flush (message_lines c msg r) },
    )
unfolding log
logfile_log_lem c ndebug msg r s h on answered wanted unchecked small =
    ap (λ d. log_message c write_log ndebug d s.rewrites_only (some msg) s) on
    ∙ log_message-fits c write_log ndebug s.rewrites_only msg r answered wanted unchecked s small
    ∙ ap (λ t. (ok pdns_ok, t)) (write_all-events (message_lines c msg r) s h)

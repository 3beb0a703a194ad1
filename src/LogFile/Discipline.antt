-- ===== src/LogFile/Discipline.antt =====
-- The log file's stream in src/pdns-logger-file.c: when it is open, and when it is used.
use pdns_logger.Base.{
  ◌≤◌, Bool, true, false, ◌&&◌, ◌⊎◌, List, [], ◌∷◌, ◌++◌, Option, none, some, ◌≡◌, refl, ap, ◌∙◌,
  Result, if◌then◌else◌, length,
}
use pdns_logger.Status.{Status}
use pdns_logger.Line.{Libc}
use pdns_logger.Line.Bounds.{joined}
use pdns_logger.Line.Pieces.{head_pieces}
use pdns_logger.Line.Overflow.{message_pieces, message_lines, lines_from}
use pdns_logger.LogFile.{Event, opened, wrote, flushed, closed, Engine, emit, stop, log}
use pdns_logger.LogFile.Laws.{line_events, logfile_log_lem}
use pdns_logger.Message.{Message, Record, Response}
use pdns_logger.Text.{Text, zstr}

-- Whether the stream is open behind an event, given whether it was; `none` is a use of a stream that
-- is closed.
abbrev pub used_by : Event → Bool → Option Bool
used_by (opened _) is_open = some true
used_by (wrote _) true = some true
used_by flushed true = some true
used_by closed true = some false
used_by _ false = none

abbrev pub then_walk : Option Bool → (Bool → Option Bool) → Option Bool
then_walk none go = none
then_walk (some b) go = go b

abbrev pub walk : List Event → Bool → Option Bool
walk [] b = some b
walk (x ∷ xs) b = then_walk (used_by x b) (walk xs)

walk-append :
    (xs ys : List Event) (b : Bool) {b' : Bool}
    → walk xs b ≡ some b'
    → walk (xs ++ ys) b ≡ walk ys b'
walk-append [] ys b h = ap (λ o. then_walk o (walk ys)) h
walk-append (x ∷ xs) ys b {b'} h = first (used_by x b) h (λ c e. walk-append xs ys c e)
  where
    first :
        (o : Option Bool)
        → then_walk o (walk xs) ≡ some b'
        → ((c : Bool) → walk xs c ≡ some b' → walk (xs ++ ys) c ≡ walk ys b')
        → then_walk o (walk (xs ++ ys)) ≡ walk ys b'
    first none h ih = absurd (cc)
    first (some c) h ih = ih c h

-- The engine has used its stream only while it was open, and `fp` says whether it is.
abbrev pub Disciplined : Engine → Type 0
Disciplined s = walk s.events false ≡ some s.fp

abbrev Leaves : Status × Engine → Type 0
Leaves p = Disciplined p.1

module _ (c : Libc) (ndebug : Bool) where
  late_line :
      (flush : Bool) (head : Text) (rrs : List Record)
      → walk (line_events flush (lines_from c head rrs)) false ≡ none
  late_line true head [] = refl
  late_line false head [] = refl
  late_line true head (rr ∷ rrs) = refl
  late_line false head (rr ∷ rrs) = refl

  -- Behind logfile_stop, `fp` still points to the stream that was closed: a message that a thread of
  -- a client then logs, and whose text fits, is written to it.
  pub write_after_stop :
      (s : Engine) (msg : Message) (r : Response)
      → Disciplined s
      → s.fp ≡ true
      → s.disabled ≡ false
      → msg.response ≡ some r
      → (s.rewrites_only && zstr r.appliedpolicy) ≡ false
      → (ndebug ≡ true) ⊎ (msg.originalrequestorsubnet ≡ none)
      → length (joined (message_pieces c msg r)) ≤ 1023
      → (walk (stop s).1.events false ≡ some false)
        × (walk (log c ndebug (some msg) (stop s).1).1.events false ≡ none)
  unfolding stop
  write_after_stop s msg r h is_open on answered wanted unchecked small =
      let t : Engine = emit closed (record s { file = none }) in
      let stopped = ap (λ b. if b then t else record s { file = none }) is_open in
      let shut = walk-append s.events (closed ∷ []) false (h ∙ ap some is_open) in
      (
        ap (λ (u : Engine). walk u.events false) stopped ∙ shut,
        ap (λ (u : Engine). walk (log c ndebug (some msg) u).1.events false) stopped
            ∙ ap (λ (p : Result Status × Engine). walk p.1.events false)
                (logfile_log_lem c ndebug msg r t is_open on answered wanted unchecked small)
            ∙ walk-append t.events (line_events s.force_flush (message_lines c msg r)) false shut
            ∙ late_line s.force_flush (joined (head_pieces c msg r)) r.rrs,
      )

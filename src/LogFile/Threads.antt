-- ===== src/LogFile/Threads.antt =====
-- Several threads in logfile_log of src/pdns-logger-file.c at once, while SIGHUP may rotate the file:
-- what a thread does between two uses of `fp` in the macro `write_log` is one step. A line is
-- written by one call of fprintf, under the lock of the stream.
pub mod Lines
pub mod Together
pub mod Alone
use pdns_logger.Base.{
  goto, ◌≤◌, Bool, true, ◌&&◌, ◌⊎◌, ℕ, List, [], ◌∷◌, ◌++◌, Option, none, some, ◌≡◌, length,
  if◌then◌else◌, zero, suc, false,
}
use pdns_logger.Line.Bounds.{joined}
use pdns_logger.Line.Overflow.{message_pieces, message_lines}
use pdns_logger.Line.{Libc}
use pdns_logger.LogFile.{wrote, flushed, Engine, emit, rotate}
use pdns_logger.Message.{Message, Response}
use pdns_logger.Text.{Text, zstr}

-- Where a thread is, with the lines that are left of its message: before the test of `fp` of the
-- next line, between it and fprintf, and between that and the flush.
pub data Phase : Type 0 where
  outside : Phase
  before : List Text → Phase
  tested : Text → List Text → Phase
  printed : List Text → Phase

-- The engine, and the lines that the threads are to write, as their calls come.
pub record State : Type 0 where
  pub engine : Engine
  pub phase : ℕ → Phase
  pub asked : List (ℕ × Text)

abbrev pub quiet : Engine → State
quiet e = record { engine = e; phase = λ _. outside; asked = [] }

abbrev pub tagged : ℕ → List Text → List (ℕ × Text)
tagged i [] = []
tagged i (t ∷ ts) = (i, t) ∷ tagged i ts

abbrev pub moves : ℕ → Phase → State → State
moves i p s = record s { phase = goto i p s.phase }

-- The next step of a thread in its call; there is none if it calls fprintf with NULL.
abbrev pub go_on : ℕ → Phase → State → Option State
go_on i outside s = none
go_on i (before []) s = some (moves i outside s)
go_on i (before (t ∷ ts)) s = some (moves i (if s.engine.fp then tested t ts else before ts) s)
go_on i (tested t ts) s =
    if s.engine.fp
    then some (moves i (printed ts) (record s { engine = emit (wrote t) s.engine }))
    else none
go_on i (printed ts) s = some (
    moves i (before ts)
      (record s { engine = if s.engine.force_flush then emit flushed s.engine else s.engine }))

abbrev pub turn : ℕ → State → Option State
turn i s = go_on i (s.phase i) s

-- Thread `i` comes into its call, with these lines.
abbrev pub enters : ℕ → List Text → State → State
enters i ts s = moves i (before ts) (record s { asked = s.asked ++ tagged i ts })

-- SIGHUP, with the answer of freopen.
abbrev pub hung_up : Bool → State → State
hung_up opens s = record s { engine = (rotate opens s.engine).1 }

module _ (c : Libc) (ndebug : Bool) where
  -- A message that is to be logged and whose text fits a line.
  pub record Fits (e : Engine) (msg : Message) (r : Response) : Type 0 where
    pub on : e.disabled ≡ false
    pub answered : msg.response ≡ some r
    pub wanted : (e.rewrites_only && zstr r.appliedpolicy) ≡ false
    pub unchecked : (ndebug ≡ true) ⊎ (msg.originalrequestorsubnet ≡ none)
    pub small : length (joined (message_pieces c msg r)) ≤ 1023

  -- A message comes to a thread, a thread goes on in its call, or SIGHUP comes; `fails` says whether
  -- freopen may fail.
  pub data Step (fails : Bool) (s : State) : State → Type 0 where
    logs :
        (i : ℕ) (msg : Message) (r : Response)
        → Fits s.engine msg r
        → s.phase i ≡ outside
        → Step fails s (enters i (message_lines c msg r) s)
    turns : (i : ℕ) {t : State} → turn i s ≡ some t → Step fails s t
    hangs_up : (opens : Bool) → (opens ≡ true) ⊎ (fails ≡ true) → Step fails s (hung_up opens s)

  pub data Run (fails : Bool) (s : State) : State → Type 0 where
    still : Run fails s s
    later : {t u : State} → Run fails s t → Step fails t u → Run fails s u

-- Thread `i` goes on alone until it is outside.
abbrev pub at_end : Phase → State → Option State → Option State
at_end outside s rest = some s
at_end _ s rest = rest

unfoldable pub alone : ℕ → ℕ → State → Option State
alone i zero s = none
alone i (suc n) s = at_end (s.phase i) s (elim (turn i s) [ none ↦ none | some t ↦ alone i n t ])

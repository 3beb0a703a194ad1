-- ===== src/LogFile/Rotation.antt =====
-- What a failed reopening of the log file means for the messages after it.
use pdns_logger.Base.{Bool, true, false, List, [], ◌∷◌, ◌++◌, Option, ◌≡◌, arith}
use pdns_logger.Line.Keeps.{log_message-keeps}
use pdns_logger.Line.{Libc}
use pdns_logger.LogFile.{Event, closed, Engine, rotate, log, write_log}
use pdns_logger.Message.{Message}
use pdns_logger.Text.{Text}

-- A call of the engine while the daemon runs.
pub data Call : Type 0 where
  message : Option Message → Call
  hangup : Bool → Call

module _ (c : Libc) (ndebug : Bool) where
  abbrev call : Call → Engine → Engine
  call (message rawpb) s = (log c ndebug rawpb s).1
  call (hangup opens) s = (rotate opens s).1

  abbrev pub run : List Call → Engine → Engine
  run [] s = s
  run (x ∷ xs) s = run xs (call x s)

  -- No stream, and this is what has been done to the file.
  abbrev IsSilent : List Event → Engine → Type 0
  IsSilent es s = (s.fp ≡ false) × (s.events ≡ es)

  write_log-IsSilent :
      (es : List Event) (t : Text) (s : Engine) → IsSilent es s → IsSilent es (write_log t s)
  unfolding write_log
  write_log-IsSilent es t s h = ground arith

  call-IsSilent : (es : List Event) (x : Call) (s : Engine) → IsSilent es s → IsSilent es (call x s)
  unfolding log rotate
  call-IsSilent es (message rawpb) s h =
      log_message-keeps c write_log (IsSilent es) (write_log-IsSilent es) ndebug s.disabled
        s.rewrites_only rawpb s h
  call-IsSilent es (hangup opens) s h = ground arith

  run-IsSilent :
      (es : List Event) (xs : List Call) (s : Engine) → IsSilent es s → IsSilent es (run xs s)
  run-IsSilent es [] s h = h
  run-IsSilent es (x ∷ xs) s h = run-IsSilent es xs (call x s) (call-IsSilent es x s h)

  -- If the file cannot be opened again at a SIGHUP, the engine closes it and writes nothing from
  -- then on, whatever messages come and whatever later SIGHUPs find.
  pub rotate-silent :
      (s : Engine) (xs : List Call)
      → s.fp ≡ true
      → (run xs (rotate false s).1).events ≡ s.events ++ closed ∷ []
  unfolding rotate
  rotate-silent s xs h =
      (run-IsSilent (s.events ++ closed ∷ []) xs (rotate false s).1 (ground arith)).1

-- ===== src/Tests/Files.antt =====
-- The log file's stream.
use pdns_logger.Base.{
  ◌⊎◌, of_thread, ℕ, ◌+◌, ◌*◌, ◌++◌, true, false, List, [], ◌∷◌, some, none, ◌≡◌, refl, inl, inr,
  length,
}
use pdns_logger.Dns.{rcode2p, type2p, class2p}
use pdns_logger.Line.{log_message}
use pdns_logger.Line.Overflow.{message_lines}
use pdns_logger.Line.Pieces.{head_pieces, record_pieces}
use pdns_logger.LogFile
use pdns_logger.LogFile.{Engine, Event, opened, init, stop, log}
use pdns_logger.LogFile.Discipline.{walk, write_after_stop}
use pdns_logger.LogFile.Rotation.{Call, message, hangup, run}
use pdns_logger.LogFile.Threads.{
  outside, tested, State, Fits, quiet, enters, turn, hung_up, logs, turns, hangs_up, Run, still,
  later, alone,
}
use pdns_logger.LogFile.Threads.Alone.{message_alone}
use pdns_logger.LogFile.Threads.Lines.{texts, untagged, left}
use pdns_logger.LogFile.Threads.Together.{together_lem, hangup_between}
use pdns_logger.Message.{Message}
use pdns_logger.Tests.Engines.{ini, path}
use pdns_logger.Tests.Lines.{libc, answer, message_of, answer-small}
use pdns_logger.Text.{Text, codes, decimal, decimal_int}

abbrev query : Message
query = message_of (codes "a.") answer

abbrev calls : List Call
calls = message (some query) ∷ hangup true ∷ message (some query) ∷ hangup false ∷ hangup true ∷ []

abbrev after_calls : Engine
after_calls = run libc true calls (init ini true path LogFile.initial).1

abbrev open_log : Engine
open_log = record LogFile.initial {
  fp = true;
  file = some (codes "/log");
  events = opened (codes "/log") ∷ [];
}

write_after_stop_example :
    (walk (stop open_log).1.events false ≡ some false)
    × (walk (log libc true (some query) (stop open_log).1).1.events false ≡ none)
write_after_stop_example =
    write_after_stop libc true open_log query answer refl refl refl refl refl (inr refl)
      answer-small

-- Two threads, each with a message; the first one has written its line, and the second one waits
-- between its test of `fp` and its fprintf.
abbrev lines : List Text
lines = message_lines libc query answer

abbrev entered : State
entered = enters 2 lines (enters 1 lines (quiet open_log))

abbrev turned : ℕ → State → State
turned i s = elim (turn i s) [ none ↦ s | some t ↦ t ]

abbrev written : State
written = turned 2 (turned 1 (turned 1 entered))

fits : Fits libc true open_log query answer
fits = record {
  on = refl;
  answered = refl;
  wanted = refl;
  unchecked = inr refl;
  small = answer-small;
}

entered-Run : Run libc true false (quiet open_log) entered
entered-Run = later (later still (logs 1 query answer fits refl)) (logs 2 query answer fits refl)

written-Run : Run libc true false (quiet open_log) written
unfolding log_message type2p class2p rcode2p decimal decimal_int record_pieces head_pieces
written-Run = later (later (later entered-Run (turns 1 refl)) (turns 1 refl)) (turns 2 refl)

together_lem_example :
    ((put : List (ℕ × Text)) × (texts written.engine.events ≡ texts open_log.events ++ untagged put)
      × ((i : ℕ) → of_thread i written.asked ≡ of_thread i put ++ left (written.phase i)))
    × ((i : ℕ) → (written.phase i ≡ outside) ⊎ ((t : State) × (turn i written ≡ some t)))
together_lem_example = together_lem libc true refl written-Run

abbrev line : Text
line = elim lines [ [] ↦ [] | t ∷ ts ↦ t ]

abbrev stopped : State
stopped = hung_up true (hung_up false written)

waits_to_print : written.phase 2 ≡ tested line []
unfolding log_message type2p class2p rcode2p decimal decimal_int record_pieces head_pieces
waits_to_print = refl

hangup_between_example : (stopped.phase 2 ≡ tested line []) × (turn 2 stopped ≡ none)
hangup_between_example =
    hangup_between libc true 2 line [] written stopped waits_to_print
      (later still (hangs_up true (inl refl)))

message_alone_example :
    (t : State) × (alone 2 (3 * length lines + 2) (enters 2 lines entered) ≡ some t)
    × (t.engine ≡ (log libc true (some query) entered.engine).1)
    × (t.phase 2 ≡ outside)
message_alone_example = message_alone libc true 2 entered query answer fits

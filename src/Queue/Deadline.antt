-- ===== src/Queue/Deadline.antt =====
-- src/pdns-logger-queue.c: the point in time until which `fifo_wait_signal` waits.
use pdns_logger.Base.{ℕ, ◌+◌, ◌-◌, ◌≤◌, ◌↔◌, ◌*◌, ◌/◌, ◌%◌, ◌<◌, ◌≡◌, arith}

-- `struct timespec`
pub record Timespec : Type 0 where
  pub tv_sec : ℕ
  pub tv_nsec : ℕ

abbrev msw : ℕ
msw = 1000

-- From the answer of `time(NULL)` and, before it, the microseconds of `gettimeofday`: two readings of
-- the clock.
pub deadline : ℕ → ℕ → Timespec
deadline now tv_usec =
    let nsec = tv_usec * 1000 + 1000 * 1000 * (msw % 1000) in
    record {
      tv_sec = now + msw / 1000 + nsec / (1000 * 1000 * 1000);
      tv_nsec = nsec % (1000 * 1000 * 1000);
    }

-- In nanoseconds.
abbrev pub nanoseconds : Timespec → ℕ
nanoseconds t = t.tv_sec * 1000000000 + t.tv_nsec

-- `gettimeofday` reads the clock at the microsecond `first`, and `time(NULL)` at `second`, which is
-- not before it. The deadline is a well-formed time. It comes at least one second behind the first
-- reading, and exactly then if and only if both readings are in one second of the clock; for each
-- second that ticks between them it is one second more. It comes less than two seconds behind the
-- second reading.
pub deadline_lem :
    (first second : ℕ)
    → first ≤ second
    → let d = deadline (second / 1000000) (first % 1000000) in
      (d.tv_nsec < 1000000000)
      × (nanoseconds d ≡ (first + 1000000 + (second / 1000000 - first / 1000000) * 1000000) * 1000)
      × ((nanoseconds d ≡ (first + 1000000) * 1000) ↔ (first / 1000000 ≡ second / 1000000))
      × (nanoseconds d < (second + 2000000) * 1000)
unfolding deadline
deadline_lem first second h =
    (omega arith, omega arith, (λ e. omega arith, λ e. omega arith), omega arith)

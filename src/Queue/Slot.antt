-- ===== src/Queue/Slot.antt =====
-- What the queue of src/pdns-logger-queue.c amounts to: one slot.
use pdns_logger.Base.{Bool, Option, none, some, if◌then◌else◌, Result, ok, fault, assertion}
use pdns_logger.Status.{Status, pdns_no, pdns_ok}

module _ {A : Type 0} where
  -- A value for a slot that is taken trips the assertion, or is lost in silence.
  store : Bool → A → Option A → Result (Status × Option A)
  store ndebug v none = ok (pdns_ok, some v)
  store ndebug v (some w) = if ndebug then ok (pdns_ok, some w) else fault assertion

  unfoldable pub push : Bool → Bool → Option A → Option A → Result (Status × Option A)
  unfolding store
  push ndebug memory none s = ok (pdns_no, s)
  push ndebug memory (some v) s = if memory then store ndebug v s else ok (pdns_no, s)

  unfoldable pub pop : Option A → Option A × Option A
  pop s = (s, none)

-- ===== src/Clients/Turns.antt =====
-- What a turn of a thread of src/pdns-logger-protobuf.c does to its connection.
use mathlib.Core.Path.{subst}
use pdns_logger.Base.{
  ℕ, ◌+◌, ◌≤◌, ◌<◌, List, [], ◌∷◌, ◌++◌, ◌≡◌, sym, ap, ◌∙◌, arith, ltb, ltb→lt, ◌==◌, ==_iff,
  if◌then◌else◌, length, take, Bool-cases, inl, inr, append_assoc, append-nil,
}
use pdns_logger.Clients.{reading, extracting, closed, Client}
use pdns_logger.Clients.Deeds.{Behind, Waits, Good}
use pdns_logger.Stream.Buffers.{
  used, payload, length-advance, advance-Deframes, short_Incomplete, tiny_Incomplete,
}
use pdns_logger.Stream.Frames.{Incomplete, no_bytes, Deframes, stop, Deframes-append}
use pdns_logger.Stream.Session.{used-fill, length-fill}
use pdns_logger.Stream.{max_buffer_size, frame_length, advance, fill, fresh}

pub fresh-Good :
    (stack : List ℕ)
    → length stack ≡ max_buffer_size
    → Good (record { phase = reading; buffer = fresh stack; sent = [] }) []
fresh-Good stack h = record {
  size = h;
  within = omega arith;
  behind = record { goes_on = λ frames rest d. d };
  waits = no_bytes;
}

module _ {c : Client} {done : List (List ℕ)} (g : Good c done) where
  -- A connection that is closed.
  pub ended-Good : Good (record c { phase = closed }) done
  ended-Good = record { size = g.size; within = g.within; behind = g.behind; waits = tt }

  fits : c.buffer.blen ≤ length c.buffer.mem
  fits = omega (arith, g.size, g.within)

  -- New bytes go behind those in use.
  module _ (chunk : List ℕ) (idle : c.phase ≡ reading)
      (room : c.buffer.blen + length chunk ≤ max_buffer_size) where
    room' : c.buffer.blen + length chunk ≤ length c.buffer.mem
    room' = omega (arith, g.size)

    filled-Behind : Behind (c.sent ++ chunk) done (used (fill chunk c.buffer))
    filled-Behind = record {
      goes_on = λ frames rest d.
          Deframes-append chunk
            (subst (λ t. Deframes c.sent t (used c.buffer)) (append-nil done)
              (g.behind.goes_on [] (used c.buffer)
                (stop (subst (λ p. Waits p c.buffer) idle g.waits))))
            (subst (λ t. Deframes t frames rest) (used-fill chunk c.buffer room') d);
    }

    filled-Waits :
        Waits
          (if ltb (fill chunk c.buffer).blen 2 then reading else extracting)
          (fill chunk c.buffer)
    filled-Waits = elim (Bool-cases (ltb (fill chunk c.buffer).blen 2)) [
      | inl tiny ↦
          subst (λ b. Waits (if b then reading else extracting) (fill chunk c.buffer)) (sym tiny)
            (tiny_Incomplete (fill chunk c.buffer).mem (fill chunk c.buffer).blen (ltb→lt _ _ tiny))
      | inr enough ↦
          subst (λ b. Waits (if b then reading else extracting) (fill chunk c.buffer)) (sym enough)
            tt
    ]

    pub filled-Good :
        Good
          (record {
            phase = if ltb (fill chunk c.buffer).blen 2 then reading else extracting;
            buffer = fill chunk c.buffer;
            sent = c.sent ++ chunk;
          })
          done
    filled-Good = record {
      size = length-fill chunk c.buffer room' ∙ g.size;
      within = room;
      behind = filled-Behind;
      waits = filled-Waits;
    }

  -- The first frame goes, once it is logged.
  module _ (whole : frame_length c.buffer.mem + 2 ≤ c.buffer.blen) where
    advanced-Behind : Behind c.sent (done ++ payload c.buffer ∷ []) (used (advance c.buffer))
    advanced-Behind = record {
      goes_on = λ frames rest d.
          subst (λ t. Deframes c.sent t rest)
            (sym (append_assoc done (payload c.buffer ∷ []) frames))
            (g.behind.goes_on (payload c.buffer ∷ frames) rest
              (advance-Deframes c.buffer fits whole d));
    }

    advanced-Waits :
        Waits (if (advance c.buffer).blen == 0 then reading else extracting) (advance c.buffer)
    advanced-Waits = elim (Bool-cases ((advance c.buffer).blen == 0)) [
      | inl none_left ↦
          subst (λ b. Waits (if b then reading else extracting) (advance c.buffer)) (sym none_left)
            (subst Incomplete
              (ap (λ n. take n (advance c.buffer).mem) (sym ((==_iff _ 0).0 none_left))) no_bytes)
      | inr some_left ↦
          subst (λ b. Waits (if b then reading else extracting) (advance c.buffer)) (sym some_left)
            tt
    ]

    pub advanced-Good :
        Good
          (record {
            phase = if (advance c.buffer).blen == 0 then reading else extracting;
            buffer = advance c.buffer;
            sent = c.sent;
          })
          (done ++ payload c.buffer ∷ [])
    advanced-Good = record {
      size = length-advance c.buffer fits whole ∙ g.size;
      within = omega (arith, g.within);
      behind = advanced-Behind;
      waits = advanced-Waits;
    }

  -- Back to `read`, without a whole frame.
  pub waiting-Good :
      c.buffer.blen < frame_length c.buffer.mem + 2
      → Good (record { phase = reading; buffer = c.buffer; sent = c.sent }) done
  waiting-Good short = record {
    size = g.size;
    within = g.within;
    behind = g.behind;
    waits = short_Incomplete c.buffer.mem c.buffer.blen fits short;
  }

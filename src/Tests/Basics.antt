-- ===== src/Tests/Basics.antt =====
-- Strings, names, the queue and its deadline.
use pdns_logger.Base.{
  ◌-◌, ◌/◌, ◌%◌, if◌then◌else◌, ℕ, ◌+◌, ◌*◌, ◌<◌, true, false, not, ◌&&◌, ◌||◌, List, [], ◌∷◌, none,
  some, ◌≡◌, ◌≢◌, ◌↔◌, refl, arith, ltb, leb, ◌==◌, ok, fault, assertion,
}
use pdns_logger.Dns.{rcode2p, type2p, class2p, dns_classtab, dns_typetab, dns_rcodetab}
use pdns_logger.Dns.Lookup.{name_of, lookups_iff}
use pdns_logger.Queue.{Fifo, init, push, pop, junk, at}
use pdns_logger.Queue.Deadline.{deadline, nanoseconds, deadline_lem}
use pdns_logger.Queue.Refine.{
  Op, put, get, answered, popped, run, run_slot, run_refines, Holds, taken, push_second,
}
use pdns_logger.Status.{pdns_no, pdns_ok}
use pdns_logger.Text.{codes, atoi}

atoi_values :
    (atoi (codes "4242") ≡ 4242) × (atoi (codes " -1x") ≡ 4294967295) × (atoi (codes "no") ≡ 0)
unfolding atoi
atoi_values = (refl, refl, refl)

class2p_values :
    (class2p 1 ≡ some (codes "IN")) × (class2p 3 ≡ some (codes "HS")) × (class2p 255 ≡ none)
unfolding class2p
class2p_values = (refl, refl, refl)

lookups_iff_example :
    ((type2p 250 ≡ name_of dns_typetab 250) ↔ (
      (ltb 250 42 || (leb 50 250 && not (leb 250 250 && leb 250 256) && not (250 == 65536)))
      ≡ true))
    × ((class2p 3 ≡ name_of dns_classtab 3) ↔ ((ltb 3 2 || (leb 5 3 && not (3 == 255))) ≡ true))
    × ((rcode2p 3 ≡ name_of dns_rcodetab 3)
        ↔ ((ltb 3 11 || (leb 14 3 && not (leb 16 3 && leb 3 18))) ≡ true))
lookups_iff_example = lookups_iff 250 3 3

abbrev calls : List (Op ℕ)
calls =
    get
    ∷ put true (some 7)
    ∷ put false (some 8)
    ∷ get
    ∷ put true (some 9)
    ∷ put true (some 5)
    ∷ get
    ∷ []

run-calls :
    run true calls init
    ≡ popped none
      ∷ answered pdns_ok
      ∷ answered pdns_no
      ∷ popped (some 7)
      ∷ answered pdns_ok
      ∷ answered pdns_ok
      ∷ popped (some 9)
      ∷ []
unfolding run init push pop
run-calls = refl

run_refines_example : run false calls init ≡ run_slot false calls none
run_refines_example = run_refines false calls

abbrev one_item : Fifo ℕ
one_item = record {
  head = at 0;
  tail = at 0;
  fresh = 1;
  cell = λ a. if a == 0 then some (record { value = 7; next = junk }) else none;
}

one_item-Holds : Holds one_item (some 7)
one_item-Holds = taken 0 (record { value = 7; next = junk }) refl refl refl refl (omega arith)

push_second_example :
    (push false true (some 9) one_item ≡ fault assertion)
    × ((q : Fifo ℕ) × (push true true (some 9) one_item ≡ ok (pdns_ok, q))
        × Holds q (some 7)
        × (q.cell 1 ≡ some (record { value = 9; next = junk }))
        × (q.head ≢ at 1))
push_second_example = push_second 9 one_item one_item-Holds

deadline_lem_example :
    let d = deadline (101000002 / 1000000) (100999999 % 1000000) in
    (d.tv_nsec < 1000000000)
    × (nanoseconds d
        ≡ (100999999 + 1000000 + (101000002 / 1000000 - 100999999 / 1000000) * 1000000) * 1000)
    × ((nanoseconds d ≡ (100999999 + 1000000) * 1000) ↔ (100999999 / 1000000 ≡ 101000002 / 1000000))
    × (nanoseconds d < (101000002 + 2000000) * 1000)
deadline_lem_example = deadline_lem 100999999 101000002 (omega arith)

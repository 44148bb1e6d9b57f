-- ===== src/Guard/Leave.antt =====
-- What `uvdb_exception_guard_leave` of src/uvdb_exception_guard.c comes to, for each handler.
use vita_debugger.Prelude.{
  ℕ, suc, ◌^◌, ◌<◌, ◌≡◌, ◌≢◌, ap, true, Bool, subst, ◌-◌, if◌then◌else◌, List, ◌∷◌, ◌++◌, arith,
}
use vita_debugger.Guard.{active_of, is_closed, exchange, disown, count_off}
use vita_debugger.Guard.Handlers.{
  Handler, claiming, primary, nested, shut_out, leaving, repairing, Guard, IsLeaving, nested_leaves,
  shut_out_leaves, owner_left, leave_owner, leave_count, Reachable, later,
}
use vita_debugger.Guard.Counting.{tally, is_repairing, tally-middle, owner_at}
use vita_debugger.Guard.Exclusion.{some_active, Inv-Reachable}

count_off-exact :
    (lifecycle : ℕ)
    → lifecycle < 2 ^ 32
    → active_of lifecycle ≢ 0
    → (count_off lifecycle ≡ (true, lifecycle - 1))
      × (suc (active_of (lifecycle - 1)) ≡ active_of lifecycle)
      × (is_closed (lifecycle - 1) ≡ is_closed lifecycle)
unfolding count_off active_of is_closed
count_off-exact lifecycle lt p = ground arith

-- The subtraction of `leave` goes through.
abbrev pub CountedOff : Guard → List Handler → List Handler → Type 0
CountedOff s front back =
    (count_off s.lifecycle ≡ (true, s.lifecycle - 1))
    × (suc (active_of (s.lifecycle - 1)) ≡ active_of s.lifecycle)
    × (is_closed (s.lifecycle - 1) ≡ is_closed s.lifecycle)
    × Reachable (record s { lifecycle = s.lifecycle - 1; handlers = front ++ back })

-- What the next operation of `uvdb_exception_guard_leave` comes to for a handler, and the state that
-- it leads to; a handler that has not got its result of `enter` yet has none.
abbrev pub Granted : Guard → Handler → List Handler → List Handler → Type 0
Granted s (claiming t) front back = Unit
Granted s (primary t) front back =
    (disown s.owner t ≡ (true, 0))
    × Reachable (record s { owner = 0; handlers = front ++ (leaving t ∷ back) })
Granted s (nested t) front back = CountedOff s front back
Granted s (shut_out t) front back = CountedOff s front back
Granted s (leaving t) front back = CountedOff s front back
Granted s (repairing t) front back = ⊥

Reachable-disowned :
    (s : Guard) (t : ℕ) (front back : List Handler)
    → Reachable s
    → s.handlers ≡ front ++ (primary t ∷ back)
    → disown s.owner t ≡ (true, 0)
    → Reachable (record s { owner = 0; handlers = front ++ (leaving t ∷ back) })
Reachable-disowned s t front back r e own =
    subst
      (λ (found : Bool × ℕ). Reachable (record s {
        owner = found.1;
        handlers = front ++ ((if found.0 then leaving t else primary t) ∷ back);
      }))
      own (later _ _ r (leave_owner t front back e))

leave-CountedOff :
    (s : Guard) (h : Handler) (front back : List Handler)
    → IsLeaving h
    → Reachable s
    → s.handlers ≡ front ++ (h ∷ back)
    → CountedOff s front back
leave-CountedOff s h front back l r e =
    let v = Inv-Reachable s r in
    let off = count_off-exact s.lifecycle v.word (some_active s h front back e v) in
    (
      off.0,
      off.1,
      off.2,
      subst
          (λ (found : Bool × ℕ).
            Reachable (record s { lifecycle = found.1; handlers = front ++ back }))
          off.0 (later _ _ r (leave_count h front back l e (ap (λ p. p.0) off.0))),
    )

-- In any state that the steps reach, the next operation in `uvdb_exception_guard_leave` of each
-- handler that has its result of `enter` goes through, so that the call gives 0. A primary handler
-- finds its own type in the owner's word, and clears it. A handler whose next operation is the
-- subtraction, nested, shut out, or primary until it cleared the owner's word, however many steps
-- came between, finds itself counted: the subtraction takes 1 off the count and leaves the closing
-- flag as it was. The state that follows is reached too, and no handler has a wrong subtraction to
-- take back.
pub leave-Granted :
    (s : Guard) (h : Handler) (front back : List Handler)
    → Reachable s
    → s.handlers ≡ front ++ (h ∷ back)
    → Granted s h front back
unfolding disown exchange
leave-Granted s (claiming t) front back r e = tt
leave-Granted s (primary t) front back r e =
    let own : disown s.owner t ≡ (true, 0) =
      ground (arith, owner_at s t front back e (Inv-Reachable s r)) in
    (own, Reachable-disowned s t front back r e own)
leave-Granted s (nested t) front back r e =
    leave-CountedOff s (nested t) front back (nested_leaves t) r e
leave-Granted s (shut_out t) front back r e =
    leave-CountedOff s (shut_out t) front back (shut_out_leaves t) r e
leave-Granted s (leaving t) front back r e =
    leave-CountedOff s (leaving t) front back (owner_left t) r e
leave-Granted s (repairing t) front back r e =
    let v = Inv-Reachable s r in
    omega (
      arith,
      v.regular,
      ap (tally is_repairing) e,
      tally-middle is_repairing front back (repairing t),
    )

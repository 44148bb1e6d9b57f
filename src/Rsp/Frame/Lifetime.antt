-- ===== src/Rsp/Frame/Lifetime.antt =====
-- `struct uvdb_rsp_request_lifetime` of src/uvdb_rsp_frame.c: the packet returned to the dispatcher
-- is lent at most once at a time. `active` is an unsigned int; -1 and 0 are `none` and `some`.
use vita_debugger.Prelude.{
  ◌+◌, ◌≤◌, ◌≡◌, List, [], ◌∷◌, arith, ℕ, Bool, Option, none, some, ◌==◌, if◌then◌else◌,
}

-- The value of `lifetime->active`.
pub record RequestLifetime : Type 0 where
  pub active : ℕ

pub lifetime_init : RequestLifetime
lifetime_init = record { active = 0 }

pub lifetime_begin : RequestLifetime → Option RequestLifetime
lifetime_begin l = if l.active == 0 then some (record l { active = 1 }) else none

pub lifetime_release : RequestLifetime → Option RequestLifetime
lifetime_release l = if l.active == 0 then none else some (record l { active = 0 })

pub lifetime_is_active : RequestLifetime → Bool
lifetime_is_active l = l.active == 1

-- A caller's attempts, in order.
pub data Call : Type 0 where
  beginning releasing : Call

-- A count of the calls that succeeded, of either kind, from a lifetime on.
pub record Tally : Type 0 where
  pub begun : ℕ
  pub released : ℕ
  pub lifetime : RequestLifetime

abbrev attempt : RequestLifetime → Option RequestLifetime → RequestLifetime
attempt l none = l
attempt l (some l') = l'

abbrev counted : Option RequestLifetime → ℕ
counted none = 0
counted (some l) = 1

abbrev count : Tally → Call → Tally
count t beginning = record t {
  begun = t.begun + counted (lifetime_begin t.lifetime);
  lifetime = attempt t.lifetime (lifetime_begin t.lifetime);
}
count t releasing = record t {
  released = t.released + counted (lifetime_release t.lifetime);
  lifetime = attempt t.lifetime (lifetime_release t.lifetime);
}

abbrev pub run : Tally → List Call → Tally
run t [] = t
run t (call ∷ calls) = run (count t call) calls

abbrev pub nothing_done : Tally
nothing_done = record { begun = 0; released = 0; lifetime = lifetime_init }

-- The requests that are lent are those begun and not released, and are one at most.
abbrev pub Balanced : Tally → Type 0
Balanced t = (t.lifetime.active ≤ 1) × (t.begun ≡ t.released + t.lifetime.active)

count-Balanced : (t : Tally) (call : Call) → Balanced t → Balanced (count t call)
unfolding lifetime_begin lifetime_release
count-Balanced t beginning h = ground arith
count-Balanced t releasing h = ground arith

run-Balanced : (t : Tally) (calls : List Call) → Balanced t → Balanced (run t calls)
run-Balanced t [] h = h
run-Balanced t (call ∷ calls) h = run-Balanced (count t call) calls (count-Balanced t call h)

nothing_done-Balanced : Balanced nothing_done
unfolding lifetime_init
nothing_done-Balanced = (omega arith, omega arith)

-- After any attempts to begin and to release a request, in any order, the successful begins are the
-- successful releases, and one more exactly if a request is active.
pub run-balanced :
    (calls : List Call)
    → ((run nothing_done calls).begun
        ≡ (run nothing_done calls).released
          + (if lifetime_is_active (run nothing_done calls).lifetime then 1 else 0))
unfolding lifetime_is_active
run-balanced calls = counts (run-Balanced nothing_done calls nothing_done-Balanced)
  where
    counts :
        Balanced (run nothing_done calls)
        → (run nothing_done calls).begun
          ≡ (run nothing_done calls).released
            + (if (run nothing_done calls).lifetime.active == 1 then 1 else 0)
    counts h = ground arith

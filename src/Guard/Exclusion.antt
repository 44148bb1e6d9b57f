-- ===== src/Guard/Exclusion.antt =====
-- What the guard of src/uvdb_exception_guard.c is for: one primary handler at most, and idleness only
-- without handlers.
use vita_debugger.Prelude.{
  ℕ, suc, ◌^◌, ◌≤◌, ◌<◌, ◌≡◌, ◌≢◌, ◌⊎◌, inl, inr, refl, sym, ap, ◌∙◌, true, false, List, [], ◌∷◌,
  ◌++◌, some, length, Bool-cases, arith,
}
use vita_debugger.Guard.{active_of, is_closed, exchange, admit, count_off, close, is_idle, reopen}
use vita_debugger.Guard.Handlers.{
  Handler, claiming, shut_out, repairing, Guard, IsLeaving, Step, enter, claim_owner, leave_owner,
  leave_count, leave_wrong, leave_repair, chain, unchain, shut, open_again, Reachable, begin, later,
}
use vita_debugger.Guard.Counting.{
  tally, is_primary, word_of, is_repairing, tally-middle, length-middle, Inv, leaving_counts,
  Inv-claim, Inv-disown,
}

admit-word :
    (lifecycle word : ℕ)
    → lifecycle < 2 ^ 32
    → admit lifecycle ≡ some word
    → (word < 2 ^ 32) × (active_of word ≡ suc (active_of lifecycle))
unfolding admit active_of
admit-word lifecycle word lt e = ground arith

count_off-word :
    (lifecycle : ℕ)
    → lifecycle < 2 ^ 32
    → active_of lifecycle ≢ 0
    → ((count_off lifecycle).0 ≡ true)
      × ((count_off lifecycle).1 < 2 ^ 32)
      × (suc (active_of (count_off lifecycle).1) ≡ active_of lifecycle)
unfolding count_off active_of
count_off-word lifecycle lt p = ground arith

close-word :
    (lifecycle : ℕ)
    → (close lifecycle < 2 ^ 32) × (active_of (close lifecycle) ≡ active_of lifecycle)
unfolding close active_of
close-word lifecycle = omega arith

reopen-word :
    (lifecycle : ℕ)
    → lifecycle < 2 ^ 32
    → ((reopen lifecycle).1 < 2 ^ 32) × (active_of (reopen lifecycle).1 ≡ active_of lifecycle)
unfolding reopen exchange active_of
reopen-word lifecycle lt = ground arith

-- The lifecycle's word changes, and nothing else.
Inv-word :
    (s : Guard) (word : ℕ)
    → (word < 2 ^ 32) × (active_of word ≡ active_of s.lifecycle)
    → Inv s
    → Inv (record s { lifecycle = word })
Inv-word s word (lt, e) v = record {
  word = lt;
  counted = e ∙ v.counted;
  owned = v.owned;
  single = v.single;
  regular = v.regular;
}

Inv-enter :
    (s : Guard) (h : Handler) (word : ℕ)
    → admit s.lifecycle ≡ some word
    → (word_of h ≡ 0) × (is_primary h ≡ 0) × (is_repairing h ≡ 0)
    → Inv s
    → Inv (record s { lifecycle = word; handlers = h ∷ s.handlers })
Inv-enter s h word e zero_of v =
    let (lt, more) = admit-word s.lifecycle word v.word e in
    record {
      word = lt;
      counted = omega (arith, more, v.counted);
      owned = omega (arith, v.owned, zero_of);
      single = omega (arith, v.single, zero_of);
      regular = omega (arith, v.regular, zero_of);
    }

pub some_active :
    (s : Guard) (h : Handler) (front back : List Handler)
    → s.handlers ≡ front ++ (h ∷ back)
    → Inv s
    → active_of s.lifecycle ≢ 0
some_active s h front back e v z =
    absurd (omega (arith, z, v.counted, ap length e, length-middle front back h))

Inv-leave :
    (s : Guard) (h : Handler) (front back : List Handler)
    → IsLeaving h
    → s.handlers ≡ front ++ (h ∷ back)
    → Inv s
    → Inv (record s { lifecycle = (count_off s.lifecycle).1; handlers = front ++ back })
Inv-leave s h front back l e v =
    let (done, lt, less) = count_off-word s.lifecycle v.word (some_active s h front back e v) in
    let none_of = leaving_counts h l in
    record {
      word = lt;
      counted = omega (arith, less, v.counted, ap length e, length-middle front back h);
      owned =
          omega (arith, v.owned, none_of, ap (tally word_of) e, tally-middle word_of front back h);
      single =
          omega (
            arith,
            v.single,
            none_of,
            ap (tally is_primary) e,
            tally-middle is_primary front back h,
          );
      regular = omega (
        arith,
        v.regular,
        none_of,
        ap (tally is_repairing) e,
        tally-middle is_repairing front back h,
      );
    }

Inv-Step : (s s' : Guard) → Step s s' → Inv s → Inv s'
Inv-Step s s' (enter t word lt e) v = elim (Bool-cases (is_closed s.lifecycle)) [
  | inl c ↦ rw c (Inv-enter s (shut_out t) word e (refl, refl, refl) v)
  | inr c ↦ rw c (Inv-enter s (claiming t) word e (refl, refl, refl) v)
]
Inv-Step s s' (claim_owner t front back e) v = Inv-claim s t front back e v
Inv-Step s s' (leave_owner t front back e) v = Inv-disown s t front back e v
Inv-Step s s' (leave_count h front back l e c) v = Inv-leave s h front back l e v
Inv-Step s s' (leave_wrong h t front back l e c) v =
    absurd (differ (sym c ∙ (count_off-word s.lifecycle v.word (some_active s h front back e v)).0))
  where
    differ : false ≡ true → ⊥
    differ d = cc
Inv-Step s s' (leave_repair t front back e) v = absurd (
    omega (
      arith,
      v.regular,
      ap (tally is_repairing) e,
      tally-middle is_repairing front back (repairing t),
    ))
Inv-Step s s' (chain t mask e) v = record {
  word = v.word;
  counted = v.counted;
  owned = v.owned;
  single = v.single;
  regular = v.regular;
}
Inv-Step s s' (unchain t) v = record {
  word = v.word;
  counted = v.counted;
  owned = v.owned;
  single = v.single;
  regular = v.regular;
}
Inv-Step s s' shut v = Inv-word s (close s.lifecycle) (close-word s.lifecycle) v
Inv-Step s s' open_again v = Inv-word s (reopen s.lifecycle).1 (reopen-word s.lifecycle v.word) v

pub Inv-Reachable : (s : Guard) → Reachable s → Inv s
unfolding active_of
Inv-Reachable _ begin = record {
  word = omega arith;
  counted = refl;
  owned = refl;
  single = omega arith;
  regular = refl;
}
Inv-Reachable _ (later s s' r step) = Inv-Step s s' step (Inv-Reachable s r)

-- At any time that the steps of the handlers and of the server reach, the guard's word counts the
-- handlers, at most one of them is primary, the owner's word is its type plus 1, or 0 without one, and
-- the guard is not idle or there is no handler.
pub handlers_lem :
    (s : Guard)
    → Reachable s
    → (active_of s.lifecycle ≡ length s.handlers)
      × (tally is_primary s.handlers ≤ 1)
      × (s.owner ≡ tally word_of s.handlers)
      × ((is_idle s.lifecycle s.owner s.chaining_mask ≡ false) ⊎ (s.handlers ≡ []))
unfolding is_idle
handlers_lem s r =
    let v = Inv-Reachable s r in (v.counted, v.single, v.owned, idle s.handlers v.counted)
  where
    idle :
        (hs : List Handler)
        → active_of s.lifecycle ≡ length hs
        → (is_idle s.lifecycle s.owner s.chaining_mask ≡ false) ⊎ (hs ≡ [])
    idle [] e = inr refl
    idle (h ∷ hs) e = inl (ground arith)

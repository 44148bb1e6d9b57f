-- ===== src/Guard/Counting.antt =====
-- The counts that the guard of src/uvdb_exception_guard.c keeps: of its handlers, and of the owner.
use vita_debugger.Prelude.{
  ℕ, suc, ◌+◌, ◌^◌, ◌≤◌, ◌<◌, ◌≡◌, ◌≢◌, ◌⊎◌, inl, inr, refl, ap, true, false, List, [], ◌∷◌, ◌++◌,
  length, length-append, ◌==◌, if◌then◌else◌, Bool-cases, arith,
}
use vita_debugger.Guard.{active_of, exchange, claim, disown}
use vita_debugger.Guard.Handlers.{
  Handler, claiming, primary, nested, shut_out, leaving, repairing, Guard, IsLeaving, nested_leaves,
  shut_out_leaves, owner_left,
}

-- A number for each handler, summed up.
abbrev pub tally : (Handler → ℕ) → List Handler → ℕ
tally f [] = 0
tally f (h ∷ hs) = f h + tally f hs

abbrev pub is_primary : Handler → ℕ
is_primary (primary t) = 1
is_primary (claiming t) = 0
is_primary (nested t) = 0
is_primary (shut_out t) = 0
is_primary (leaving t) = 0
is_primary (repairing t) = 0

-- The owner's word for a primary handler.
abbrev pub word_of : Handler → ℕ
word_of (primary t) = t + 1
word_of (claiming t) = 0
word_of (nested t) = 0
word_of (shut_out t) = 0
word_of (leaving t) = 0
word_of (repairing t) = 0

abbrev pub is_repairing : Handler → ℕ
is_repairing (primary t) = 0
is_repairing (claiming t) = 0
is_repairing (nested t) = 0
is_repairing (shut_out t) = 0
is_repairing (leaving t) = 0
is_repairing (repairing t) = 1

pub tally-middle :
    (f : Handler → ℕ) (front back : List Handler) (h : Handler)
    → tally f (front ++ (h ∷ back)) ≡ f h + tally f (front ++ back)
tally-middle f [] back h = refl
tally-middle f (k ∷ front) back h = omega (arith, tally-middle f front back h)

tally-primary-word : (hs : List Handler) → tally is_primary hs ≤ tally word_of hs
tally-primary-word [] = omega arith
tally-primary-word (primary t ∷ hs) = omega (arith, tally-primary-word hs)
tally-primary-word (claiming t ∷ hs) = omega (arith, tally-primary-word hs)
tally-primary-word (nested t ∷ hs) = omega (arith, tally-primary-word hs)
tally-primary-word (shut_out t ∷ hs) = omega (arith, tally-primary-word hs)
tally-primary-word (leaving t ∷ hs) = omega (arith, tally-primary-word hs)
tally-primary-word (repairing t ∷ hs) = omega (arith, tally-primary-word hs)

no_word : (hs : List Handler) → tally is_primary hs ≡ 0 → tally word_of hs ≡ 0
no_word [] e = refl
no_word (primary t ∷ hs) e = absurd (omega arith)
no_word (claiming t ∷ hs) e = omega (arith, no_word hs (omega arith))
no_word (nested t ∷ hs) e = omega (arith, no_word hs (omega arith))
no_word (shut_out t ∷ hs) e = omega (arith, no_word hs (omega arith))
no_word (leaving t ∷ hs) e = omega (arith, no_word hs (omega arith))
no_word (repairing t ∷ hs) e = omega (arith, no_word hs (omega arith))

pub length-middle :
    (front back : List Handler) (h : Handler)
    → length (front ++ (h ∷ back)) ≡ suc (length (front ++ back))
length-middle front back h = omega (arith, length-append front (h ∷ back), length-append front back)

pub record Inv (s : Guard) : Type 0 where
  pub word : s.lifecycle < 2 ^ 32
  pub counted : active_of s.lifecycle ≡ length s.handlers
  pub owned : s.owner ≡ tally word_of s.handlers
  pub single : tally is_primary s.handlers ≤ 1
  pub regular : tally is_repairing s.handlers ≡ 0

-- A handler that moves, with no change of the count.
Inv-move :
    (s : Guard) (owner : ℕ) (h h' : Handler) (front back : List Handler)
    → s.handlers ≡ front ++ (h ∷ back)
    → owner + word_of h ≡ s.owner + word_of h'
    → is_primary h' + tally is_primary (front ++ back) ≤ 1
    → is_repairing h' ≡ 0
    → Inv s
    → Inv (record s { owner = owner; handlers = front ++ (h' ∷ back) })
Inv-move s owner h h' front back e words single calm v = record {
  word = v.word;
  counted =
      omega
        (arith, v.counted, ap length e, length-middle front back h, length-middle front back h');
  owned = omega (
    arith,
    v.owned,
    words,
    ap (tally word_of) e,
    tally-middle word_of front back h,
    tally-middle word_of front back h',
  );
  single = omega (arith, single, tally-middle is_primary front back h');
  regular = omega (
    arith,
    v.regular,
    calm,
    ap (tally is_repairing) e,
    tally-middle is_repairing front back h,
    tally-middle is_repairing front back h',
  );
}

pub leaving_counts :
    (h : Handler) → IsLeaving h → (word_of h ≡ 0) × (is_primary h ≡ 0) × (is_repairing h ≡ 0)
leaving_counts _ (nested_leaves t) = (refl, refl, refl)
leaving_counts _ (shut_out_leaves t) = (refl, refl, refl)
leaving_counts _ (owner_left t) = (refl, refl, refl)

exchange-cases :
    (word expected desired : ℕ)
    → ((word ≡ expected) × (exchange word expected desired ≡ (true, desired)))
      ⊎ ((word ≢ expected) × (exchange word expected desired ≡ (false, word)))
unfolding exchange
exchange-cases word expected desired = elim (Bool-cases (word == expected)) [
  | inl e ↦ inl (ground arith, rw e refl)
  | inr e ↦ inr (λ d. ground arith, rw e refl)
]

pub Inv-claim :
    (s : Guard) (t : ℕ) (front back : List Handler)
    → s.handlers ≡ front ++ (claiming t ∷ back)
    → Inv s
    → Inv (record s {
      owner = (claim s.owner t).1;
      handlers = front ++ ((if (claim s.owner t).0 then primary t else nested t) ∷ back);
    })
unfolding claim
Inv-claim s t front back e v =
    let primaries = ap (tally is_primary) e in
    let middle = tally-middle is_primary front back (claiming t) in
    elim (exchange-cases s.owner 0 (t + 1)) [
      | inl (free, x) ↦ rw x (
          Inv-move s (t + 1) (claiming t) (primary t) front back e (omega (arith, free))
            (omega (arith, free, v.owned, tally-primary-word s.handlers, primaries, middle)) refl v)
      | inr (taken, x) ↦ rw x (
          Inv-move s s.owner (claiming t) (nested t) front back e refl
            (omega (arith, v.single, primaries, middle)) refl v)
    ]

-- A primary handler finds its own word.
pub owner_at :
    (s : Guard) (t : ℕ) (front back : List Handler)
    → s.handlers ≡ front ++ (primary t ∷ back)
    → Inv s
    → s.owner ≡ t + 1
owner_at s t front back e v = omega (
  arith,
  v.owned,
  ap (tally word_of) e,
  tally-middle word_of front back (primary t),
  no_word (front ++ back) (
      omega
        (arith, v.single, ap (tally is_primary) e, tally-middle is_primary front back (primary t))),
)

pub Inv-disown :
    (s : Guard) (t : ℕ) (front back : List Handler)
    → s.handlers ≡ front ++ (primary t ∷ back)
    → Inv s
    → Inv (record s {
      owner = (disown s.owner t).1;
      handlers = front ++ ((if (disown s.owner t).0 then leaving t else primary t) ∷ back);
    })
unfolding disown
Inv-disown s t front back e v = elim (exchange-cases s.owner (t + 1) 0) [
  | inr (other, x) ↦ absurd (other (owner_at s t front back e v))
  | inl (own, x) ↦ rw x (
      Inv-move s 0 (primary t) (leaving t) front back e (omega (arith, own))
        (omega (
          arith,
          v.single,
          ap (tally is_primary) e,
          tally-middle is_primary front back (primary t),
        ))
        refl v)
]

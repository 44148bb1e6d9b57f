-- ===== src/Gate/Exclusion.antt =====
-- What the gate is for: at any time one thread at most is in the protocol session.
use vita_debugger.Prelude.{
  ℕ, ◌<◌, ◌^◌, ◌≡◌, ◌≢◌, ◌⊎◌, inl, inr, refl, sym, ap, ◌∙◌, subst, Bool, true, false, some, ◌==◌,
  ==_iff, Bool-cases, arith,
}
use vita_debugger.Gate.{
  is_idle, acquired, owner_of, closing_of, token_is_valid, try_acquire, release_desired,
  compare_exchange, close, reopen_first, reopen_second,
}
use vita_debugger.Gate.System.{
  Place, outside, inside, reopening, releasing, System, move, Step, enter, refuse, load, store,
  observe, denied, shut, reopen_one, reopen_none, reopen_two, Reachable, begin, after,
}

-- A thread in the session owns the word, and so did the word it observed while releasing it.
abbrev Good : ℕ → Place → ℕ → Type 0
Good word outside i = Unit
Good word inside i = (owner_of word ≡ i) × (i ≢ 0)
Good word (releasing o) i = (owner_of word ≡ i) × (i ≢ 0) × (owner_of o ≡ i)
Good word reopening i = Unit

abbrev pub in_session : Place → Bool
in_session outside = false
in_session inside = true
in_session (releasing o) = true
in_session reopening = false

Good-owner :
    (word : ℕ) (p : Place) (i : ℕ) → Good word p i → in_session p ≡ true → owner_of word ≡ i
Good-owner word outside i g h = absurd (cc h)
Good-owner word inside i g h = g.0
Good-owner word (releasing o) i g h = g.0
Good-owner word reopening i g h = absurd (cc h)

-- A change of the word that keeps the owner keeps every thread's condition.
Good-keeps : (w w' : ℕ) (p : Place) (i : ℕ) → owner_of w' ≡ owner_of w → Good w p i → Good w' p i
Good-keeps w w' outside i e g = tt
Good-keeps w w' inside i e g = (e ∙ g.0, g.1)
Good-keeps w w' (releasing o) i e g = (e ∙ g.0, g.1, g.2)
Good-keeps w w' reopening i e g = tt

-- Where the owner is 0 no thread is in the session, and any word will do; so it is for a thread that
-- is not the owner.
Good-other : (w w' : ℕ) (p : Place) (i : ℕ) → (i ≢ 0 → owner_of w ≢ i) → Good w p i → Good w' p i
Good-other w w' outside i e g = tt
Good-other w w' inside i e g = absurd (e g.1 g.0)
Good-other w w' (releasing o) i e g = absurd (e g.1 g.0)
Good-other w w' reopening i e g = tt

Good-move :
    (w : ℕ) (place : ℕ → Place) (i : ℕ) (p : Place)
    → ((j : ℕ) → j ≢ i → Good w (place j) j)
    → Good w p i
    → (j : ℕ) → Good w (move place i p j) j
Good-move w place i p rest mine j = elim (Bool-cases (j == i)) [
  | inl e ↦ rw e (subst (Good w p) (sym ((==_iff _ _).0 e)) mine)
  | inr e ↦ rw e (rest j (λ z. differ z e))
]
  where
    differ : j ≡ i → (j == i) ≡ false → ⊥
    differ z e = ground arith

try_acquire-acquired :
    (w i : ℕ)
    → i < 2 ^ 32
    → (try_acquire w i).0 ≡ acquired
    → (w ≡ 0) × ((try_acquire w i).1 ≡ i) × (owner_of i ≡ i) × (i ≢ 0)
unfolding try_acquire compare_exchange token_is_valid owner_of closing_of
try_acquire-acquired w i u h = ground arith

try_acquire-other : (w i : ℕ) → ((try_acquire w i).0 ≡ acquired → ⊥) → (try_acquire w i).1 ≡ w
unfolding try_acquire compare_exchange
try_acquire-other w i h = ground arith

owner_of-close : (w : ℕ) → owner_of (close w) ≡ owner_of w
unfolding owner_of close
owner_of-close w = omega arith

owner_of_zero : owner_of 0 ≡ 0
unfolding owner_of
owner_of_zero = refl

reopen_first-word : (w : ℕ) → (reopen_first w).1 ≡ w
unfolding reopen_first compare_exchange
reopen_first-word w = ground arith

reopen_second-word : (w : ℕ) → ((reopen_second w).1 ≡ w) ⊎ (owner_of w ≡ 0)
unfolding reopen_second compare_exchange owner_of
reopen_second-word w = ground arith

-- What a step keeps.
Inv : System → Type 0
Inv s = (i : ℕ) → Good s.word (s.place i) i

Inv-at : (s : System) (i : ℕ) (p : Place) → Inv s → s.place i ≡ p → Good s.word p i
unfolding Inv
Inv-at s i p inv e = subst (λ p. Good s.word p i) e (inv i)

-- A step that keeps the owner, in which one thread moves.
Inv-move :
    (s : System) (i : ℕ) (p : Place) (word : ℕ)
    → owner_of word ≡ owner_of s.word
    → Good s.word p i
    → Inv s
    → Inv (record { word = word; place = move s.place i p })
unfolding Inv
Inv-move s i p word e mine inv =
    Good-move word s.place i p (λ j other. Good-keeps s.word word (s.place j) j e (inv j))
      (Good-keeps s.word word p i e mine)

Inv-Step : (s s' : System) → Step s s' → Inv s → Inv s'
unfolding Inv
Inv-Step s s' (enter i u p got) inv =
    let (free, stored, own, nz) = try_acquire-acquired s.word i u got in
    Good-move (try_acquire s.word i).1 s.place i inside
      (λ j other.
        Good-other s.word _ (s.place j) j (λ h e. h (sym e ∙ ap owner_of free ∙ owner_of_zero))
          (inv j))
      (ap owner_of stored ∙ own, nz)
Inv-Step s s' (refuse i p no_entry) inv = λ j.
    Good-keeps s.word _ (s.place j) j (ap owner_of (try_acquire-other s.word i no_entry)) (inv j)
Inv-Step s s' (load i p) inv =
    let mine = Inv-at s i inside inv p in
    Inv-move s i (releasing s.word) s.word refl (mine.0, mine.1, mine.0) inv
Inv-Step s s' (store i o d p e stored) inv =
    let mine = Inv-at s i (releasing o) inv p in
    Good-move (compare_exchange s.word o d).1 s.place i outside
      (λ j other. Good-other s.word _ (s.place j) j (λ h e. other (sym e ∙ mine.0)) (inv j)) tt
Inv-Step s s' (observe i o d p e failed) inv =
    let mine = Inv-at s i (releasing o) inv p in
    Inv-move s i (releasing s.word) s.word refl (mine.0, mine.1, mine.0) inv
Inv-Step s s' (denied i o p e) inv =
    let mine = Inv-at s i (releasing o) inv p in
    Inv-move s i inside s.word refl (mine.0, mine.1) inv
Inv-Step s s' shut inv = λ j. Good-keeps s.word _ (s.place j) j (owner_of-close s.word) (inv j)
Inv-Step s s' (reopen_one i p e) inv =
    Inv-move s i reopening _ (ap owner_of (reopen_first-word s.word)) tt inv
Inv-Step s s' (reopen_none i p e) inv =
    λ j. Good-keeps s.word _ (s.place j) j (ap owner_of (reopen_first-word s.word)) (inv j)
Inv-Step s s' (reopen_two i p) inv = elim (reopen_second-word s.word) [
  | inl same ↦ Inv-move s i outside _ (ap owner_of same) tt inv
  | inr free ↦
      Good-move (reopen_second s.word).1 s.place i outside
        (λ j other. Good-other s.word _ (s.place j) j (λ h e. h (sym e ∙ free)) (inv j)) tt
]

Inv-Reachable : (s : System) → Reachable s → Inv s
unfolding Inv
Inv-Reachable s begin = λ i. tt
Inv-Reachable s (after s₀ s₁ r step) = Inv-Step s₀ s step (Inv-Reachable s₀ r)

-- However the threads' atomic operations interleave, with closing and reopening among them, two
-- threads that are in the session, or on the way out of it, are the same.
pub exclusion :
    (s : System) (i j : ℕ)
    → Reachable s
    → in_session (s.place i) ≡ true
    → in_session (s.place j) ≡ true
    → i ≡ j
unfolding Inv
exclusion s i j r hi hj =
    sym (Good-owner s.word (s.place i) i (Inv-Reachable s r i) hi)
    ∙ Good-owner s.word (s.place j) j (Inv-Reachable s r j) hj

release_desired-owner :
    (o i : ℕ) → owner_of o ≡ i → i ≢ 0 → release_desired o i ≡ some (closing_of o)
unfolding release_desired token_is_valid owner_of closing_of
release_desired-owner o i e nz = ground arith

owner_of-closing_of : (o : ℕ) → owner_of (closing_of o) ≡ 0
unfolding owner_of closing_of
owner_of-closing_of o = omega arith

-- A thread that is releasing the session is never denied: the word it has observed names it, and the
-- word it is about to store has no owner.
pub release_granted :
    (s : System) (i observed : ℕ)
    → Reachable s
    → s.place i ≡ releasing observed
    → (desired : ℕ) × (release_desired observed i ≡ some desired) × (owner_of desired ≡ 0)
release_granted s i o r p =
    let mine = Inv-at s i (releasing o) (Inv-Reachable s r) p in
    (closing_of o, release_desired-owner o i mine.2 mine.1, owner_of-closing_of o)

-- While the gate reads as idle, no thread is in the session.
pub is_idle-Reachable :
    (s : System) (i : ℕ) → Reachable s → is_idle s.word ≡ true → in_session (s.place i) ≡ false
unfolding Inv is_idle
is_idle-Reachable s i r idle = nobody (s.place i) (Inv-Reachable s r i)
  where
    nobody : (p : Place) → Good s.word p i → in_session p ≡ false
    nobody outside g = refl
    nobody inside g = absurd (g.1 (sym g.0 ∙ (==_iff _ 0).0 idle))
    nobody (releasing o) g = absurd (g.1 (sym g.0 ∙ (==_iff _ 0).0 idle))
    nobody reopening g = refl

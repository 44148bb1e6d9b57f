-- ===== src/Gate/System.antt =====
-- Threads that share the gate of src/uvdb_protocol_gate.c: one step is one atomic operation of one
-- of them. A thread's token is its number, a uint32_t.
use vita_debugger.Prelude.{ℕ, ◌≡◌, true, false, none, some, ◌==◌, ◌<◌, ◌^◌, if◌then◌else◌}
use vita_debugger.Gate.{
  acquired, try_acquire, release_desired, compare_exchange, close, reopen_first, reopen_second,
}

-- Where a thread is: outside, in the session, in the loop of `release` with the word it observed, or
-- between the two exchanges of `reopen`. One that is in the session reopens nothing, and
-- one that is outside does not release it.
pub data Place : Type 0 where
  outside inside reopening : Place
  releasing : ℕ → Place

pub record System : Type 0 where
  pub word : ℕ
  pub place : ℕ → Place

abbrev pub move : (ℕ → Place) → ℕ → Place → ℕ → Place
move place i p j = if j == i then p else place j

abbrev pub start : System
start = record { word = 0; place = λ i. outside }

-- In each, the thread that moves is `i`.
pub data Step (s : System) : System → Type 0 where
  -- `uvdb_protocol_gate_try_acquire` with each result
  enter :
      (i : ℕ)
      → i < 2 ^ 32
      → s.place i ≡ outside
      → (try_acquire s.word i).0 ≡ acquired
      → Step s (record { word = (try_acquire s.word i).1; place = move s.place i inside })
  refuse :
      (i : ℕ)
      → s.place i ≡ outside
      → ((try_acquire s.word i).0 ≡ acquired → ⊥)
      → Step s (record s { word = (try_acquire s.word i).1 })
  -- the first load of `release`, for a token it is the owner's or not
  load :
      (i : ℕ) → s.place i ≡ inside → Step s (record s { place = move s.place i (releasing s.word) })
  -- the loop's exchange, which stores or observes
  store :
      (i observed desired : ℕ)
      → s.place i ≡ releasing observed
      → release_desired observed i ≡ some desired
      → (compare_exchange s.word observed desired).0 ≡ true
      → Step s (record {
        word = (compare_exchange s.word observed desired).1;
        place = move s.place i outside;
      })
  observe :
      (i observed desired : ℕ)
      → s.place i ≡ releasing observed
      → release_desired observed i ≡ some desired
      → (compare_exchange s.word observed desired).0 ≡ false
      → Step s (record s { place = move s.place i (releasing s.word) })
  -- `uvdb_protocol_gate_release` gives -1: the thread is where it was before the call
  denied :
      (i observed : ℕ)
      → s.place i ≡ releasing observed
      → release_desired observed i ≡ none
      → Step s (record s { place = move s.place i inside })
  shut : Step s (record s { word = close s.word })
  reopen_one :
      (i : ℕ)
      → s.place i ≡ outside
      → (reopen_first s.word).0 ≡ true
      → Step s (record { word = (reopen_first s.word).1; place = move s.place i reopening })
  reopen_none :
      (i : ℕ)
      → s.place i ≡ outside
      → (reopen_first s.word).0 ≡ false
      → Step s (record s { word = (reopen_first s.word).1 })
  reopen_two :
      (i : ℕ)
      → s.place i ≡ reopening
      → Step s (record { word = (reopen_second s.word).1; place = move s.place i outside })

pub data Reachable : System → Type 0 where
  begin : Reachable start
  after : (s s' : System) → Reachable s → Step s s' → Reachable s'

-- ===== src/Console/Refine.antt =====
-- The consumer's and the lifecycle's calls of src/uvdb_console.c against the log.
use vita_debugger.Prelude.{
  ℕ, ◌+◌, ◌-◌, ◌*◌, ◌≡◌, refl, sym, ap, ◌∙◌, inl, inr, Bool, true, false, not, List, [], ◌∷◌, ◌++◌,
  Option, none, some, length, length-take, ◌==◌, if◌then◌else◌, Bool-cases, ==_iff, arith, min,
}
use mathlib.Core.Option.{map}
use mathlib.Core.Path.{ap₂}
use vita_debugger.Console.{
  ConsoleResult, empty, ready, stale, Record, Console, slots, record_max, try_lock, generation_of,
  head_record, purge_other_generations_locked, publish_depth, fill,
}
use vita_debugger.Console.Calls.{
  settle_capture, capture_locked, peek_locked, take_head, commit_locked,
}
use vita_debugger.Console.Valid.{Piece, piece, slot, held, contents, IsValid, advance}
use vita_debugger.Console.Contents.{
  fresh, purge_other_generations_locked-IsValid, purge_other_generations_locked-Steady,
}
use vita_debugger.Console.Cut.{cut, last_number, texts, texts-cut}
use vita_debugger.Console.Fill.{fill-IsFilled}
use vita_debugger.Console.Window.{length-window}
use vita_debugger.Console.Log.{Log, append_log, front, take_front}

-- The log that a console is.
abbrev pub log : Console → Log
log c = record { held = contents c; number = c.next_sequence; session = c.session }

-- Between two calls: the ring's variables agree, and no lock is held.
pub record IsReady (c : Console) : Type 0 where
  pub valid : IsValid c
  pub unlocked : c.queue_lock ≡ 0
  pub settled : c.lifecycle_lock ≡ 0

pub try_lock_lem :
    (fails : Bool) (lock : ℕ) → lock ≡ 0 → try_lock fails lock ≡ (not fails, if fails then 0 else 1)
unfolding try_lock
try_lock_lem true lock e = rw e refl
try_lock_lem false lock e = rw e refl

contents_cases :
    (c : Console)
    → IsValid c
    → (c.count == 0) ≡ false
    → (p : List Piece) × (contents c ≡ piece (head_record c) ∷ p)
unfolding head_record
contents_cases c v e = (_, (advance v (λ z. ground arith)).0)

contents_nil : (c : Console) → (c.count == 0) ≡ true → contents c ≡ []
contents_nil c e = ap (held c.queue c.head) ((==_iff _ _).0 e)

-- A result as the log's.
abbrev pub logged {ℓ} : {A : Type ℓ} → A × Console → A × Log
logged (result, c) = (result, log c)

abbrev pub logged_peek :
    ConsoleResult × Option Record × Console → ConsoleResult × Option Piece × Log
logged_peek (result, out, c) = (result, map piece out, log c)

pub log_at :
    (c : Console) (ps : List Piece) (number session : ℕ)
    → contents c ≡ ps
    → c.next_sequence ≡ number
    → c.session ≡ session
    → log c ≡ record { held = ps; number = number; session = session }
log_at c ps number session e e' e'' = rw (← e, ← e', ← e'') refl

pub peek_locked_refines :
    (generation : ℕ) (c : Console)
    → IsValid c
    → c.lifecycle_lock ≡ 0
    → let kept = fresh generation (contents c) in
      (logged_peek (peek_locked generation c)
        ≡ ((front kept).0, (front kept).1, record (log c) { held = kept }))
      × IsReady (peek_locked generation c).2
unfolding peek_locked head_record
peek_locked_refines generation c v settled =
    let c' = purge_other_generations_locked generation c in
    let (kept, v') = purge_other_generations_locked-IsValid generation c v in
    let (a, number, session, b, d, l) = purge_other_generations_locked-Steady generation c v in
    elim (Bool-cases (c'.count == 0)) [
      | inl e ↦
          rw (e, sym kept ∙ contents_nil c' e)
            (
              ap (λ s. (empty, none, s)) (log_at c' [] _ _ (contents_nil c' e) number session),
              record { valid = v'; unlocked = refl; settled = l ∙ settled },
            )
      | inr e ↦
          let (ps, split) = contents_cases c' v' e in
          rw (e, sym kept ∙ split)
            (
              ap (λ s. (ready, some (piece (head_record c')), s))
                  (log_at c' _ _ _ split number session),
              record { valid = v'; unlocked = refl; settled = l ∙ settled },
            )
    ]

-- The head is taken off, whatever else changes with it.
take_head_refines :
    (c : Console)
    → IsValid c
    → (c.count == 0) ≡ false
    → c.lifecycle_lock ≡ 0
    → (contents c ≡ piece (head_record c) ∷ contents (take_head c))
      × ((take_head c).next_sequence ≡ c.next_sequence)
      × ((take_head c).session ≡ c.session)
      × IsReady (take_head c)
unfolding take_head publish_depth head_record
take_head_refines c v e settled =
    let (split, v') = advance v (λ z. ground arith) in
    (split, refl, refl, record { valid = v'; unlocked = refl; settled = settled })

pub commit_locked_refines :
    (generation sequence : ℕ) (c : Console)
    → IsValid c
    → c.lifecycle_lock ≡ 0
    → let left = take_front sequence (fresh generation (contents c)) in
      (logged (commit_locked generation sequence c) ≡ (left.0, record (log c) { held = left.1 }))
      × IsReady (commit_locked generation sequence c).1
unfolding commit_locked
commit_locked_refines generation sequence c v settled =
    let c' = purge_other_generations_locked generation c in
    let (kept, v') = purge_other_generations_locked-IsValid generation c v in
    let (a, number, session, b, d, l) = purge_other_generations_locked-Steady generation c v in
    elim (Bool-cases (c'.count == 0)) [
      | inl e ↦
          rw (e, sym kept ∙ contents_nil c' e)
            (
              ap (λ s. (stale, s)) (log_at c' [] _ _ (contents_nil c' e) number session),
              record { valid = v'; unlocked = refl; settled = l ∙ settled },
            )
      | inr e ↦
          let (split, number', session', done) = take_head_refines c' v' e (l ∙ settled) in
          elim (Bool-cases ((head_record c').sequence == sequence)) [
            | inl m ↦
                rw (sym kept ∙ split, e, m)
                  (
                    ap (λ s. (ready, s))
                        (log_at (take_head c') _ _ _ refl (number' ∙ number) (session' ∙ session)),
                    done,
                  )
            | inr m ↦
                rw (sym kept ∙ split, e, m)
                  (
                    ap (λ s. (stale, s)) (log_at c' _ _ _ split number session),
                    record { valid = v'; unlocked = refl; settled = l ∙ settled },
                  )
          ]
    ]

-- What a capture with the queue locked does.
pub capture_locked_refines :
    (text : List ℕ) (c : Console)
    → IsValid c
    → c.lifecycle_lock ≡ 0
    → (logged (capture_locked text (length text) c) ≡ append_log text (log c))
      × IsReady (capture_locked text (length text) c).1
unfolding capture_locked settle_capture publish_depth append_log
capture_locked_refines text c v settled =
    let generation = generation_of c.session in
    let c' = purge_other_generations_locked generation c in
    let (kept, v') = purge_other_generations_locked-IsValid generation c v in
    let (a, number, session, b, d, l) = purge_other_generations_locked-Steady generation c v in
    let room = slots - length (fresh generation (contents c)) in
    let p = fill slots generation text (length text) 0 0 c' in
    let e = sym (ap length kept) ∙ length-window (slot c'.queue) c'.head c'.count in
    let f =
      fill-IsFilled slots room generation text 0 0 c' (omega arith) (omega (arith, e, v'.count_in))
        v' in
    let new = cut room generation c.next_sequence text in
    (
      ap₂ (λ n s. (n, s)) (count p.accepted f.accepted_at)
          (log_at p.console (fresh generation (contents c) ++ new) _ _
            (f.held_at ∙ ap₂ (λ ps n. ps ++ cut room generation n text) kept number)
            (f.number_at ∙ ap (λ n. last_number n (cut room generation n text)) number)
            (f.steady.0 ∙ session)),
      record { valid = f.valid; unlocked = refl; settled = f.steady.3 ∙ l ∙ settled },
    )
  where
    count :
        (n : ℕ)
        → let room = slots - length (fresh (generation_of c.session) (contents c)) in
          n ≡ 0 + min (length text) (record_max * room)
          → n ≡ length (texts (cut room (generation_of c.session) c.next_sequence text))
    count n e = rw (texts-cut _ _ _ text, length-take) (omega (arith, e))

-- ===== src/Console/Outer.antt =====
-- Each call of src/uvdb_console.c against the log.
use vita_debugger.Prelude.{
  ℕ, ◌≡◌, refl, ap, ◌∙◌, inl, inr, Bool, true, false, not, ◌||◌, List, [], some, length, ◌==◌,
  if◌then◌else◌, Bool-cases,
}
use mathlib.Core.Path.{ap₂}
use vita_debugger.Console.{
  busy, ready, Console, generation_of, generation_valid, is_open, open_word, purge_locked,
}
use vita_debugger.Console.Calls.{
  Others, next_generation, purge_if_free, start_session, session_open, close_word, finish_close,
  session_close, capture_some, capture, peek, commit_sent,
}
use vita_debugger.Console.Valid.{contents, IsValid}
use vita_debugger.Console.Contents.{purge_locked-IsValid, purge_locked-Steady}
use vita_debugger.Console.Refine.{
  log, logged, logged_peek, log_at, IsReady, try_lock_lem, peek_locked_refines,
  commit_locked_refines, capture_locked_refines,
}
use vita_debugger.Console.Log.{open_log, close_log, capture_log, peek_log, commit_log}

pub peek_refines :
    (o : Others) (generation : ℕ) (c : Console)
    → IsReady c
    → (logged_peek (peek o generation c) ≡ peek_log o generation (log c))
      × IsReady (peek o generation c).2
unfolding peek peek_log
peek_refines o generation c r =
    rw (try_lock_lem o.queue_fails c.queue_lock r.unlocked)
      (elim (Bool-cases (generation_valid generation)) [
        | inl e ↦ elim (Bool-cases (c.session == open_word generation)) [
          | inl e' ↦ elim (Bool-cases o.queue_fails) [
            | inl e'' ↦ rw (e, e', e'') (refl, r)
            | inr e'' ↦ elim (Bool-cases (o.session == open_word generation)) [
              | inl e''' ↦
                  rw (e, e', e'', e''')
                    (peek_locked_refines generation (record c { queue_lock = 1 }) r.valid r.settled)
              | inr e''' ↦
                  rw (e, e', e'', e''')
                    (refl, record { valid = r.valid; unlocked = refl; settled = r.settled })
            ]
          ]
          | inr e' ↦ rw (e, e') (refl, r)
        ]
        | inr e ↦ rw e (refl, r)
      ])

pub commit_refines :
    (o : Others) (generation sequence : ℕ) (c : Console)
    → IsReady c
    → (logged (commit_sent o generation sequence c) ≡ commit_log o generation sequence (log c))
      × IsReady (commit_sent o generation sequence c).1
unfolding commit_sent commit_log
commit_refines o generation sequence c r =
    rw (try_lock_lem o.queue_fails c.queue_lock r.unlocked)
      (elim (Bool-cases (not (generation_valid generation) || sequence == 0)) [
        | inr e ↦ elim (Bool-cases (c.session == open_word generation)) [
          | inl e' ↦ elim (Bool-cases o.queue_fails) [
            | inl e'' ↦ rw (e, e', e'') (refl, r)
            | inr e'' ↦ elim (Bool-cases (o.session == open_word generation)) [
              | inl e''' ↦
                  rw (e, e', e'', e''')
                    (commit_locked_refines generation sequence (record c { queue_lock = 1 }) r.valid
                      r.settled)
              | inr e''' ↦
                  rw (e, e', e'', e''')
                    (refl, record { valid = r.valid; unlocked = refl; settled = r.settled })
            ]
          ]
          | inr e' ↦ rw (e, e') (refl, r)
        ]
        | inl e ↦ rw e (refl, r)
      ])

pub capture_refines :
    (o : Others) (text : List ℕ) (c : Console)
    → IsReady c
    → (logged (capture o (some text) (length text) c) ≡ capture_log o text (log c))
      × IsReady (capture o (some text) (length text) c).1
unfolding capture capture_some capture_log
capture_refines o text c r =
    rw (try_lock_lem o.queue_fails c.queue_lock r.unlocked) (elim (Bool-cases (length text == 0)) [
      | inr e ↦ elim (Bool-cases (is_open c.session)) [
        | inl e' ↦ elim (Bool-cases o.queue_fails) [
          | inl e'' ↦
              rw (e, e', e'')
                (refl, record { valid = r.valid; unlocked = r.unlocked; settled = r.settled })
          | inr e'' ↦ elim (Bool-cases (o.session == c.session)) [
            | inl e''' ↦
                rw (e, e', e'', e''')
                  (capture_locked_refines text (record c { queue_lock = 1 }) r.valid r.settled)
            | inr e''' ↦
                rw (e, e', e'', e''')
                  (refl, record { valid = r.valid; unlocked = refl; settled = r.settled })
          ]
        ]
        | inr e' ↦
            rw (e, e')
              (refl, record { valid = r.valid; unlocked = r.unlocked; settled = r.settled })
      ]
      | inl e ↦ rw e (refl, r)
    ])

purge_if_free_refines :
    (fails : Bool) (c : Console)
    → IsValid c
    → c.queue_lock ≡ 0
    → (contents (purge_if_free fails c) ≡ (if fails then contents c else []))
      × IsValid (purge_if_free fails c)
      × ((purge_if_free fails c).next_sequence ≡ c.next_sequence)
      × ((purge_if_free fails c).queue_lock ≡ 0)
unfolding purge_if_free
purge_if_free_refines true c v e = rw (try_lock_lem true c.queue_lock e) (refl, v, refl, e)
purge_if_free_refines false c v e =
    let (empty_at, v') = purge_locked-IsValid (record c { queue_lock = 1 }) v in
    rw (try_lock_lem false c.queue_lock e)
      (empty_at, v', (purge_locked-Steady (record c { queue_lock = 1 }) v).1, refl)

start_session_refines :
    (generation : ℕ) (c : Console)
    → IsValid c
    → c.queue_lock ≡ 0
    → (log (start_session generation c) ≡ record (log c) { session = open_word generation })
      × IsReady (start_session generation c)
unfolding start_session
start_session_refines generation c v e = (refl, record { valid = v; unlocked = e; settled = refl })

pub open_refines :
    (o : Others) (c : Console)
    → IsReady c
    → (logged (session_open o c) ≡ open_log o (log c)) × IsReady (session_open o c).1
unfolding session_open open_log
open_refines o c r =
    let old = generation_of c.session in
    let before = record c { session = old; lifecycle_lock = 1 } in
    let (held_at, v, number, unlocked) =
      purge_if_free_refines o.queue_fails before r.valid r.unlocked in
    let (opened_at, r') =
      start_session_refines (next_generation old) (purge_if_free o.queue_fails before) v unlocked in
    elim (Bool-cases o.lifecycle_fails) [
      | inl e ↦ rw (try_lock_lem o.lifecycle_fails c.lifecycle_lock r.settled, e) (refl, r)
      | inr e ↦
          rw (try_lock_lem o.lifecycle_fails c.lifecycle_lock r.settled, e)
            (
              ap (λ s. (next_generation old, s))
                  (opened_at
                    ∙ ap₂
                        (λ ps n. record {
                          held = ps;
                          number = n;
                          session = open_word (next_generation old);
                        })
                        held_at number),
              r',
            )
    ]

finish_close_refines :
    (o : Others) (c : Console)
    → IsReady c
    → (logged (finish_close o c) ≡ (
        if o.lifecycle_fails || o.queue_fails
        then (busy, log c)
        else (ready, record (log c) { held = [] })))
      × IsReady (finish_close o c).1
unfolding finish_close
finish_close_refines o c r =
    let before = record c { queue_lock = 1; lifecycle_lock = 1 } in
    let (empty_at, v) = purge_locked-IsValid before r.valid in
    let (_, number, session, _, _, _) = purge_locked-Steady before r.valid in
    rw
      (
        try_lock_lem o.lifecycle_fails c.lifecycle_lock r.settled,
        try_lock_lem o.queue_fails c.queue_lock r.unlocked,
      )
      (elim (Bool-cases o.lifecycle_fails) [
        | inl e ↦ rw e (refl, r)
        | inr e ↦ elim (Bool-cases o.queue_fails) [
          | inl e' ↦
              rw (e, e') (refl, record { valid = r.valid; unlocked = r.unlocked; settled = refl })
          | inr e' ↦
              rw (e, e')
                (
                  ap (λ s. (ready, s))
                      (log_at (purge_locked before) [] _ _ empty_at number session),
                  record { valid = v; unlocked = refl; settled = refl },
                )
        ]
      ])

pub close_refines :
    (o : Others) (words : List ℕ) (generation : ℕ) (c : Console)
    → IsReady c
    → (logged (session_close o words generation c) ≡ close_log o words generation (log c))
      × IsReady (session_close o words generation c).1
unfolding session_close close_log
close_refines o words generation c r =
    let c' = record c { session = (close_word words generation c.session).1 } in
    let r' : IsReady c' = record { valid = r.valid; unlocked = r.unlocked; settled = r.settled } in
    let (done, r'') = finish_close_refines o c' r' in
    elim (Bool-cases (generation_valid generation)) [
      | inr e ↦ rw e (refl, r)
      | inl e ↦ elim (Bool-cases (close_word words generation c.session).0) [
        | inl e' ↦ rw (e, e') (done, r'')
        | inr e' ↦ rw (e, e') (refl, r')
      ]
    ]

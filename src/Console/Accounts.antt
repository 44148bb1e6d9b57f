-- ===== src/Console/Accounts.antt =====
-- The byte counters of src/uvdb_console.c over whole calls.
use vita_debugger.Prelude.{
  ℕ, ◌+◌, ◌%◌, ◌^◌, ◌≡◌, refl, ◌∙◌, inl, inr, Bool, not, ◌||◌, List, [], ◌∷◌, some, length, ◌==◌,
  Bool-cases, arith,
}
use vita_debugger.Console.{
  Console, generation_valid, is_open, open_word, try_lock, head_record,
  purge_other_generations_locked,
}
use vita_debugger.Console.Calls.{
  Others, purge_if_free, start_session, session_open, close_word, finish_close, session_close,
  capture_some, capture, peek_locked, peek, commit_locked, commit_sent,
}
use vita_debugger.Console.Valid.{IsValid}
use vita_debugger.Console.Contents.{purge_other_generations_locked-IsValid}
use vita_debugger.Console.Log.{
  Call, open_call, close_call, gate_call, capture_call, peek_call, commit_call,
}
use vita_debugger.Console.Refine.{IsReady}
use vita_debugger.Console.Run.{console_step, console_step_refines}
use vita_debugger.Console.Ledger.{
  accounted, bytes-note_drop, accounted-purge_locked, accounted-purge_other_generations_locked,
  accounted-take_head, accounted-capture_locked,
}

-- A result whose console accounts for so many bytes.
record Accounts {ℓ} {A : Type ℓ} (console_of : A → Console) (n : ℕ) (result : A) : Type 0 where
  pub accounts : accounted (console_of result) ≡ n

abbrev first_of {ℓ} : {A : Type ℓ} → A × Console → Console
first_of (result, c) = c

abbrev second_of {ℓ κ} : {A : Type ℓ} {B : Type κ} → A × B × Console → Console
second_of (result, out, c) = c

abbrev self : Console → Console
self c = c

accounted-peek_locked :
    (generation : ℕ) (c : Console)
    → IsValid c
    → Accounts second_of (accounted c) (peek_locked generation c)
unfolding peek_locked
accounted-peek_locked generation c v =
    elim (Bool-cases ((purge_other_generations_locked generation c).count == 0)) [
      | inl e ↦ rw e (record { accounts = accounted-purge_other_generations_locked generation c v })
      | inr e ↦ rw e (record { accounts = accounted-purge_other_generations_locked generation c v })
    ]

accounted-peek :
    (o : Others) (generation : ℕ) (c : Console)
    → IsValid c
    → Accounts second_of (accounted c) (peek o generation c)
unfolding peek
accounted-peek o generation c v = elim (Bool-cases (generation_valid generation)) [
  | inr e ↦ rw e (record { accounts = refl })
  | inl e ↦ elim (Bool-cases (c.session == open_word generation)) [
    | inr d ↦ rw (e, d) (record { accounts = refl })
    | inl d ↦ elim (Bool-cases (try_lock o.queue_fails c.queue_lock).0) [
      | inr b ↦ rw (e, d, b) (record { accounts = refl })
      | inl b ↦ elim (Bool-cases (o.session == open_word generation)) [
        | inr a ↦ rw (e, d, b, a) (record { accounts = refl })
        | inl a ↦
            rw (e, d, b, a) (record { accounts = (accounted-peek_locked generation _ v).accounts })
      ]
    ]
  ]
]

accounted-commit_locked :
    (generation sequence : ℕ) (c : Console)
    → IsValid c
    → Accounts first_of (accounted c) (commit_locked generation sequence c)
unfolding commit_locked
accounted-commit_locked generation sequence c v =
    let c' = purge_other_generations_locked generation c in
    elim (Bool-cases (c'.count == 0 || not ((head_record c').sequence == sequence))) [
      | inl e ↦ rw e (record { accounts = accounted-purge_other_generations_locked generation c v })
      | inr e ↦ rw e (record {
        accounts =
            accounted-take_head c' (purge_other_generations_locked-IsValid generation c v).1
              (λ z. ground arith)
            ∙ accounted-purge_other_generations_locked generation c v;
      })
    ]

accounted-commit :
    (o : Others) (generation sequence : ℕ) (c : Console)
    → IsValid c
    → Accounts first_of (accounted c) (commit_sent o generation sequence c)
unfolding commit_sent
accounted-commit o generation sequence c v =
    elim (Bool-cases (not (generation_valid generation) || sequence == 0)) [
      | inl e ↦ rw e (record { accounts = refl })
      | inr e ↦ elim (Bool-cases (c.session == open_word generation)) [
        | inr d ↦ rw (e, d) (record { accounts = refl })
        | inl d ↦ elim (Bool-cases (try_lock o.queue_fails c.queue_lock).0) [
          | inr b ↦ rw (e, d, b) (record { accounts = refl })
          | inl b ↦ elim (Bool-cases (o.session == open_word generation)) [
            | inr a ↦ rw (e, d, b, a) (record { accounts = refl })
            | inl a ↦
                rw (e, d, b, a)
                  (record { accounts = (accounted-commit_locked generation sequence _ v).accounts })
          ]
        ]
      ]
    ]

accounted-purge_if_free :
    (fails : Bool) (c : Console) → IsValid c → Accounts self (accounted c) (purge_if_free fails c)
unfolding purge_if_free
accounted-purge_if_free fails c v = elim (Bool-cases (try_lock fails c.queue_lock).0) [
  | inl e ↦ rw e (record { accounts = accounted-purge_locked _ v })
  | inr e ↦ rw e (record { accounts = refl })
]

accounted-open :
    (o : Others) (c : Console) → IsValid c → Accounts first_of (accounted c) (session_open o c)
unfolding session_open start_session
accounted-open o c v = elim (Bool-cases (try_lock o.lifecycle_fails c.lifecycle_lock).0) [
  | inr e ↦ rw e (record { accounts = refl })
  | inl e ↦ rw e (record { accounts = (accounted-purge_if_free o.queue_fails _ v).accounts })
]

accounted-close :
    (o : Others) (words : List ℕ) (generation : ℕ) (c : Console)
    → IsValid c
    → Accounts first_of (accounted c) (session_close o words generation c)
unfolding session_close finish_close
accounted-close o words generation c v = elim (Bool-cases (generation_valid generation)) [
  | inr e ↦ rw e (record { accounts = refl })
  | inl e ↦ elim (Bool-cases (close_word words generation c.session).0) [
    | inr d ↦ rw (e, d) (record { accounts = refl })
    | inl d ↦ elim (Bool-cases (try_lock o.lifecycle_fails c.lifecycle_lock).0) [
      | inr b ↦ rw (e, d, b) (record { accounts = refl })
      | inl b ↦ elim (Bool-cases (try_lock o.queue_fails c.queue_lock).0) [
        | inr a ↦ rw (e, d, b, a) (record { accounts = refl })
        | inl a ↦ rw (e, d, b, a) (record { accounts = accounted-purge_locked _ v })
      ]
    ]
  ]
]

accounted-capture_some :
    (o : Others) (text : List ℕ) (c : Console)
    → IsValid c
    → Accounts first_of ((accounted c + length text) % 2 ^ 32) (capture_some o text (length text) c)
unfolding capture_some
accounted-capture_some o text c v = elim (Bool-cases (is_open c.session)) [
  | inr e ↦ rw e (record {
    accounts = omega (arith, bytes-note_drop c.stats.dropped_disconnected (length text));
  })
  | inl e ↦ elim (Bool-cases (try_lock o.queue_fails c.queue_lock).0) [
    | inr d ↦
        rw (e, d)
          (record {
            accounts = omega (arith, bytes-note_drop c.stats.dropped_contention (length text));
          })
    | inl d ↦ elim (Bool-cases (o.session == c.session)) [
      | inr b ↦
          rw (e, d, b)
            (record {
              accounts = omega (arith, bytes-note_drop c.stats.dropped_stale (length text));
            })
      | inl b ↦ rw (e, d, b) (record { accounts = accounted-capture_locked text _ v })
    ]
  ]
]

accounted-capture :
    (o : Others) (text : List ℕ) (c : Console)
    → IsValid c
    → Accounts first_of
        ((accounted c + length text) % 2 ^ 32)
        (capture o (some text) (length text) c)
unfolding capture
accounted-capture o text c v = elim (Bool-cases (length text == 0)) [
  | inl e ↦ rw e (record { accounts = ground arith })
  | inr e ↦ rw e (accounted-capture_some o text c v)
]

-- The bytes that a call offers.
abbrev pub offered : Call → ℕ
offered (open_call o) = 0
offered (close_call o words g) = 0
offered (gate_call words) = 0
offered (capture_call o text) = length text
offered (peek_call o g) = 0
offered (commit_call o g n) = 0

abbrev pub offered_all : List Call → ℕ
offered_all [] = 0
offered_all (call ∷ calls) = offered call + offered_all calls

-- The console that a sequence of calls leaves.
abbrev pub after_run : Console → List Call → Console
after_run c [] = c
after_run c (call ∷ calls) = after_run (console_step call c).1 calls

accounted-console_step :
    (call : Call) (c : Console)
    → IsValid c
    → accounted (console_step call c).1 ≡ (accounted c + offered call) % 2 ^ 32
accounted-console_step (open_call o) c v = (accounted-open o c v).accounts ∙ omega arith
accounted-console_step (close_call o words g) c v =
    (accounted-close o words g c v).accounts ∙ omega arith
accounted-console_step (gate_call words) c v = omega arith
accounted-console_step (capture_call o text) c v = (accounted-capture o text c v).accounts
accounted-console_step (peek_call o g) c v = (accounted-peek o g c v).accounts ∙ omega arith
accounted-console_step (commit_call o g n) c v = (accounted-commit o g n c v).accounts ∙ omega arith

-- Over any sequence of calls from a console between two calls, the bytes that are counted as sent or
-- dropped, with those in the queue, grow by just the bytes that were offered to `uvdb_console_capture`
-- (in the 32 bits of a counter).
pub accounted-after_run :
    (calls : List Call) (c : Console)
    → IsReady c
    → accounted (after_run c calls) ≡ (accounted c + offered_all calls) % 2 ^ 32
accounted-after_run [] c r = omega arith
accounted-after_run (call ∷ calls) c r = omega (
  arith,
  accounted-after_run calls (console_step call c).1 (console_step_refines call c r).1,
  accounted-console_step call c r.valid,
)

-- ===== src/Tests/Gates.antt =====
-- The gate with a thread in the session and one that is leaving it, and the comparators of two ranges.
use vita_debugger.Prelude.{◌≢◌, ◌⊎◌, ℕ, ◌^◌, ◌<◌, ◌≤◌, ◌≡◌, ◌↔◌, refl, false, true, some, arith}
use vita_debugger.Gate.{
  is_idle, try_acquire, compare_exchange, token_is_valid, owner_of, closing_of, release_desired,
}
use vita_debugger.Gate.System.{
  inside, releasing, System, move, start, enter, load, Reachable, begin, after,
}
use vita_debugger.Gate.Exclusion.{is_idle-Reachable, in_session, exclusion, release_granted}
use vita_debugger.Codec.{ok, encode_linked_watch, encode_linked_exec}
use vita_debugger.Codec.Tables.{has_fields}
use vita_debugger.Codec.Watch.{
  matches, Watchable, Aligned, encode_linked_watch_lem, encode_linked_exec_lem,
}

abbrev entered : System
entered = record { word = (try_acquire 0 7).1; place = move start.place 7 inside }

entered-Reachable : Reachable entered
unfolding try_acquire compare_exchange token_is_valid owner_of closing_of
entered-Reachable = after start entered begin (enter 7 (omega arith) refl refl)

abbrev leaving : System
leaving = record entered { place = move entered.place 7 (releasing entered.word) }

leaving-Reachable : Reachable leaving
leaving-Reachable = after entered leaving entered-Reachable (load 7 refl)

abbrev seven : ℕ
seven = 7

exclusion_example : seven ≡ seven
exclusion_example = exclusion entered seven seven entered-Reachable refl refl

release_granted_example :
    (desired : ℕ) × (release_desired (try_acquire 0 7).1 7 ≡ some desired) × (owner_of desired ≡ 0)
release_granted_example = release_granted leaving 7 (try_acquire 0 7).1 leaving-Reachable refl

is_idle-Reachable_example : in_session (start.place 7) ≡ false
unfolding is_idle owner_of
is_idle-Reachable_example = is_idle-Reachable start 7 begin refl

abbrev shut_word : ℕ
shut_word = 2 ^ 31

encode_linked_watch_lem_example :
    (Watchable 0x81000002 2 3
      × ((encode_linked_watch 0x81000002 2 3).0 ≡ ok)
      × (has_fields 1 3 (encode_linked_watch 0x81000002 2 3).1.control ≡ true)
      × ((b : ℕ)
          → (matches (encode_linked_watch 0x81000002 2 3).1 b ≡ true)
            ↔ ((0x81000002 ≤ b) × (b < 0x81000004))))
    ⊎ (((encode_linked_watch 0x81000002 2 3).0 ≢ ok) × (Watchable 0x81000002 2 3 → ⊥))
encode_linked_watch_lem_example = encode_linked_watch_lem 0x81000002 2 3

encode_linked_exec_lem_example :
    (Aligned 0x81000002 2
      × ((encode_linked_exec 0x81000002 2).0 ≡ ok)
      × (has_fields 1 0 (encode_linked_exec 0x81000002 2).1.control ≡ true)
      × ((b : ℕ)
          → (matches (encode_linked_exec 0x81000002 2).1 b ≡ true)
            ↔ ((0x81000002 ≤ b) × (b < 0x81000004))))
    ⊎ (((encode_linked_exec 0x81000002 2).0 ≢ ok) × (Aligned 0x81000002 2 → ⊥))
encode_linked_exec_lem_example = encode_linked_exec_lem 0x81000002 2

-- ===== src/Tests/Frames.antt =====
-- A frame that is written and read: "OK", and one with bytes behind it.
use vita_debugger.Prelude.{
  ℕ, ◌+◌, ◌≡◌, refl, List, [], ◌∷◌, ◌++◌, length, if◌then◌else◌, false, arith,
}
use vita_debugger.Rsp.Hex.{hex_value}
use vita_debugger.Rsp.Frame.{complete, scan_frame, checksum, OutBuffer, send_packet}
use vita_debugger.Rsp.Frame.Marker.{IsClean}
use vita_debugger.Rsp.Frame.Complete.{
  whole, Footer, IsFrame, scan_frame-complete, scan_frame-IsFrame, scan_frame-send_packet,
}
use vita_debugger.Rsp.Frame.Lifetime.{
  lifetime_is_active, Call, beginning, releasing, run, nothing_done, run-balanced,
}
use vita_debugger.Rsp.Frame.Progress.{Verdict, starts, scan_frame-Verdict}

abbrev okay : List ℕ
okay = b'O' ∷ b'K' ∷ []

abbrev input : List ℕ
input = b'$' ∷ b'O' ∷ b'K' ∷ b'#' ∷ b'9' ∷ b'a' ∷ b'+' ∷ []

okay-IsClean : IsClean false okay
okay-IsClean = (λ e. omega arith, λ e. omega arith, (λ e. omega arith, λ e. omega arith, tt))

okay-Footer : Footer okay b'9' b'a'
unfolding hex_value checksum
okay-Footer = (9, 10, refl, refl, refl)

scan_frame-IsFrame_example : IsFrame input 16 (whole okay)
scan_frame-IsFrame_example =
    scan_frame-IsFrame input 16 (whole okay)
      (scan_frame-complete okay b'9' b'a' (b'+' ∷ []) 16 okay-IsClean (omega arith) okay-Footer)

abbrev idle_buffer : OutBuffer
idle_buffer = record { written = b'+' ∷ []; packet_start = 0 }

scan_frame-send_packet_example :
    (frame : List ℕ) × ((send_packet idle_buffer okay).written ≡ idle_buffer.written ++ frame)
    × ((rest : List ℕ) → scan_frame (frame ++ rest) 16 ≡ (complete, whole okay))
scan_frame-send_packet_example =
    scan_frame-send_packet idle_buffer okay 16 okay-IsClean (omega arith)

scan_frame-Verdict_example : Verdict (length input) (starts input) 16 (scan_frame input 16)
scan_frame-Verdict_example = scan_frame-Verdict input 16

abbrev calls : List Call
calls = beginning ∷ beginning ∷ releasing ∷ beginning ∷ []

run-balanced_example :
    (run nothing_done calls).begun
    ≡ (run nothing_done calls).released
      + (if lifetime_is_active (run nothing_done calls).lifetime then 1 else 0)
run-balanced_example = run-balanced calls

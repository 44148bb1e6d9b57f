-- ===== src/Rsp/Frame/Marker.antt =====
-- What the loop of `uvdb_rsp_scan_frame` finds: payloads that hold no bare '#' or '$'.
use vita_debugger.Prelude.{
  ℕ, ◌+◌, ◌-◌, ◌≤◌, ◌<◌, ◌≡◌, ◌≢◌, ap, ◌∙◌, Bool, true, false, List, [], ◌∷◌, ◌++◌, arith, ◌==◌,
  length,
}
use mathlib.Core.Path.{ap₂}
use native.Mathlib.Decide.{ℕ_discrete}
use vita_debugger.Rsp.Frame.{malformed, at_hash, scan_marker}

-- A payload as it may stand between '$' and '#', from a point that is or is not behind a '}'.
abbrev pub IsClean : Bool → List ℕ → Type 0
IsClean true [] = ⊥
IsClean false [] = Unit
IsClean true (c ∷ cs) = IsClean false cs
IsClean false (c ∷ cs) = (c ≢ b'#') × (c ≢ b'$') × IsClean (c == b'}') cs

-- One round of the loop that goes on.
scan_marker_escaped :
    (max marker c : ℕ) (cs : List ℕ)
    → marker - 1 < max
    → scan_marker max true marker (c ∷ cs) ≡ scan_marker max false (marker + 1) cs
unfolding scan_marker
scan_marker_escaped max marker c cs h = ground arith

scan_marker_plain :
    (max marker c : ℕ) (cs : List ℕ)
    → marker - 1 < max
    → c ≢ b'#'
    → c ≢ b'$'
    → scan_marker max false marker (c ∷ cs) ≡ scan_marker max (c == b'}') (marker + 1) cs
unfolding scan_marker
scan_marker_plain max marker c cs h p q = ground arith

pub scan_marker-IsClean :
    (max : ℕ) (escaped : Bool) (marker : ℕ) (payload rest : List ℕ)
    → 1 ≤ marker
    → marker - 1 + length payload ≤ max
    → IsClean escaped payload
    → scan_marker max escaped marker (payload ++ b'#' ∷ rest)
      ≡ at_hash (marker + length payload) rest
unfolding scan_marker
scan_marker-IsClean max true marker [] rest m h clean = absurd clean
scan_marker-IsClean max false marker [] rest m h clean = ground arith
scan_marker-IsClean max true marker (c ∷ cs) rest m h clean =
    scan_marker_escaped max marker c (cs ++ b'#' ∷ rest) (omega arith)
    ∙ scan_marker-IsClean max false (marker + 1) cs rest (omega arith) (omega arith) clean
    ∙ ap (λ (k : ℕ). at_hash k rest) (omega arith)
scan_marker-IsClean max false marker (c ∷ cs) rest m h clean =
    scan_marker_plain max marker c (cs ++ b'#' ∷ rest) (omega arith) clean.0 clean.1
    ∙ scan_marker-IsClean max (c == b'}') (marker + 1) cs rest (omega arith) (omega arith) clean.2
    ∙ ap (λ (k : ℕ). at_hash k rest) (omega arith)

-- Where the loop stands when it has found a '#'.
pub record Found (escaped : Bool) (marker : ℕ) (bytes : List ℕ) (m : ℕ) (rest : List ℕ)
    : Type 0 where
  pub payload : List ℕ
  pub split : bytes ≡ payload ++ b'#' ∷ rest
  pub clean : IsClean escaped payload
  pub place : m ≡ marker + length payload

Found-cons :
    {escaped : Bool} (next : Bool) {marker : ℕ} (c : ℕ) {cs : List ℕ} {m : ℕ} {rest : List ℕ}
    → (f : Found next (marker + 1) cs m rest) → IsClean escaped (c ∷ f.payload)
    → Found escaped marker (c ∷ cs) m rest
Found-cons next c f ok = record {
  payload = c ∷ f.payload;
  split = ap (◌∷◌ c) f.split;
  clean = ok;
  place = omega (arith, f.place);
}

-- One round of the loop that is going to find a '#'.
escaped_round :
    (max marker c : ℕ) (cs : List ℕ) {m : ℕ} {rest : List ℕ}
    → scan_marker max true marker (c ∷ cs) ≡ at_hash m rest
    → scan_marker max false (marker + 1) cs ≡ at_hash m rest
unfolding scan_marker
escaped_round max marker c cs h = ground arith

plain_round :
    (max marker c : ℕ) (cs : List ℕ) {m : ℕ} {rest : List ℕ}
    → scan_marker max false marker (c ∷ cs) ≡ at_hash m rest
    → c ≢ b'#'
    → (c ≢ b'$') × (scan_marker max (c == b'}') (marker + 1) cs ≡ at_hash m rest)
unfolding scan_marker
plain_round max marker c cs h p = ground arith

hash_round :
    (max marker c : ℕ) (cs : List ℕ) {m : ℕ} {rest : List ℕ}
    → scan_marker max false marker (c ∷ cs) ≡ at_hash m rest
    → c ≡ b'#'
    → (m ≡ marker) × (cs ≡ rest)
unfolding scan_marker
hash_round max marker c cs h p = ground arith

-- The loop stops at a '#' only behind a clean payload.
pub scan_marker-Found :
    (max : ℕ) (escaped : Bool) (marker : ℕ) (bytes : List ℕ) {m : ℕ} {rest : List ℕ}
    → scan_marker max escaped marker bytes ≡ at_hash m rest
    → Found escaped marker bytes m rest
unfolding scan_marker
scan_marker-Found max true marker [] h = ground arith
scan_marker-Found max false marker [] h = ground arith
scan_marker-Found max true marker (c ∷ cs) h =
    let f = scan_marker-Found max false (marker + 1) cs (escaped_round max marker c cs h) in
    Found-cons false c f f.clean
scan_marker-Found max false marker (c ∷ cs) h = elim (ℕ_discrete c b'#') [
  | yes e ↦ record {
    payload = [];
    split = ap₂ ◌∷◌ e (hash_round max marker c cs h e).1;
    clean = tt;
    place = omega (arith, hash_round max marker c cs h e);
  }
  | no ne ↦
      let (cash, more) = plain_round max marker c cs h ne in
      let f = scan_marker-Found max (c == b'}') (marker + 1) cs more in
      Found-cons (c == b'}') c f (ne, cash, f.clean)
]

-- A byte that is malformed, or the end of the input, lies within what was read and the bound.
pub scan_marker-malformed :
    (max : ℕ) (escaped : Bool) (marker : ℕ) (bytes : List ℕ) (k : ℕ)
    → 1 ≤ marker
    → scan_marker max escaped marker bytes ≡ malformed k
    → (marker ≤ k) × (k ≤ marker + length bytes)
unfolding scan_marker
scan_marker-malformed max true marker [] k m h = ground arith
scan_marker-malformed max false marker [] k m h = ground arith
scan_marker-malformed max true marker (c ∷ cs) k m h =
    ground (arith, scan_marker-malformed max false (marker + 1) cs k (omega arith))
scan_marker-malformed max false marker (c ∷ cs) k m h = ground (
  arith,
  scan_marker-malformed max true (marker + 1) cs k (omega arith),
  scan_marker-malformed max false (marker + 1) cs k (omega arith),
)

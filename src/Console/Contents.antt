-- ===== src/Console/Contents.antt =====
-- What the purges of src/uvdb_console.c leave in the queue, and that their loops end.
use vita_debugger.Prelude.{
  ℕ, zero, suc, ◌-◌, ◌≤◌, ◌≡◌, ◌≢◌, refl, sym, ap, ◌∙◌, inl, inr, true, false, ◌||◌, List, [], ◌∷◌,
  ◌==◌, if◌then◌else◌, Bool-cases, ==_iff, arith,
}
use vita_debugger.Console.{
  Console, head_record, drop_head_as_stale, purge_from, purge_locked, purge_other_from,
  purge_other_generations_locked, publish_depth,
}
use vita_debugger.Console.Valid.{Piece, piece, held, contents, IsValid, total, advance}

-- The pieces from the first of a generation on.
abbrev pub fresh : ℕ → List Piece → List Piece
fresh generation [] = []
fresh generation (p ∷ ps) = if p.generation == generation then p ∷ ps else fresh generation ps

-- The variables that no purge changes.
abbrev pub Steady : Console → Console → Type 0
Steady c c' =
    (c'.queue ≡ c.queue)
    × (c'.next_sequence ≡ c.next_sequence)
    × (c'.session ≡ c.session)
    × (c'.ever_opened ≡ c.ever_opened)
    × (c'.queue_lock ≡ c.queue_lock)
    × (c'.lifecycle_lock ≡ c.lifecycle_lock)

contents_of_zero : (c : Console) → c.count ≡ 0 → contents c ≡ []
contents_of_zero c e = ap (held c.queue c.head) e

drop_head_as_stale-IsValid :
    (c : Console)
    → IsValid c
    → c.count ≢ 0
    → (contents c ≡ piece (head_record c) ∷ contents (drop_head_as_stale c))
      × IsValid (drop_head_as_stale c)
unfolding drop_head_as_stale head_record
drop_head_as_stale-IsValid c v p = advance v p

pub count-drop_head_as_stale : (c : Console) → (drop_head_as_stale c).count ≡ c.count - 1
unfolding drop_head_as_stale
count-drop_head_as_stale c = refl

-- One pass of the loop that drops other generations, by its test.
purge_other_stop :
    (fuel generation : ℕ) (c : Console)
    → (c.count == 0 || (head_record c).generation == generation) ≡ true
    → purge_other_from fuel generation c ≡ c
unfolding purge_other_from
purge_other_stop zero generation c e = refl
purge_other_stop (suc fuel) generation c e = rw e refl

purge_other_pass :
    (fuel generation : ℕ) (c : Console)
    → (c.count == 0 || (head_record c).generation == generation) ≡ false
    → purge_other_from (suc fuel) generation c
      ≡ purge_other_from fuel generation (drop_head_as_stale c)
unfolding purge_other_from
purge_other_pass fuel generation c e = rw e refl

fresh_stop :
    (generation : ℕ) (c : Console)
    → IsValid c
    → (c.count == 0 || (head_record c).generation == generation) ≡ true
    → fresh generation (contents c) ≡ contents c
fresh_stop generation c v e = elim (Bool-cases (c.count == 0)) [
  | inl z ↦ rw (contents_of_zero c ((==_iff _ _).0 z)) refl
  | inr z ↦ rw ((drop_head_as_stale-IsValid c v (λ q. ground arith)).0) (ground arith)
]

purge_other-IsValid :
    (fuel generation : ℕ) (c : Console)
    → c.count ≤ fuel
    → IsValid c
    → (contents (purge_other_from fuel generation c) ≡ fresh generation (contents c))
      × IsValid (purge_other_from fuel generation c)
purge_other-IsValid zero generation c h v =
    rw (purge_other_stop zero generation c stop) (sym (fresh_stop generation c v stop), v)
  where
    stop : (c.count == 0 || (head_record c).generation == generation) ≡ true
    stop = ground arith
purge_other-IsValid (suc fuel) generation c h v =
    elim (Bool-cases (c.count == 0 || (head_record c).generation == generation)) [
      | inl e ↦
          rw (purge_other_stop (suc fuel) generation c e) (sym (fresh_stop generation c v e), v)
      | inr e ↦
          let (split, v') = drop_head_as_stale-IsValid c v (λ z. ground arith) in
          let (rest, v'') =
            purge_other-IsValid fuel generation (drop_head_as_stale c)
              (omega (arith, h, count-drop_head_as_stale c)) v' in
          rw (purge_other_pass fuel generation c e) (rw (rest, split) (ground arith), v'')
    ]

purge-IsValid :
    (fuel : ℕ) (c : Console)
    → c.count ≤ fuel
    → IsValid c
    → IsValid (purge_from fuel c) × ((purge_from fuel c).count ≡ 0)
unfolding purge_from
purge-IsValid zero c h v = (v, omega (arith, h))
purge-IsValid (suc fuel) c h v = elim (Bool-cases (c.count == 0)) [
  | inl e ↦ rw e (v, (==_iff _ _).0 e)
  | inr e ↦ rw e (
      purge-IsValid fuel (drop_head_as_stale c) (omega (arith, h, count-drop_head_as_stale c))
        (drop_head_as_stale-IsValid c v (λ z. ground arith)).1)
]

-- What a drop of the head keeps, the loops keep.
module _ {ℓ} (P : Console → Type ℓ)
    (step : (c : Console) → IsValid c → c.count ≢ 0 → P c → P (drop_head_as_stale c)) where
  pub purge_from-keeps : (fuel : ℕ) (c : Console) → IsValid c → P c → P (purge_from fuel c)
  unfolding purge_from
  purge_from-keeps zero c v p = p
  purge_from-keeps (suc fuel) c v p = elim (Bool-cases (c.count == 0)) [
    | inl e ↦ rw e p
    | inr e ↦ rw e (
        purge_from-keeps fuel (drop_head_as_stale c)
          (drop_head_as_stale-IsValid c v (λ z. ground arith)).1 (step c v (λ z. ground arith) p))
  ]

  pub purge_other_from-keeps :
      (fuel generation : ℕ) (c : Console) → IsValid c → P c → P (purge_other_from fuel generation c)
  unfolding purge_other_from
  purge_other_from-keeps zero generation c v p = p
  purge_other_from-keeps (suc fuel) generation c v p =
      elim (Bool-cases (c.count == 0 || (head_record c).generation == generation)) [
        | inl e ↦ rw e p
        | inr e ↦ rw e (
            purge_other_from-keeps fuel generation (drop_head_as_stale c)
              (drop_head_as_stale-IsValid c v (λ z. ground arith)).1
              (step c v (λ z. ground arith) p))
      ]

Steady-step :
    (a c : Console) → IsValid c → c.count ≢ 0 → Steady a c → Steady a (drop_head_as_stale c)
unfolding drop_head_as_stale
Steady-step a c v p steady = steady

-- `purge_locked` empties the ring.
pub purge_locked-IsValid :
    (c : Console) → IsValid c → (contents (purge_locked c) ≡ []) × IsValid (purge_locked c)
unfolding purge_locked publish_depth
purge_locked-IsValid c v =
    let (v', z) = purge-IsValid c.count c (omega arith) v in
    (
      ap (held (purge_from c.count c).queue 0) z,
      record {
        storage = v'.storage;
        records = v'.records;
        head_in = omega arith;
        count_in = v'.count_in;
        tail_at = omega (arith, z);
        bytes_at =
            v'.bytes_at
            ∙ ap (λ n. total (held (purge_from c.count c).queue (purge_from c.count c).head n)) z
            ∙ sym (ap (λ n. total (held (purge_from c.count c).queue 0 n)) z);
      },
    )

pub purge_locked-Steady : (c : Console) → IsValid c → Steady c (purge_locked c)
unfolding purge_locked publish_depth
purge_locked-Steady c v =
    purge_from-keeps (Steady c) (Steady-step c) c.count c v (refl, refl, refl, refl, refl, refl)

-- `purge_other_generations_locked` drops what is older than the generation.
pub purge_other_generations_locked-IsValid :
    (generation : ℕ) (c : Console)
    → IsValid c
    → (contents (purge_other_generations_locked generation c) ≡ fresh generation (contents c))
      × IsValid (purge_other_generations_locked generation c)
unfolding purge_other_generations_locked publish_depth
purge_other_generations_locked-IsValid generation c v =
    purge_other-IsValid c.count generation c (omega arith) v

pub purge_other_generations_locked-Steady :
    (generation : ℕ) (c : Console)
    → IsValid c
    → Steady c (purge_other_generations_locked generation c)
unfolding purge_other_generations_locked publish_depth
purge_other_generations_locked-Steady generation c v =
    purge_other_from-keeps (Steady c) (Steady-step c) c.count generation c v
      (refl, refl, refl, refl, refl, refl)

-- ===== src/Memory/Pmm/Blocks.antt =====
-- What `b_malloc` of kernel/memory/pmm.c returns, where, and what it writes.
use mathlib.Core.Path.{subst}
use native.Mathlib.Decide.{dec_lt, dec_le, ℕ_discrete}
use native.Mathlib.Nat.{pow-suc}
use maken_os.Base.{
  ℕ, zero, suc, ◌+◌, ◌-◌, ◌*◌, ◌/◌, ◌%◌, ◌^◌, ◌≤◌, ◌<◌, ◌≡◌, refl, ◌∙◌, sym, eq_of_some, inl, inr,
  ◌&&◌, Option, none, some, arith, leb, ◌==◌, Bool-cases, ◌>>=◌, Memory, SameOutside, read_le,
  read_le_ext, write_le, write_le-SameOutside, write_le-IsBytes, IsBytes, read_le-write_le,
}
use maken_os.Klib.Mem.Laws.{memset_lem}
use maken_os.Memory.Pmm.{MemmapEntry, block_size, size_suc, take_block, b_malloc, k_malloc}

-- `p` is a block of `size` zeroed words, taken from the free block whose header precedes it and
-- which lies in the `length` words from `base` on; nothing else has changed.
pub record Allocated (base length size : ℕ) (m : Memory) (p : ℕ) (m' : Memory) : Type 0 where
  pub after : base + 8 ≤ p
  pub before : p + 8 * size ≤ base + 8 * length
  pub was_free : read_le 8 m (p - 8) ≡ 0
  pub header : read_le 8 m' (p - 8) ≡ size
  pub zeroed : (b : ℕ) → p ≤ b → b < p + 8 * size → m' b ≡ 0
  pub same : SameOutside (p - 8) (8 + 8 * size) m m'
  pub small : IsBytes m → IsBytes m'

-- The result of a call: a block, or NULL and the memory as it was.
abbrev pub Served : ℕ → ℕ → ℕ → Memory → Option ℕ × Memory → Type 0
Served base length size m (none, m') = m' ≡ m
Served base length size m (some p, m') = Allocated base length size m p m'

take_block-Served :
    (base length size : ℕ) (m : Memory)
    → size + 1 ≤ length
    → length < 2 ^ 60
    → read_le 8 m base ≡ 0
    → Served base length size m (take_block base size m)
unfolding take_block
take_block-Served base length size m fits small free = record {
  after = omega arith;
  before = omega arith;
  was_free = rw back free;
  header = rw back (
      read_le_ext 8 m1 (take_block base size m).1 base (λ b p q. below b (omega arith))
      ∙ read_le-write_le 8 m base size (omega arith));
  zeroed = λ b p q. ground (arith, memset_lem (base + 8) 0 (8 * size % 2 ^ 64) m1 b);
  same = λ b out. ground (
    arith,
    memset_lem (base + 8) 0 (8 * size % 2 ^ 64) m1 b,
    write_le-SameOutside 8 m base size b,
  );
  small = λ h b.
      ground
        (arith, memset_lem (base + 8) 0 (8 * size % 2 ^ 64) m1 b, write_le-IsBytes 8 base size h b);
}
  where
    back : base + 8 - 8 ≡ base
    back = omega arith

    m1 : Memory
    m1 = write_le 8 m base size

    below : (b : ℕ) → b < base + 8 → (take_block base size m).1 b ≡ m1 b
    below b lt = ground (arith, memset_lem (base + 8) 0 (8 * size % 2 ^ 64) m1 b)

pub take_block-Allocated :
    (base length size : ℕ) (m : Memory)
    → size + 1 ≤ length
    → length < 2 ^ 60
    → read_le 8 m base ≡ 0
    → Allocated base length size m (base + 8) (take_block base size m).1
unfolding take_block
take_block-Allocated base length size m fits small free =
    take_block-Served base length size m fits small free

Allocated-left :
    {base half length size p : ℕ} {m m' : Memory}
    → half ≤ length
    → Allocated base half size m p m'
    → Allocated base length size m p m'
Allocated-left h a = record {
  after = a.after;
  before = omega (arith, a.before);
  was_free = a.was_free;
  header = a.header;
  zeroed = a.zeroed;
  same = a.same;
  small = a.small;
}

Allocated-right :
    {base half length size p : ℕ} {m m' : Memory}
    → half + half ≤ length
    → Allocated (base + 8 * half) half size m p m'
    → Allocated base length size m p m'
Allocated-right h a = record {
  after = omega (arith, a.after);
  before = omega (arith, a.before);
  was_free = a.was_free;
  header = a.header;
  zeroed = a.zeroed;
  same = a.same;
  small = a.small;
}

-- A call ended, with a result as `Served` has it.
abbrev pub Ends : ℕ → ℕ → ℕ → Memory → Option (Option ℕ × Memory) → Type 0
Ends base length size m call =
    (r : Option ℕ × Memory) × (call ≡ some r) × Served base length size m r

-- The branch that tries the left half, then the right one.
search_halves :
    (fuel base half length size : ℕ) (m : Memory)
    → half + half ≤ length
    → Ends base half size m (b_malloc fuel base half size m)
    → Ends (base + 8 * half) half size m (b_malloc fuel (base + 8 * half) half size m)
    → Ends base length size m (do
      (b, m') ← b_malloc fuel base half size m
      elim b [ none ↦ b_malloc fuel (base + 8 * half) half size m' | some p ↦ some (some p, m') ])
search_halves fuel base half length size m fits ((some p, m'), runs, a) right =
    ((some p, m'), rw runs, Allocated-left (omega arith) a)
search_halves fuel base half length size m fits ((none, m'), runs, unchanged)
      ((some p, m''), runs', a) =
    ((some p, m''), rw (runs, unchanged) runs', Allocated-right fits a)
search_halves fuel base half length size m fits ((none, m'), runs, unchanged)
      ((none, m''), runs', same) =
    ((none, m''), rw (runs, unchanged) runs', same)

abbrev searches : ℕ → ℕ → ℕ → ℕ → Memory → Option (Option ℕ × Memory)
searches fuel base half size m = do
  (b, m') ← b_malloc fuel base half size m
  elim b [ none ↦ b_malloc fuel (base + 8 * half) half size m' | some p ↦ some (some p, m') ]

module _ (fuel base length size : ℕ) (m : Memory) (fits : size + 1 ≤ length)
    (small : length < 2 ^ 60) where
  Ends-leaf : length ≤ block_size → Ends base length size m (b_malloc (suc fuel) base length size m)
  unfolding b_malloc
  Ends-leaf leaf = elim (ℕ_discrete (read_le 8 m base) 0) [
    | yes free ↦
        (take_block base size m, ground arith, take_block-Served base length size m fits small free)
    | no used ↦ ((none, m), ground arith, refl)
  ]

  -- A test that holds hands over its block, and the search is made only where it is needed.
  Ends-inner :
      block_size < length
      → (size < length / 2 → Ends base length size m (searches fuel base (length / 2) size m))
      → Ends base length size m (b_malloc (suc fuel) base length size m)
  unfolding b_malloc
  Ends-inner inner search =
      elim (Bool-cases (leb (length / 2) (size_suc size) && read_le 8 m base == 0)) [
        | inl direct ↦ (
          take_block base size m,
          ground arith,
          take_block-Served base length size m fits small (ground arith),
        )
        | inr indirect ↦ elim (dec_lt size (length / 2)) [
          | yes fits_half ↦
              let found = search fits_half in (found.0, ground (arith, found.1), found.2)
          | no too_big ↦ ((none, m), ground arith, refl)
        ]
      ]

-- `b_malloc` ends, given fuel for the halvings down to a block, and returns a fresh zeroed block
-- inside the words that it searches, or NULL with nothing changed.
b_malloc-Ends :
    (halvings base length size : ℕ) (m : Memory)
    → size + 1 ≤ length
    → length < 2 ^ 60
    → length ≤ block_size * 2 ^ halvings
    → Ends base length size m (b_malloc (suc halvings) base length size m)
unfolding b_malloc
b_malloc-Ends zero base length size m fits small enough =
    Ends-leaf 0 base length size m fits small (omega arith)
b_malloc-Ends (suc k) base length size m fits small enough = elim (dec_le length block_size) [
  | yes leaf ↦ Ends-leaf (suc k) base length size m fits small leaf
  | no inner ↦ elim (dec_lt size (length / 2)) [
    | yes fits_half ↦ Ends-inner (suc k) base length size m fits small (omega arith) (λ _.
        search_halves (suc k) base (length / 2) length size m (omega arith)
          (b_malloc-Ends k base (length / 2) size m (omega arith) (omega arith)
            (omega (arith, pow-suc 2 k)))
          (b_malloc-Ends k (base + 8 * (length / 2)) (length / 2) size m (omega arith) (omega arith)
            (omega (arith, pow-suc 2 k))))
    | no too_big ↦
        Ends-inner (suc k) base length size m fits small (omega arith)
          (λ fits_half. absurd (too_big fits_half))
  ]
]

-- For a size below the length of the entry, a length below 2^60 and fuel for one halving more than
-- lead down to a block, `k_malloc` ends: it returns a block of `size` zeroed words behind a header
-- that was free, in the words that the length counts (the entry counts bytes), and changes nothing
-- else; or it returns NULL and changes nothing.
pub k_malloc-Ends :
    (halvings size : ℕ) (memmap : MemmapEntry) (m : Memory)
    → size + 1 ≤ memmap.length
    → memmap.length < 2 ^ 60
    → memmap.length ≤ block_size * 2 ^ halvings
    → Ends memmap.base memmap.length size m (k_malloc (suc halvings) memmap size m)
unfolding k_malloc
k_malloc-Ends halvings size memmap m fits small enough =
    b_malloc-Ends halvings memmap.base memmap.length size m fits small enough

-- The same of a call whose result is known.
pub k_malloc-Allocated :
    (halvings size q : ℕ) (memmap : MemmapEntry) (m m1 : Memory)
    → size + 1 ≤ memmap.length
    → memmap.length < 2 ^ 60
    → memmap.length ≤ block_size * 2 ^ halvings
    → k_malloc (suc halvings) memmap size m ≡ some (some q, m1)
    → Allocated memmap.base memmap.length size m q m1
k_malloc-Allocated halvings size q memmap m m1 fits small enough runs =
    let (r, runs', outcome) = k_malloc-Ends halvings size memmap m fits small enough in
    subst (Served memmap.base memmap.length size m) (eq_of_some (sym runs' ∙ runs)) outcome

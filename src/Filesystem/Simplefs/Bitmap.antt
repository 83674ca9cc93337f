-- ===== src/Filesystem/Simplefs/Bitmap.antt =====
-- The inode bitmap of kernel/filesystem/simplefs.c.
use mathlib.Core.Path.{subst}
use native.Mathlib.Nat.{mod-eq_of_lt, mod-lt}
use maken_os.Base.{
  ℕ, zero, suc, ◌+◌, ◌%◌, ◌^◌, ◌<◌, ◌≡◌, ◌≢◌, refl, ◌∙◌, sym, ap, arith, Option, none, some, Bool,
  inl, inr, Bool-cases, eq_of_some, ◌==◌, bit_and, bit_or, ◌>>>◌, bit, shr-bit_and_one, bit_or-lt,
  two-pow-lt, bit-bit_or-pow_self, bit-bit_or-pow_ne,
}
use maken_os.Base.First.{First, nowhere, here, later}
use maken_os.Filesystem.Simplefs.{InodeTable, fopen_from, fopen}

-- Bit `i` is clear: the inode is free.
abbrev pub IsFree : ℕ → ℕ → Type 0
IsFree bitmap i = bit bitmap i ≡ 0

-- What a call leaves: the table as it was, or the bit of the inode set in it.
abbrev pub Opened : InodeTable → Option ℕ → InodeTable → Type 0
Opened table none table' = table' ≡ table
Opened table (some i) table' =
    (i < 16)
    × (table'.inode_bitmap < 2 ^ 16)
    × (bit table'.inode_bitmap i ≡ 1)
    × ((j : ℕ) → i ≢ j → bit table'.inode_bitmap j ≡ bit table.inode_bitmap j)
    × (table' ≡ record table { inode_bitmap = table'.inode_bitmap })

fopen_from-First :
    (left i : ℕ) (table : InodeTable)
    → i + left ≡ 16
    → table.inode_bitmap < 2 ^ 16
    → First (IsFree table.inode_bitmap) left i (fopen_from left i table).0
      × Opened table (fopen_from left i table).0 (fopen_from left i table).1
unfolding fopen_from
fopen_from-First zero i table e small = (nowhere, refl)
fopen_from-First (suc left) i table e small = elim (Bool-cases (test i)) [
  | inl clear ↦
      rw clear (here (ground (arith, shr-bit_and_one table.inode_bitmap i, clear)), opened)
  | inr taken ↦
      let rest = fopen_from-First left (i + 1) table (omega arith) small in
      rw taken
        (later (λ free. ground (arith, shr-bit_and_one table.inode_bitmap i, taken)) rest.0, rest.1)
]
  where
    test : ℕ → Bool
    test k = bit_and (table.inode_bitmap >>> k) 1 == 0

    fits : bit_or table.inode_bitmap (2 ^ i) % 2 ^ 16 ≡ bit_or table.inode_bitmap (2 ^ i)
    fits =
        mod-eq_of_lt (bit_or-lt 16 table.inode_bitmap (2 ^ i) small (two-pow-lt i 16 (omega arith)))

    opened :
        Opened table
          (some i)
          (record table { inode_bitmap = bit_or table.inode_bitmap (2 ^ i) % 2 ^ 16 })
    opened = (
      omega arith,
      mod-lt (bit_or table.inode_bitmap (2 ^ i)) (omega arith),
      ap (λ (t : ℕ). bit t i) fits ∙ bit-bit_or-pow_self table.inode_bitmap i,
      λ j ne. ap (λ (t : ℕ). bit t j) fits ∙ bit-bit_or-pow_ne table.inode_bitmap i j ne,
      refl,
    )

-- On a 16-bit bitmap, `fopen` takes the lowest free inode of the sixteen and sets its bit and no
-- other; when none is free it returns NULL and changes nothing.
pub fopen-First :
    (table : InodeTable)
    → table.inode_bitmap < 2 ^ 16
    → let (r, table') = fopen table in
      First (IsFree table.inode_bitmap) 16 0 r × Opened table r table'
unfolding fopen
fopen-First table small = fopen_from-First 16 0 table (omega arith) small

pub First-Is :
    {Is : ℕ → Type 0} {left i k : ℕ} {r : Option ℕ} → First Is left i r → r ≡ some k → Is k
First-Is nowhere e = cc
First-Is {Is} (here is) e = subst Is (eq_of_some e) is
First-Is (later is_not rest) e = First-Is rest e

pub Opened-bit :
    (table : InodeTable) (i : ℕ) (r : Option ℕ) (table' : InodeTable)
    → Opened table r table'
    → r ≡ some i
    → (table'.inode_bitmap < 2 ^ 16) × (bit table'.inode_bitmap i ≡ 1)
Opened-bit table i none table' o e = cc
Opened-bit table i (some k) table' o e =
    (o.1, ap (λ (t : ℕ). bit table'.inode_bitmap t) (sym (eq_of_some e)) ∙ o.2)

-- Two calls of `fopen` in a row that both return an inode, on a 16-bit bitmap, return different
-- ones.
fopen-fopen_ne :
    (table : InodeTable) (i j : ℕ)
    → table.inode_bitmap < 2 ^ 16
    → (fopen table).0 ≡ some i
    → (fopen (fopen table).1).0 ≡ some j
    → i ≢ j
fopen-fopen_ne table i j small first second same =
    let set =
      Opened-bit table i (fopen table).0 (fopen table).1 (fopen-First table small).1 first in
    let clear = First-Is (fopen-First (fopen table).1 set.0).0 second in
    omega (arith, set.1, clear, ap (bit (fopen table).1.inode_bitmap) same)

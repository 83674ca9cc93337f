-- ===== src/Klib/Mem/Laws.antt =====
-- What the memory routines of kernel/lib/string.c leave in memory.
use native.Mathlib.Nat.{add-zero}
use maken_os.Base.{ℕ, zero, suc, ◌+◌, ◌-◌, ◌%◌, ◌≤◌, ◌<◌, ◌≡◌, refl, ◌∙◌, ◌⊎◌, ◌&&◌, ◌↔◌, arith}
use maken_os.Base.{leb, ltb, if◌then◌else◌, Memory, store, IsBytes, pos, Bool-cases, inl, inr}
use maken_os.Klib.Mem.{copy_up, copy_down, fill, memcpy, memset, memmove, compare_from, memcmp}

-- The `n` bytes from `dest` on are those that stood from `src` on, and no other byte has changed.
abbrev pub Copied : ℕ → ℕ → ℕ → Memory → Memory → Type 0
Copied dest src n m m' =
    (b : ℕ) → m' b ≡ (if leb dest b && ltb b (dest + n) then m (src + (b - dest)) else m b)

copy_up_lem :
    (left i n dest src : ℕ) (m : Memory)
    → IsBytes m
    → i + left ≡ n
    → (dest ≤ src) ⊎ (src + n ≤ dest)
    → (b : ℕ)
    → copy_up left i dest src m b
      ≡ (if leb (dest + i) b && ltb b (dest + n) then m (src + (b - dest)) else m b)
unfolding copy_up
copy_up_lem zero i n dest src m h e apart b = ground arith
copy_up_lem (suc left) i n dest src m h e apart b = ground (
  arith,
  copy_up_lem left (i + 1) n dest src (store m (dest + i) (m (src + i))) (λ a. ground (arith, h a))
      (omega arith) apart b,
  h (src + i),
)

pub copy_up_all :
    (n dest src : ℕ) (m : Memory)
    → IsBytes m
    → (dest ≤ src) ⊎ (src + n ≤ dest)
    → Copied dest src n m (copy_up n 0 dest src m)
copy_up_all n dest src m h apart b =
    copy_up_lem n 0 n dest src m h (omega arith) apart b ∙ ground (arith, add-zero dest)

copy_down_lem :
    (i dest src : ℕ) (m : Memory)
    → IsBytes m
    → (src ≤ dest) ⊎ (dest + i ≤ src)
    → Copied dest src i m (copy_down i dest src m)
unfolding copy_down
copy_down_lem zero dest src m h apart b = ground arith
copy_down_lem (suc i) dest src m h apart b = ground (
  arith,
  copy_down_lem i dest src (store m (dest + i) (m (src + i))) (λ a. ground (arith, h a))
      (omega arith) b,
  h (src + i),
)

fill_lem :
    (left i n s c : ℕ) (m : Memory)
    → i + left ≡ n
    → (b : ℕ) → fill left i s c m b ≡ (if leb (s + i) b && ltb b (s + n) then c % 256 else m b)
unfolding fill
fill_lem zero i n s c m e b = ground arith
fill_lem (suc left) i n s c m e b =
    ground (arith, fill_lem left (i + 1) n s c (store m (s + i) c) (omega arith) b)

-- `memcpy` copies `n` bytes and changes nothing else, where the destination does not start above
-- the source inside it.
pub memcpy-Copied :
    (dest src n : ℕ) (m : Memory)
    → IsBytes m
    → (dest ≤ src) ⊎ (src + n ≤ dest)
    → Copied dest src n m (memcpy dest src n m)
unfolding memcpy
memcpy-Copied dest src n m h apart = copy_up_all n dest src m h apart

-- `memmove` copies `n` bytes and changes nothing else, however the two ranges overlap.
pub memmove-Copied :
    (dest src n : ℕ) (m : Memory) → IsBytes m → Copied dest src n m (memmove dest src n m)
unfolding memmove
memmove-Copied dest src n m h b = elim (Bool-cases (ltb dest src)) [
  | inl below ↦ rw below (copy_up_all n dest src m h (inl (ground arith)) b)
  | inr not_below ↦
      rw not_below (ground (arith, copy_down_lem n dest src m h (inl (ground arith)) b))
]

-- `memset` stores the low byte of `c` in the `n` bytes from `s` on, and changes nothing else.
pub memset_lem :
    (s c n : ℕ) (m : Memory) (b : ℕ)
    → memset s c n m b ≡ (if leb s b && ltb b (s + n) then c % 256 else m b)
unfolding memset
memset_lem s c n m b = fill_lem n 0 n s c m (omega arith) b ∙ ground (arith, add-zero s)

-- The two ranges hold the same bytes.
abbrev pub SameBytes : ℕ → ℕ → ℕ → ℕ → Memory → Type 0
SameBytes i n s1 s2 m = (j : ℕ) → i ≤ j → j < n → m (s1 + j) ≡ m (s2 + j)

compare_from-suc :
    (left i s1 s2 : ℕ) (m : Memory)
    → compare_from (suc left) i s1 s2 m ≡ pos 0
    → (m (s1 + i) ≡ m (s2 + i)) × (compare_from left (i + 1) s1 s2 m ≡ pos 0)
unfolding compare_from
compare_from-suc left i s1 s2 m e = ground arith

compare_from_lem :
    (left i n s1 s2 : ℕ) (m : Memory)
    → i + left ≡ n
    → (compare_from left i s1 s2 m ≡ pos 0) ↔ SameBytes i n s1 s2 m
unfolding compare_from
compare_from_lem zero i n s1 s2 m e = (λ _ j p q. absurd (omega arith), λ _. refl)
compare_from_lem (suc left) i n s1 s2 m e = (
  λ zero_result j p q.
      let (here, later) = compare_from-suc left i s1 s2 m zero_result in
      let after = (compare_from_lem left (i + 1) n s1 s2 m (omega arith)).0 later in
      ground (arith, here, after j),
  λ same. ground (
    arith,
    same i,
    (compare_from_lem left (i + 1) n s1 s2 m (omega arith)).1 (λ j p q. same j (omega arith) q),
  ),
)

-- `memcmp` is 0 exactly when the two ranges hold the same bytes.
memcmp-zero_iff : (s1 s2 n : ℕ) (m : Memory) → (memcmp s1 s2 n m ≡ pos 0) ↔ SameBytes 0 n s1 s2 m
unfolding memcmp
memcmp-zero_iff s1 s2 n m = compare_from_lem n 0 n s1 s2 m (omega arith)

-- ===== src/Interfaces/Acpi/Checksum.antt =====
-- The checksums of kernel/interfaces/acpi.c against plain sums of bytes.
use maken_os.Base.{
  ℕ, zero, suc, ◌+◌, ◌*◌, ◌/◌, ◌%◌, ◌^◌, ◌<◌, ◌≡◌, ◌↔◌, refl, ◌∙◌, ap, ap₂, arith, true, ◌==◌,
  ==_iff, if◌then◌else◌, bit_and, bit_and_mask, Memory, IsBytes, read_le,
}
use maken_os.Interfaces.Acpi.{
  extended_char, add_chars, add_bytes, add_split, rsdp_sum1, rsdp_sum2, validate_rsdp_checksum,
  sdt_sum, validate_sdt_checksum,
}

-- The sum of the `n` bytes from `a` on.
unfoldable pub sum_bytes : ℕ → ℕ → Memory → ℕ
sum_bytes zero a m = 0
sum_bytes (suc n) a m = m a + sum_bytes n (a + 1) m

add_chars_lem :
    (n a sum : ℕ) (m : Memory) → add_chars n a sum m % 256 ≡ (sum + sum_bytes n a m) % 256
unfolding add_chars sum_bytes
add_chars_lem zero a sum m = ap (λ (t : ℕ). t % 256) (omega arith)
add_chars_lem (suc n) a sum m =
    add_chars_lem n (a + 1) ((sum + extended_char (m a)) % 2 ^ 64) m ∙ ground arith

add_bytes_lem :
    (n a sum : ℕ) (m : Memory) → add_bytes n a sum m % 256 ≡ (sum + sum_bytes n a m) % 256
unfolding add_bytes sum_bytes
add_bytes_lem zero a sum m = ap (λ (t : ℕ). t % 256) (omega arith)
add_bytes_lem (suc n) a sum m = add_bytes_lem n (a + 1) ((sum + m a) % 2 ^ 64) m ∙ omega arith

add_split-zero : (k sum : ℕ) → add_split k 0 sum % 256 ≡ sum % 256
unfolding add_split
add_split-zero zero sum = refl
add_split-zero (suc k) sum = add_split-zero k ((sum + 0) % 2 ^ 64) ∙ omega arith

-- Taking a number apart into the bytes that it was read from, and further.
add_split_lem :
    (n k a sum : ℕ) (m : Memory)
    → IsBytes m
    → add_split (n + k) (read_le n m a) sum % 256 ≡ (sum + sum_bytes n a m) % 256
unfolding add_split sum_bytes read_le
add_split_lem zero k a sum m h =
    let same : zero + k ≡ k = omega arith in
    ap (λ (t : ℕ). add_split t 0 sum % 256) same ∙ add_split-zero k sum ∙ omega arith
add_split_lem (suc n) k a sum m h =
    let rest : (m a + 256 * read_le n m (a + 1)) / 2 ^ 8 ≡ read_le n m (a + 1) =
      omega (arith, h a) in
    let low : bit_and (m a + 256 * read_le n m (a + 1)) 0xff ≡ m a =
      bit_and_mask 8 (m a + 256 * read_le n m (a + 1)) ∙ omega (arith, h a) in
    let count : suc n + k ≡ suc (n + k) = omega arith in
    ap (λ (t : ℕ). add_split t (m a + 256 * read_le n m (a + 1)) sum % 256) count
    ∙ ap₂ (λ (x y : ℕ). add_split (n + k) x ((sum + y) % 2 ^ 64) % 256) rest low
    ∙ add_split_lem n k (a + 1) ((sum + m a) % 2 ^ 64) m h
    ∙ omega arith

sdt_sum_lem :
    (n a sum : ℕ) (m : Memory) → sum < 256 → sdt_sum n a sum m ≡ (sum + sum_bytes n a m) % 256
unfolding sdt_sum sum_bytes
sdt_sum_lem zero a sum m small = omega arith
sdt_sum_lem (suc n) a sum m small =
    sdt_sum_lem n (a + 1) ((sum + m a) % 256) m (omega arith) ∙ omega arith

sum_bytes-append :
    (n k a : ℕ) {b : ℕ} (m : Memory)
    → b ≡ a + n
    → sum_bytes (n + k) a m ≡ sum_bytes n a m + sum_bytes k b m
unfolding sum_bytes
sum_bytes-append zero k a {b} m at =
    let same : zero + k ≡ k = omega arith in
    let start : a ≡ b = omega arith in ap₂ (λ (s t : ℕ). sum_bytes s t m) same start ∙ omega arith
sum_bytes-append (suc n) k a {b} m at =
    let count : suc n + k ≡ suc (n + k) = omega arith in
    ap (λ (t : ℕ). sum_bytes t a m) count
    ∙ ap (λ (t : ℕ). m a + t) (sum_bytes-append n k (a + 1) {b = b} m (omega arith))
    ∙ omega arith

-- `validateSDTChecksum` accepts a table exactly when the bytes that its length counts sum to a
-- multiple of 256.
validate_sdt_checksum-sum_bytes :
    (table_header : ℕ) (m : Memory)
    → (validate_sdt_checksum table_header m ≡ true)
      ↔ (sum_bytes (read_le 4 m (table_header + 4)) table_header m % 256 ≡ 0)
unfolding validate_sdt_checksum
validate_sdt_checksum-sum_bytes table_header m =
    let size = read_le 4 m (table_header + 4) in
    let sum : sdt_sum size table_header 0 m ≡ sum_bytes size table_header m % 256 =
      sdt_sum_lem size table_header 0 m (omega arith) ∙ omega arith in
    rw sum (==_iff (sum_bytes size table_header m % 256) 0)

sum_bytes-one : (a : ℕ) (m : Memory) → sum_bytes 1 a m ≡ m a
unfolding sum_bytes
sum_bytes-one a m = omega arith

rsdp_sum1_lem :
    (rsdp : ℕ) (m : Memory) → IsBytes m → rsdp_sum1 rsdp m % 256 ≡ sum_bytes 20 rsdp m % 256
unfolding rsdp_sum1
rsdp_sum1_lem rsdp m h =
    let signature = add_chars 8 rsdp (m (rsdp + 8)) m in
    let oem = add_chars 6 (rsdp + 9) signature m in
    omega (
      arith,
      add_chars_lem 8 rsdp (m (rsdp + 8)) m,
      add_chars_lem 6 (rsdp + 9) signature m,
      add_split_lem 4 0 (rsdp + 16) ((oem + m (rsdp + 15)) % 2 ^ 64) m h,
      sum_bytes-append 8 12 rsdp {b = rsdp + 8} m refl,
      sum_bytes-append 1 11 (rsdp + 8) {b = rsdp + 9} m (omega arith),
      sum_bytes-append 6 5 (rsdp + 9) {b = rsdp + 15} m (omega arith),
      sum_bytes-append 1 4 (rsdp + 15) {b = rsdp + 16} m (omega arith),
      sum_bytes-one (rsdp + 8) m,
      sum_bytes-one (rsdp + 15) m,
    )

low_half : (a : ℕ) (m : Memory) → IsBytes m → read_le 8 m a % 2 ^ 32 ≡ read_le 4 m a
unfolding read_le
low_half a m h = omega (arith, h a, h (a + 1), h (a + 1 + 1), h (a + 1 + 1 + 1))

rsdp_sum2_lem :
    (rsdp sum : ℕ) (m : Memory)
    → IsBytes m
    → rsdp_sum2 rsdp sum m % 256
      ≡ (sum + sum_bytes 8 (rsdp + 20) m + sum_bytes 4 (rsdp + 32) m) % 256
unfolding rsdp_sum2
rsdp_sum2_lem rsdp sum m h =
    let length = add_split 4 (read_le 4 m (rsdp + 20)) sum in
    let xsdt = add_split 8 (read_le 8 m (rsdp + 24) % 2 ^ 32) length in
    omega (
      arith,
      add_split_lem 4 0 (rsdp + 20) sum m h,
      ap (λ (t : ℕ). add_split 8 t length) (low_half (rsdp + 24) m h),
      add_split_lem 4 4 (rsdp + 24) length m h,
      add_bytes_lem 3 (rsdp + 33) ((xsdt + m (rsdp + 32)) % 2 ^ 64) m,
      sum_bytes-append 4 4 (rsdp + 20) {b = rsdp + 24} m (omega arith),
      sum_bytes-append 1 3 (rsdp + 32) {b = rsdp + 33} m (omega arith),
      sum_bytes-one (rsdp + 32) m,
    )

-- On byte memory, `validateRSDPChecksum` computes the sum, modulo 256, of the first twenty bytes
-- of the structure; for revision 2, of all its bytes but the upper half of the address of the
-- XSDT.
pub validate_rsdp_checksum-sum_bytes :
    (rsdp : ℕ) (m : Memory)
    → IsBytes m
    → validate_rsdp_checksum rsdp m
      ≡ (if m (rsdp + 15) == 2
          then sum_bytes 28 rsdp m + sum_bytes 4 (rsdp + 32) m
          else sum_bytes 20 rsdp m)
        % 256
unfolding validate_rsdp_checksum
validate_rsdp_checksum-sum_bytes rsdp m h = ground (
  arith,
  rsdp_sum1_lem rsdp m h,
  rsdp_sum2_lem rsdp (rsdp_sum1 rsdp m) m h,
  sum_bytes-append 20 8 rsdp {b = rsdp + 20} m refl,
)

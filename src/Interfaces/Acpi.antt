-- ===== src/Interfaces/Acpi.antt =====
-- kernel/interfaces/acpi.c: checksums and the search for a table, over byte memory. The members of
-- the packed structures stand at the offsets that the code below adds.
pub mod Checksum
pub mod Header
mod Tests
use maken_os.Base.{
  ℕ, zero, suc, ◌+◌, ◌-◌, ◌*◌, ◌/◌, ◌%◌, ◌^◌, Bool, ◌&&◌, Option, none, some, ltb, ◌==◌,
  if◌then◌else◌, bit_and, ◌>>>◌, Memory, read_le,
}

-- A `char`, sign-extended to 64 bits.
abbrev pub extended_char : ℕ → ℕ
extended_char c = if ltb c 128 then c else c + (2 ^ 64 - 256)

-- The loops that add the `char`s of an array, and the bytes of an array of `uint8_t`, to a 64-bit
-- sum.
unfoldable pub add_chars : ℕ → ℕ → ℕ → Memory → ℕ
add_chars zero a sum m = sum
add_chars (suc left) a sum m = add_chars left (a + 1) ((sum + extended_char (m a)) % 2 ^ 64) m

unfoldable pub add_bytes : ℕ → ℕ → ℕ → Memory → ℕ
add_bytes zero a sum m = sum
add_bytes (suc left) a sum m = add_bytes left (a + 1) ((sum + m a) % 2 ^ 64) m

-- `checksum += address_byte & 0xFF; address_byte >>= 8;`, over and over.
unfoldable pub add_split : ℕ → ℕ → ℕ → ℕ
add_split zero address_byte sum = sum
add_split (suc left) address_byte sum =
    add_split left (address_byte >>> 8) ((sum + bit_and address_byte 0xff) % 2 ^ 64)

-- The first twenty bytes, and what version 2 adds. `address_byte` has 32 bits.
unfoldable pub rsdp_sum1 : ℕ → Memory → ℕ
rsdp_sum1 rsdp m =
    let signature = add_chars 8 rsdp (m (rsdp + 8)) m in
    let oem = add_chars 6 (rsdp + 9) signature m in
    add_split 4 (read_le 4 m (rsdp + 16)) ((oem + m (rsdp + 15)) % 2 ^ 64)

unfoldable pub rsdp_sum2 : ℕ → ℕ → Memory → ℕ
rsdp_sum2 rsdp sum m =
    let length = add_split 4 (read_le 4 m (rsdp + 20)) sum in
    let xsdt = add_split 8 (read_le 8 m (rsdp + 24) % 2 ^ 32) length in
    add_bytes 3 (rsdp + 33) ((xsdt + m (rsdp + 32)) % 2 ^ 64) m

unfoldable pub validate_rsdp_checksum : ℕ → Memory → ℕ
validate_rsdp_checksum rsdp m =
    let sum = rsdp_sum1 rsdp m in (if m (rsdp + 15) == 2 then rsdp_sum2 rsdp sum m else sum) % 256

-- The loop of `validateSDTChecksum`, with an 8-bit sum.
sdt_sum : ℕ → ℕ → ℕ → Memory → ℕ
sdt_sum zero a sum m = sum
sdt_sum (suc left) a sum m = sdt_sum left (a + 1) ((sum + m a) % 256) m

unfoldable pub validate_sdt_checksum : ℕ → Memory → Bool
unfolding sdt_sum
validate_sdt_checksum table_header m =
    sdt_sum (read_le 4 m (table_header + 4)) table_header 0 m == 0

-- `sizeof(ACPISDTHeader)`
abbrev pub header_size : ℕ
header_size = 36

-- The comparison of the four characters of a signature.
abbrev pub has_signature : ℕ → ℕ → Memory → Bool
has_signature header signature m =
    (m header == m signature)
    && (m (header + 1) == m (signature + 1))
    && (m (header + 2) == m (signature + 2))
    && (m (header + 3) == m (signature + 3))

-- `rsdt->other_SDT[i]`
abbrev pub sdt_at : ℕ → ℕ → Memory → ℕ
sdt_at rsdt i m = read_le 4 m (rsdt + header_size + 4 * i)

unfoldable pub find_from : ℕ → ℕ → ℕ → ℕ → Memory → Option ℕ
find_from zero i rsdt signature m = none
find_from (suc left) i rsdt signature m =
    let rest = find_from left (i + 1) rsdt signature m in
    if has_signature (sdt_at rsdt i m) signature m then some (sdt_at rsdt i m) else rest

-- `length - sizeof` is a 64-bit difference, which wraps, and `entries` has 32 bits.
abbrev pub entries_of : ℕ → ℕ
entries_of length = (length + 2 ^ 64 - header_size) % 2 ^ 64 / 4 % 2 ^ 32

unfoldable pub find_header : ℕ → ℕ → Memory → Option ℕ
unfolding find_from
find_header rsdt signature m = find_from (entries_of (read_le 4 m (rsdt + 4))) 0 rsdt signature m

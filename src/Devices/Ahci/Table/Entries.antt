-- ===== src/Devices/Ahci/Table/Entries.antt =====
-- The entries of the scatter list that `runCommand` of kernel/devices/ahci.c writes, one by one.
use maken_os.Base.{
  ℕ, zero, suc, ◌+◌, ◌-◌, ◌*◌, ◌/◌, ◌%◌, ◌^◌, ◌≤◌, ◌<◌, ◌≡◌, refl, ◌∙◌, sym, ap, arith, inl, Memory,
  SameOutside, read_le, read_le_ext, write_le, write_le-SameOutside, read_le-write_le,
}
use maken_os.Devices.Ahci.Table.{Request, entry_address, write_entry, write_entries, write_fis}

-- The entry at the address names `bytes` bytes from `buf` on, as far as the lower half of the address
-- says.
abbrev pub NamesLow : ℕ → ℕ → ℕ → Memory → Type 0
NamesLow entry buf bytes m =
    (read_le 4 m entry ≡ buf % 2 ^ 32) × (read_le 4 m (entry + 12) % 2 ^ 22 + 1 ≡ bytes)

pub NamesLow-same :
    (entry buf bytes : ℕ) (m m' : Memory)
    → ((b : ℕ) → entry ≤ b → b < entry + 16 → m' b ≡ m b)
    → NamesLow entry buf bytes m
    → NamesLow entry buf bytes m'
NamesLow-same entry buf bytes m m' same (address, length) = (
  read_le_ext 4 m m' entry (λ b lo hi. same b lo (omega arith)) ∙ address,
  ap (λ (t : ℕ). t % 2 ^ 22 + 1)
        (read_le_ext 4 m m' (entry + 12) (λ b lo hi. same b (omega arith) (omega arith)))
      ∙ length,
)

pub NamesLow-at :
    (entry entry' buf buf' bytes bytes' : ℕ) (m : Memory)
    → entry ≡ entry'
    → buf % 2 ^ 32 ≡ buf' % 2 ^ 32
    → bytes ≡ bytes'
    → NamesLow entry buf bytes m
    → NamesLow entry' buf' bytes' m
NamesLow-at entry entry' buf buf' bytes bytes' m at same size (address, length) = (
  ap (read_le 4 m) (sym at) ∙ address ∙ same,
  ap (λ (t : ℕ). read_le 4 m (t + 12) % 2 ^ 22 + 1) (sym at) ∙ length ∙ size,
)

pub write_entry-NamesLow :
    (entry buf dbc : ℕ) (m : Memory)
    → dbc < 2 ^ 22
    → NamesLow entry buf (dbc + 1) (write_entry entry buf dbc m)
unfolding write_entry
write_entry-NamesLow entry buf dbc m small =
    let m1 = write_le 4 m entry (buf % 2 ^ 32) in
    let old = read_le 4 m1 (entry + 12) in
    let word = dbc % 2 ^ 22 + old / 2 ^ 22 % 2 ^ 9 * 2 ^ 22 + 2 ^ 31 in
    (
      read_le_ext 4 m1 (write_le 4 m1 (entry + 12) word) entry
            (λ b lo hi. write_le-SameOutside 4 m1 (entry + 12) word b (inl (omega arith)))
          ∙ read_le-write_le 4 m entry (buf % 2 ^ 32) (omega arith),
      ap (λ (t : ℕ). t % 2 ^ 22 + 1) (read_le-write_le 4 m1 (entry + 12) word (omega arith))
          ∙ omega arith,
    )

pub write_entry-SameOutside :
    (entry buf dbc : ℕ) (m : Memory) → SameOutside entry 16 m (write_entry entry buf dbc m)
unfolding write_entry
write_entry-SameOutside entry buf dbc m b out =
    write_le-SameOutside 4 (write_le 4 m entry (buf % 2 ^ 32)) (entry + 12) _ b (omega arith)
    ∙ write_le-SameOutside 4 m entry (buf % 2 ^ 32) b (omega arith)

pub write_entries-SameOutside :
    (left i table count buf : ℕ) (m : Memory)
    → SameOutside (entry_address table i) (16 * left) m (write_entries left i table count buf m).2
unfolding write_entries
write_entries-SameOutside zero i table count buf m b out = refl
write_entries-SameOutside (suc left) i table count buf m b out =
    write_entries-SameOutside left (i + 1) table _ _ _ b (omega arith)
    ∙ write_entry-SameOutside (entry_address table i) buf 8191 m b (omega arith)

-- Entry `i + j` names the eight kilobytes from `8192 * j` on.
pub write_entries-NamesLow :
    (left i table count buf j : ℕ) (m : Memory)
    → j < left
    → NamesLow
        (entry_address table (i + j))
        (buf + 8192 * j)
        8192
        (write_entries left i table count buf m).2
unfolding write_entries
write_entries-NamesLow zero i table count buf j m h = absurd (omega arith)
write_entries-NamesLow (suc left) i table count buf zero m h =
    let first = write_entry (entry_address table i) buf 8191 m in
    NamesLow-at (entry_address table i) _ buf _ 8192 8192 _ (omega arith) (omega arith) refl (
      NamesLow-same (entry_address table i) buf 8192 first
        (write_entries left (i + 1) table ((count + 2 ^ 32 - 16) % 2 ^ 32) ((buf + 8192) % 2 ^ 64)
          first).2
        (λ b lo hi. write_entries-SameOutside left (i + 1) table _ _ first b (omega arith))
        (write_entry-NamesLow (entry_address table i) buf 8191 m (omega arith)))
write_entries-NamesLow (suc left) i table count buf (suc j) m h =
    NamesLow-at (entry_address table (i + 1 + j)) _ ((buf + 8192) % 2 ^ 64 + 8192 * j) _ 8192 8192 _
      (omega arith) (omega arith) refl
      (write_entries-NamesLow left (i + 1) table ((count + 2 ^ 32 - 16) % 2 ^ 32)
        ((buf + 8192) % 2 ^ 64) j (write_entry (entry_address table i) buf 8191 m) (omega arith))

-- What is left for the last entry.
pub write_entries-rest :
    (left i table count buf : ℕ) (m : Memory)
    → 16 * left ≤ count
    → count < 2 ^ 32
    → ((write_entries left i table count buf m).0 ≡ count - 16 * left)
      × ((write_entries left i table count buf m).1 % 2 ^ 32 ≡ (buf + 8192 * left) % 2 ^ 32)
unfolding write_entries
write_entries-rest zero i table count buf m enough small = (omega arith, omega arith)
write_entries-rest (suc left) i table count buf m enough small =
    let rest =
      write_entries-rest left (i + 1) table ((count + 2 ^ 32 - 16) % 2 ^ 32) ((buf + 8192) % 2 ^ 64)
        (write_entry (entry_address table i) buf 8191 m) (omega arith) (omega arith) in
    (rest.0 ∙ omega arith, rest.1 ∙ omega arith)

pub write_fis-SameOutside :
    (fis : ℕ) (q : Request) (count : ℕ) (m : Memory)
    → SameOutside fis 14 m (write_fis fis q count m)
unfolding write_fis
write_fis-SameOutside fis q count m b out = ground arith

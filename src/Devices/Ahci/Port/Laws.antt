-- ===== src/Devices/Ahci/Port/Laws.antt =====
-- The command list that `portRebase` of kernel/devices/ahci.c lays out.
use native.Mathlib.Decide.{ℕ_discrete}
use mathlib.Core.Path.{subst}
use maken_os.Base.{
  ℕ, zero, suc, ◌+◌, ◌*◌, ◌%◌, ◌^◌, ◌≤◌, ◌<◌, ◌≡◌, refl, ◌∙◌, sym, arith, ◌⊎◌, ◌<<<◌, Memory,
  SameOutside, read_le, read_le_ext, write_le, write_le-SameOutside, read_le-write_le,
}
use maken_os.Klib.Mem.{memset}
use maken_os.Klib.Mem.Laws.{memset_lem}
use maken_os.Devices.Ahci.Table.{cmd_header_size}
use maken_os.Devices.Ahci.Port.{ahci_base, rebase_headers}

-- Where the command list of a port starts, header `i` of it, and the table of the header.
abbrev pub list_at : ℕ → ℕ
list_at port_no = ahci_base + 1024 * port_no

abbrev pub header_at : ℕ → ℕ → ℕ
header_at port_no i = list_at port_no + cmd_header_size * i

abbrev pub table_at : ℕ → ℕ → ℕ
table_at port_no i = ahci_base + 40960 + 8192 * port_no + 256 * i

-- Header `i` has eight entries and the address of its table, which is clear.
pub record IsRebased (port_no i : ℕ) (m : Memory) : Type 0 where
  pub entries : read_le 2 m (header_at port_no i + 2) ≡ 8
  pub table : read_le 4 m (header_at port_no i + 8) ≡ table_at port_no i
  pub table_high : read_le 4 m (header_at port_no i + 12) ≡ 0
  pub clear : (b : ℕ) → table_at port_no i ≤ b → b < table_at port_no i + 256 → m b ≡ 0

-- The byte is neither in header `i` nor in its table.
abbrev pub IsElsewhere : ℕ → ℕ → ℕ → Type 0
IsElsewhere port_no i b =
    ((b < header_at port_no i) ⊎ (header_at port_no i + 32 ≤ b))
    × ((b < table_at port_no i) ⊎ (table_at port_no i + 256 ≤ b))

IsRebased-same :
    (port_no i : ℕ) (m m' : Memory)
    → ((b : ℕ) → header_at port_no i ≤ b → b < header_at port_no i + 32 → m' b ≡ m b)
    → ((b : ℕ) → table_at port_no i ≤ b → b < table_at port_no i + 256 → m' b ≡ m b)
    → IsRebased port_no i m
    → IsRebased port_no i m'
IsRebased-same port_no i m m' same same_table r = record {
  entries = read_le_ext 2 m m' _ (λ b lo hi. same b (omega arith) (omega arith)) ∙ r.entries;
  table = read_le_ext 4 m m' _ (λ b lo hi. same b (omega arith) (omega arith)) ∙ r.table;
  table_high = read_le_ext 4 m m' _ (λ b lo hi. same b (omega arith) (omega arith)) ∙ r.table_high;
  clear = λ b lo hi. same_table b lo hi ∙ r.clear b lo hi;
}

-- One round of the loop.
module _ (port_no i : ℕ) (m : Memory) (few : port_no < 32) (within : i < 32) where
  abbrev m1 : Memory
  m1 = write_le 2 m (header_at port_no i + 2) 8

  abbrev m2 : Memory
  m2 = write_le 4 m1 (header_at port_no i + 8) (table_at port_no i)

  abbrev m3 : Memory
  m3 = write_le 4 m2 (header_at port_no i + 12) 0

  abbrev rebased : Memory
  rebased = memset (table_at port_no i) 0 256 m3

  m2-same : SameOutside (header_at port_no i + 8) 4 m1 m2
  m2-same = write_le-SameOutside 4 m1 (header_at port_no i + 8) (table_at port_no i)

  m3-same : SameOutside (header_at port_no i + 12) 4 m2 m3
  m3-same = write_le-SameOutside 4 m2 (header_at port_no i + 12) 0

  rebased-same : SameOutside (table_at port_no i) 256 m3 rebased
  rebased-same b out = ground (arith, memset_lem (table_at port_no i) 0 256 m3 b)

  rebased-IsRebased : IsRebased port_no i rebased
  rebased-IsRebased = record {
    entries =
        read_le_ext 2 m1 rebased _ (λ b lo hi.
          rebased-same b (omega arith) ∙ m3-same b (omega arith) ∙ m2-same b (omega arith))
        ∙ read_le-write_le 2 m (header_at port_no i + 2) 8 (omega arith);
    table =
        read_le_ext 4 m2 rebased _
          (λ b lo hi. rebased-same b (omega arith) ∙ m3-same b (omega arith))
        ∙ read_le-write_le 4 m1 (header_at port_no i + 8) (table_at port_no i) (omega arith);
    table_high =
        read_le_ext 4 m3 rebased _ (λ b lo hi. rebased-same b (omega arith))
        ∙ read_le-write_le 4 m2 (header_at port_no i + 12) 0 (omega arith);
    clear = λ b lo hi. ground (arith, memset_lem (table_at port_no i) 0 256 m3 b);
  }

  rebased-elsewhere : (b : ℕ) → IsElsewhere port_no i b → rebased b ≡ m b
  rebased-elsewhere b out =
      rebased-same b out.1
      ∙ m3-same b (omega (arith, out.0))
      ∙ m2-same b (omega (arith, out.0))
      ∙ write_le-SameOutside 2 m (header_at port_no i + 2) 8 b (omega (arith, out.0))

rebase_headers-zero : (i clb port_no : ℕ) (m : Memory) → rebase_headers 0 i clb port_no m ≡ m
unfolding rebase_headers
rebase_headers-zero i clb port_no m = refl

rebase_headers-suc :
    (left i port_no : ℕ) (m : Memory)
    → (few : port_no < 32) → (within : i < 32)
    → rebase_headers (suc left) i (list_at port_no) port_no m
      ≡ rebase_headers left (i + 1) (list_at port_no) port_no (rebased port_no i m few within)
unfolding rebase_headers
rebase_headers-suc left i port_no m few within =
    let address : (ahci_base + (40 <<< 10) + (port_no <<< 13) + (i <<< 8)) % 2 ^ 32
        ≡ table_at port_no i =
      omega arith in
    rw address refl

-- The headers from `i` on, `left` of them, are laid out, and nothing else has changed.
pub record Rebased (port_no i left : ℕ) (m m' : Memory) : Type 0 where
  pub headers : (j : ℕ) → i ≤ j → j < i + left → IsRebased port_no j m'
  pub same : (b : ℕ) → ((j : ℕ) → i ≤ j → j < i + left → IsElsewhere port_no j b) → m' b ≡ m b

-- For one of 32 ports, the loop of `portRebase` leaves each header from `i` on with eight entries and
-- the address of its own table of 256 clear bytes, and changes nothing else.
pub rebase_headers-Rebased :
    (left i port_no : ℕ) (m : Memory)
    → port_no < 32
    → i + left ≤ 32
    → Rebased port_no i left m (rebase_headers left i (list_at port_no) port_no m)
rebase_headers-Rebased zero i port_no m few fits =
    subst (Rebased port_no i 0 m) (sym (rebase_headers-zero i (list_at port_no) port_no m))
      (record { headers = λ j lo hi. absurd (omega arith); same = λ b out. refl })
rebase_headers-Rebased (suc left) i port_no m few fits =
    let within : i < 32 = omega arith in
    let m' = rebased port_no i m few within in
    let rest = rebase_headers-Rebased left (i + 1) port_no m' few (omega arith) in
    let last = rebase_headers left (i + 1) (list_at port_no) port_no m' in
    let here : IsRebased port_no i last =
      IsRebased-same port_no i m' last
        (λ b lo hi. rest.same b (λ j p q. (omega arith, omega arith)))
        (λ b lo hi. rest.same b (λ j p q. (omega arith, omega arith)))
        (rebased-IsRebased port_no i m few within) in
    subst (Rebased port_no i (suc left) m) (sym (rebase_headers-suc left i port_no m few within))
      (record {
        headers = λ j lo hi. elim (ℕ_discrete i j) [
          | yes e ↦ subst (λ (t : ℕ). IsRebased port_no t last) e here
          | no ne ↦ rest.headers j (omega arith) (omega arith)
        ];
        same = λ b out.
            rest.same b (λ j p q. out j (omega arith) (omega arith))
            ∙ rebased-elsewhere port_no i m few within b (out i (omega arith) (omega arith));
      })

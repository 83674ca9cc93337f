-- ===== src/Devices/Pci/Laws.antt =====
-- The address and the word that `pciConfigReadWord` of kernel/devices/pci.c uses.
use maken_os.Base.{
  ℕ, ◌+◌, ◌*◌, ◌/◌, ◌%◌, ◌^◌, ◌<◌, ◌≡◌, refl, ◌∙◌, ap, arith, bit_and, bit_or, bit_or_disjoint,
  bit_and_mask, bit_and_shifted, bit_or_comm, ◌<<<◌, ◌>>>◌,
}
use maken_os.Sys.{Machine, Kernel, in_long, out_long}
use maken_os.Devices.Pci.{config_address, pci_config_read_word}

-- For a device below 32 and a function below 8, the address of a register is the enable bit, and
-- the bus, device, function and register number in their fields.
pub config_address_fields :
    (bus device func offset : ℕ)
    → device < 32
    → func < 8
    → config_address bus device func offset
      ≡ 2 ^ 31 + bus % 256 * 2 ^ 16 + device * 2 ^ 11 + func * 2 ^ 8 + offset % 256 / 4 * 4
unfolding config_address
config_address_fields bus device func offset hd hf =
    let b = bus % 256 in
    let register = offset % 256 / 4 * 4 in
    let low : bit_and (offset % 256) 0xfc ≡ register =
      bit_and_shifted 2 (offset % 256) 63 ∙ omega (arith, bit_and_mask 6 (offset % 256 / 4)) in
    let d : device % 256 ≡ device = omega arith in
    let f : func % 256 ≡ func = omega arith in
    let rest = (b * 2 ^ 8 + device * 8 + func) * 2 ^ 8 + register in
    let first : bit_or (b <<< 16) ((device % 256) <<< 11) ≡ (b * 32 + device) <<< 11 =
      bit_or_disjoint 16 b (device % 256 * 2 ^ 11) (omega arith) ∙ omega arith in
    let second : bit_or ((b * 32 + device) <<< 11) ((func % 256) <<< 8)
        ≡ (b * 2 ^ 8 + device * 8 + func) <<< 8 =
      bit_or_disjoint 11 (b * 32 + device) (func % 256 * 2 ^ 8) (omega arith) ∙ omega arith in
    let third : bit_or ((b * 2 ^ 8 + device * 8 + func) <<< 8) register ≡ rest =
      bit_or_disjoint 8 (b * 2 ^ 8 + device * 8 + func) register (omega arith) in
    let fourth : bit_or rest 0x80000000 ≡ 0x80000000 + rest =
      bit_or_comm 32 rest 0x80000000 (omega arith) (omega arith)
      ∙ bit_or_disjoint 31 1 rest (omega arith) in
    ap
      (λ (t : ℕ).
        bit_or (bit_or (bit_or t ((func % 256) <<< 8)) (bit_and (offset % 256) 0xfc)) 0x80000000)
      first
    ∙ ap (λ (t : ℕ). bit_or (bit_or t (bit_and (offset % 256) 0xfc)) 0x80000000) second
    ∙ ap (λ (t : ℕ). bit_or (bit_or ((b * 2 ^ 8 + device * 8 + func) <<< 8) t) 0x80000000) low
    ∙ ap (λ (t : ℕ). bit_or t 0x80000000) third
    ∙ fourth
    ∙ omega arith

-- `pciConfigReadWord` asks for the register that holds the word and returns its half of the answer:
-- the upper one for an offset of 2 modulo 4.
pci_config_read_word-halves :
    {S : Type 0} ⦃machine : Machine S⦄ (bus device func offset : ℕ) (k : Kernel S)
    → offset < 256
    → let asked =
        (out_long ⦃machine = machine⦄ 0xcf8 (config_address bus device func offset) k).1 in
      let r = pci_config_read_word ⦃machine = machine⦄ bus device func offset k in
      let answer = (in_long ⦃machine = machine⦄ 0xcfc asked).0 in
      (r.0 ≡ answer / 2 ^ (offset / 2 % 2 * 16) % 2 ^ 16)
      × (r.1 ≡ (in_long ⦃machine = machine⦄ 0xcfc asked).1)
unfolding pci_config_read_word
pci_config_read_word-halves ⦃machine⦄ bus device func offset k small =
    let asked = (out_long ⦃machine = machine⦄ 0xcf8 (config_address bus device func offset) k).1 in
    let answer = (in_long ⦃machine = machine⦄ 0xcfc asked).0 in
    let shift : bit_and (offset % 256) 2 * 8 ≡ offset / 2 % 2 * 16 =
      omega (arith, bit_and_shifted 1 (offset % 256) 1, bit_and_mask 1 (offset % 256 / 2)) in
    (
      bit_and_mask 16 (answer >>> (bit_and (offset % 256) 2 * 8))
          ∙ ap (λ (t : ℕ). answer / 2 ^ t % 2 ^ 16) shift,
      refl,
    )

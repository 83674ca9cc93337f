-- ===== src/Devices/Ioapic/Keyboard.antt =====
-- The keys that `keyboardHandler` of kernel/devices/ps2_keyboard.c and ioapic.c shows.
use maken_os.Base.{
  ℕ, zero, suc, ◌≤◌, ◌<◌, ◌≡◌, refl, arith, some, Bool, Bool-cases, true, false, ◌||◌, inl, inr,
  ◌⊎◌, List, [], ◌∷◌, length, get_elem?, ◌==◌, if◌then◌else◌,
}
use Prim.Native.String.{String}
use maken_os.Devices.Ioapic.{
  Modifiers, Shown, nothing, key, shown, press, xor, set1_scancodes, shift_set1_scancodes,
}

get_elem?-lt :
    {A : Type 0} (xs : List A) (i : ℕ) → i < length xs → (x : A) × (get_elem? xs i ≡ some x)
get_elem?-lt [] i h = absurd (omega arith)
get_elem?-lt (x ∷ xs) zero h = (x, refl)
get_elem?-lt (x ∷ xs) (suc i) h = get_elem?-lt xs i (omega arith)

-- The text that a table holds for a key.
abbrev pub Shows : List String → ℕ → Shown → Type 0
Shows table input what = (text : String) × (get_elem? table input ≡ some text) × (what ≡ key text)

plain_rows : length set1_scancodes ≡ 89
unfolding set1_scancodes
plain_rows = refl

shift_rows : length shift_set1_scancodes ≡ 89
unfolding shift_set1_scancodes
shift_rows = refl

shown_lem :
    (s : Modifiers) (input : ℕ)
    → input < 0x58
    → Shows
        (if xor s.shift s.caps_lock then shift_set1_scancodes else set1_scancodes)
        input
        (shown s input)
unfolding shown
shown_lem s input small = elim (Bool-cases (xor s.shift s.caps_lock)) [
  | inl upper ↦
      let row = get_elem?-lt shift_set1_scancodes input (omega (arith, shift_rows)) in
      rw upper (row.0, row.1, rw row.1 refl)
  | inr lower ↦
      let row = get_elem?-lt set1_scancodes input (omega (arith, plain_rows)) in
      rw lower (row.0, row.1, rw row.1 refl)
]

abbrev pub is_modifier : ℕ → Bool
is_modifier input = input == 0x2a || input == 0x36 || input == 0x3a || input == 0x1d

press_key :
    (s : Modifiers) (input : ℕ)
    → input < 0x58
    → is_modifier input ≡ false
    → press s input ≡ (s, s.ctrl, shown s input)
unfolding press
press_key s input small plain = ground arith

press_rest :
    (s : Modifiers) (input : ℕ)
    → (0x58 ≤ input) ⊎ (is_modifier input ≡ true)
    → ((press s input).1 ≡ false) × ((press s input).2 ≡ nothing)
unfolding press
press_rest s input silent = ground arith

-- A scan code below 0x58 that is no modifier key leaves the modifiers, writes `^` exactly with the
-- control key down, and shows its text in the table that exactly one of shift and caps lock
-- selects. A modifier key and a code from 0x58 on, such as that of a released key, show nothing. So
-- no code reads behind a table.
pub press-Shows :
    (s : Modifiers) (input : ℕ)
    → (input < 0x58
        → is_modifier input ≡ false
        → ((press s input).0 ≡ s)
          × ((press s input).1 ≡ s.ctrl)
          × Shows
              (if xor s.shift s.caps_lock then shift_set1_scancodes else set1_scancodes)
              input
              (press s input).2)
      × ((0x58 ≤ input) ⊎ (is_modifier input ≡ true)
          → ((press s input).1 ≡ false) × ((press s input).2 ≡ nothing))
press-Shows s input = (
  λ small plain. rw (press_key s input small plain) (refl, refl, shown_lem s input small),
  press_rest s input,
)

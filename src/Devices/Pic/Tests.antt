-- ===== src/Devices/Pic/Tests.antt =====
-- Runs of kernel/devices/pic.c.
use maken_os.Base.{ℕ, ◌%◌, ◌^◌, ◌≡◌, refl, arith, List, [], ◌∷◌}
use maken_os.Sys.Trace.{Event, read8, History, tracing, booted}
use maken_os.Devices.Pic.{pic1_command, pic1_data, pic2_command, pic2_data, remap_pic}
use maken_os.Devices.Pic.Masks.{masked}
use maken_os.Devices.Pic.Lines.{
  Call, IsOnLines, set_mask, clear_mask, disable_all, enable_all, calls_lines, calls_pics,
  calls_pics-calls_lines,
}
use maken_os.Devices.Pic.Device.{pics, laws, start}
use maken_os.Devices.Pic.Remap.{writes_to, remap_pic-writes}

abbrev calls : List Call
calls = disable_all ∷ clear_mask 1 ∷ enable_all ∷ set_mask 9 ∷ []

calls_pics-calls_lines_example :
    masked ⦃machine = pics⦄ laws 9 (calls_pics ⦃machine = pics⦄ calls start)
    ≡ calls_lines calls (λ i. masked ⦃machine = pics⦄ laws i start) 9
unfolding IsOnLines
calls_pics-calls_lines_example =
    calls_pics-calls_lines ⦃machine = pics⦄ laws calls start 9 (omega arith, (omega arith, tt))
      (omega arith)

-- The masks that the controllers answer with.
abbrev answer : History → Event → ℕ
answer h e = 0xb8

remap_pic-writes_example :
    let h = (remap_pic ⦃machine = tracing answer⦄ 0x20 0x28 booted).1.bus in
    (writes_to pic1_command pic1_data h
      ≡ (pic1_data, answer [] (read8 pic1_data) % 2 ^ 8)
        ∷ (pic1_data, 0x01)
        ∷ (pic1_data, 4)
        ∷ (pic1_data, 0x20 % 2 ^ 8)
        ∷ (pic1_command, 0x11)
        ∷ [])
    × (writes_to pic2_command pic2_data h
        ≡ (pic2_data, answer (read8 pic1_data ∷ []) (read8 pic2_data) % 2 ^ 8)
          ∷ (pic2_data, 0x01)
          ∷ (pic2_data, 2)
          ∷ (pic2_data, 0x28 % 2 ^ 8)
          ∷ (pic2_command, 0x11)
          ∷ [])
remap_pic-writes_example = remap_pic-writes answer booted 0x20 0x28 refl

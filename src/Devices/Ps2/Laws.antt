-- ===== src/Devices/Ps2/Laws.antt =====
-- The test for a second channel in `initKeyboard` of kernel/devices/ps2.c.
use maken_os.Base.{ℕ, ◌-◌, ◌*◌, ◌≡◌, ◌≢◌, arith, bit, bit-le-one, bit_and_shifted, shr-bit_and_one}
use maken_os.Devices.Ps2.{two_channel_of}

-- The value that stands for a second channel is 255, or 239 with bit 4 of the configuration byte
-- set. It is never zero, so the configuration byte does not decide the two tests that follow in
-- `initKeyboard`.
two_channel_of-ne_zero :
    (configuration_byte : ℕ)
    → (two_channel_of configuration_byte ≡ 255 - 16 * bit configuration_byte 4)
      × (two_channel_of configuration_byte ≢ 0)
unfolding two_channel_of
two_channel_of-ne_zero configuration_byte =
    let masked = bit_and_shifted 4 configuration_byte 1 in
    let kept = shr-bit_and_one configuration_byte 4 in
    let small = bit-le-one 4 configuration_byte in
    (omega (arith, masked, kept, small), λ e. omega (arith, masked, kept, small, e))

-- ===== src/Devices/Pic/Remap.antt =====
-- The initialisation sequence of `remapPIC` of kernel/devices/pic.c, as each controller sees it.
use maken_os.Base.{ℕ, zero, suc, ◌+◌, ◌%◌, ◌^◌, ◌≡◌, refl, ◌||◌, ◌==◌, if◌then◌else◌, List, [], ◌∷◌}
use maken_os.Sys.{Machine, Kernel, inb, outb, io_wait}
use maken_os.Sys.Trace.{Event, read8, write8, History, tracing}
use maken_os.Devices.Pic.{
  pic1_command, pic1_data, pic2_command, pic2_data, set_mask_irq, disable_from, disable_all_irqs,
  remap_pic,
}

-- The bytes written to one of two ports, the oldest last, each with its port.
pub writes_to : ℕ → ℕ → History → List (ℕ × ℕ)
writes_to p q [] = []
writes_to p q (write8 port v ∷ h) =
    let rest = writes_to p q h in if port == p || port == q then (port, v) ∷ rest else rest
writes_to p q (_ ∷ h) = writes_to p q h

-- Both controllers get the four initialisation words in order, with their own vector offset and
-- cascade word, and at the end the mask that they had before; nothing else is written to them.
pub remap_pic-writes :
    (answer : History → Event → ℕ) (k : Kernel History) (offset1 offset2 : ℕ)
    → k.bus ≡ []
    → let h = (remap_pic ⦃machine = tracing answer⦄ offset1 offset2 k).1.bus in
      (writes_to pic1_command pic1_data h
        ≡ (pic1_data, answer [] (read8 pic1_data) % 2 ^ 8)
          ∷ (pic1_data, 0x01)
          ∷ (pic1_data, 4)
          ∷ (pic1_data, offset1 % 2 ^ 8)
          ∷ (pic1_command, 0x11)
          ∷ [])
      × (writes_to pic2_command pic2_data h
          ≡ (pic2_data, answer (read8 pic1_data ∷ []) (read8 pic2_data) % 2 ^ 8)
            ∷ (pic2_data, 0x01)
            ∷ (pic2_data, 2)
            ∷ (pic2_data, offset2 % 2 ^ 8)
            ∷ (pic2_command, 0x11)
            ∷ [])
unfolding remap_pic inb outb io_wait writes_to
remap_pic-writes answer k offset1 offset2 e = (rw e, rw e)

-- The table of handlers is left alone.
module _ {S : Type 0} ⦃machine : Machine S⦄ where
  disable_from-handlers :
      (left i : ℕ) (k : Kernel S)
      → (disable_from left i k).1.interrupt_handlers ≡ k.interrupt_handlers
  unfolding disable_from set_mask_irq inb outb
  disable_from-handlers zero i k = refl
  disable_from-handlers (suc left) i k = disable_from-handlers left (i + 1) (set_mask_irq i k).1

  pub disable_all_irqs-handlers :
      (k : Kernel S) → (disable_all_irqs k).1.interrupt_handlers ≡ k.interrupt_handlers
  unfolding disable_all_irqs
  disable_all_irqs-handlers k = disable_from-handlers 16 0 k

  pub remap_pic-handlers :
      (offset1 offset2 : ℕ) (k : Kernel S)
      → (remap_pic offset1 offset2 k).1.interrupt_handlers ≡ k.interrupt_handlers
  unfolding remap_pic inb outb io_wait
  remap_pic-handlers offset1 offset2 k = refl

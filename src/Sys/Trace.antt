-- ===== src/Sys/Trace.antt =====
-- A machine that keeps the history of its accesses, newest first, and answers each read by any
-- function of that history: every environment of the drivers is one of these.
use Prim.Native.String.{String}
use maken_os.Base.{ℕ, List, [], ◌∷◌, false, none, replicate}
use maken_os.Sys.{Machine, Kernel}

pub data Event : Type 0 where
  read8 read16 read32 read_mmio : ℕ → Event
  write8 write32 write_mmio : ℕ → ℕ → Event
  read_model : ℕ → Event
  write_model : ℕ → ℕ → ℕ → Event
  text : String → ℕ → Event
  chars : List ℕ → Event
  number : ℕ → Event
  wait : Event

abbrev pub History : Type 0
History = List Event

module _ (answer : History → Event → ℕ) where
  abbrev pub recorded : Event → History → ℕ × History
  recorded e h = (answer h e, e ∷ h)

  abbrev pub done : Event → History → Unit {0} × History
  done e h = (tt, e ∷ h)

  abbrev pub tracing : Machine History
  tracing = record {
    read_port8 = λ p. recorded (read8 p);
    write_port8 = λ p v. done (write8 p v);
    read_port16 = λ p. recorded (read16 p);
    read_port32 = λ p. recorded (read32 p);
    write_port32 = λ p v. done (write32 p v);
    read_register = λ p. recorded (read_mmio p);
    write_register = λ p v. done (write_mmio p v);
    read_msr = λ r h.
        ((answer h (read_model r), answer (read_model r ∷ h) (read_model r)), read_model r ∷ h);
    write_msr = λ r lo hi. done (write_model r lo hi);
    write_text = λ t n. done (text t n);
    write_bytes = λ cs. done (chars cs);
    write_number = λ n. done (number n);
    wait = done wait;
  }

-- The variables of the drivers before anything runs.
abbrev pub booted : Kernel History
booted = record {
  bus = [];
  interrupt_handlers = replicate 256 none;
  frequency = 1193180;
  shift = false;
  caps_lock = false;
  ctrl = false;
}

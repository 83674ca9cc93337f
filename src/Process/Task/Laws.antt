-- ===== src/Process/Task/Laws.antt =====
-- The ring of the two tasks in kernel/process/task.c, and what a yield does in it.
use maken_os.Base.{ℕ, suc, ◌*◌, ◌≤◌, ◌<◌, ◌+◌, ◌%◌, ◌^◌, ◌≡◌, refl, Option, some, Memory}
use maken_os.Memory.Pmm.{MemmapEntry, block_size, address_of}
use maken_os.Memory.Pmm.Blocks.{Served, k_malloc-Ends}
use maken_os.Process.Task.{
  Registers, Tasks, main_task, other_task, new_task, create_task, link_tasks, init_tasking,
  switch_task, yield,
}

-- Each of the two tasks is followed by the other.
pub record IsRing (t : Tasks) : Type 0 where
  pub main_next : t.main.next ≡ some other_task
  pub other_next : t.other.next ≡ some main_task

pub yield_main :
    (flags : ℕ) (cpu : Registers) (t : Tasks) (m : Memory)
    → IsRing t
    → t.running_task ≡ some main_task
    → yield flags cpu t m
      ≡ some (
          switch_task main_task other_task flags cpu
            (record t { running_task = some other_task })
            m)
unfolding yield
yield_main flags cpu t m ring main = rw (main, ring.main_next) refl

pub yield_other :
    (flags : ℕ) (cpu : Registers) (t : Tasks) (m : Memory)
    → IsRing t
    → t.running_task ≡ some other_task
    → yield flags cpu t m
      ≡ some (
          switch_task other_task main_task flags cpu (record t { running_task = some main_task }) m)
unfolding yield
yield_other flags cpu t m ring other = rw (other, ring.other_next) refl

-- In an entry of more than 4096 words, of a length below 2^60 and with fuel for one halving more
-- than lead down to a block, `initTasking` ends: it links the two tasks in a ring with the main task
-- running, and the other task will start at its function with the flags and the page tables of the
-- main task. Its stack is what `k_malloc` gives for 4096 words, a fresh zeroed block or NULL, and its
-- stack pointer is 4096 bytes above.
pub init_tasking-IsRing :
    (halvings : ℕ) (memmap : MemmapEntry) (cr3 rflags other_main : ℕ) (t : Tasks) (m : Memory)
    → 4096 + 1 ≤ memmap.length
    → memmap.length < 2 ^ 60
    → memmap.length ≤ block_size * 2 ^ halvings
    → (stack : Option ℕ) × (t' : Tasks) × (m' : Memory) × (init_tasking
          (suc halvings)
          memmap
          cr3
          rflags
          other_main
          t
          m
        ≡ some (t', m'))
      × Served memmap.base memmap.length 4096 m (stack, m')
      × IsRing t'
      × (t'.running_task ≡ some main_task)
      × (t'.other.regs.rip ≡ other_main)
      × (t'.other.regs.rflags ≡ rflags)
      × (t'.other.regs.cr3 ≡ cr3)
      × (t'.other.regs.rsp ≡ (address_of stack + 4096) % 2 ^ 64)
unfolding init_tasking create_task link_tasks new_task
init_tasking-IsRing halvings memmap cr3 rflags other_main t m fits small enough =
    let ((stack, m'), runs, served) = k_malloc-Ends halvings 4096 memmap m fits small enough in
    (
      stack,
      link_tasks cr3 rflags (new_task t.other other_main rflags cr3 (address_of stack)) t,
      m',
      rw runs refl,
      served,
      record { main_next = refl; other_next = refl },
      refl,
      refl,
      refl,
      refl,
      refl,
    )

-- ===== src/Process/Task/Run.antt =====
-- `doIt` and `otherMain` of kernel/process/task.c: what runs in the two tasks around their yields.
use maken_os.Base.{
  ℕ, true, suc, ◌*◌, ◌≤◌, ◌<◌, ◌+◌, ◌%◌, ◌^◌, ◌≡◌, refl, Option, none, some, ◌==◌, if◌then◌else◌,
  arith, ◌-◌, ◌∷◌, Memory, SameOutside, read_le,
}
use maken_os.Sys.{Machine, Kernel, and_then, ◌>>◌, term_write}
use maken_os.Sys.Trace.{History, Event, text, tracing}
use maken_os.Memory.Pmm.{MemmapEntry, block_size}
use maken_os.Process.Task.{
  Registers, Tasks, main_task, other_task, init_tasking, load_registers, save_registers,
  switch_task, yield,
}
use maken_os.Process.Task.Laws.{IsRing, yield_main, yield_other, init_tasking-IsRing}

-- A call of `switchTask` as the compiler lays it out: the registers at its entry, the flags, and what
-- was written on the stack before it, the return address included.
pub record Call : Type 0 where
  pub cpu : Registers
  pub flags : ℕ
  pub push : Memory → Memory

-- What runs until control leaves it: the tasks, the registers, the memory and the kernel then.
abbrev pub Running : Type 0 → Type 0
Running S = Tasks × Registers × Memory × Kernel S

module _ {S : Type 0} ⦃machine : Machine S⦄ where
  -- `yield` as it is called in a task; `none` is a NULL pointer.
  unfoldable pub yield_call : Call → Tasks → Memory → Kernel S → Option (Running S)
  yield_call call t m k =
      and_then (yield call.flags call.cpu t (call.push m)) (λ r. some (r.0, r.1, r.2, k))

  -- Up to the return of `yield`, which never comes. `other_call` is what the compiled code makes of the
  -- registers that it starts with, up to its call of `switchTask`.
  unfoldable pub other_main :
      (Registers → Call) → Registers → Tasks → Memory → Kernel S → Option (Running S)
  unfolding yield_call
  other_main other_call cpu t m k =
      yield_call (other_call cpu) t m
        ((do term_write "Hello!\n" 7; term_write "Going back to main...\n" 22) k).1

  -- What runs where `switchTask` has returned to, with the registers that it loaded: `otherMain` is at
  -- `entry`, and any other address is not one of the two tasks, `none`.
  unfoldable pub run_other : ℕ → (Registers → Call) → Running S → Option (Running S)
  run_other entry other_call r =
      let rest = other_main other_call r.1 r.0 r.2 r.3 in if r.1.rip == entry then rest else none

  -- The end of `doIt`, where control is back behind its call of `switchTask`.
  unfoldable pub finish_it : Call → Memory → Running S → Option (Running S)
  finish_it call m r =
      if r.1.rip == read_le 8 (call.push m) call.cpu.rsp
      then some (r.0, r.1, r.2, (term_write "good\n" 5 r.3).1)
      else none

  -- `doIt`, with the other task in between.
  unfoldable pub do_it :
      ℕ → Call → (Registers → Call) → Tasks → Memory → Kernel S → Option (Running S)
  do_it entry call other_call t m k =
      let k1 = (term_write "Switching to otherTask... \n" 27 k).1 in
      and_then (yield_call call t m k1)
        λ r. and_then (run_other entry other_call r) (finish_it call m)

  -- `initTasking(); doIt();` with the values of CR3 and RFLAGS, and `otherMain` at `entry`.
  unfoldable pub start_tasks :
      ℕ
      → MemmapEntry
      → ℕ
      → ℕ
      → ℕ
      → Call
      → (Registers → Call)
      → Tasks
      → Memory
      → Kernel S
      → Option (Running S)
  start_tasks fuel memmap cr3 rflags entry call other_call t m k =
      and_then (init_tasking fuel memmap cr3 rflags entry t m)
        λ r. do_it entry call other_call r.0 r.1 k

abbrev pub texts : History → History
texts h =
    text "good\n" 5
    ∷ text "Going back to main...\n" 22
    ∷ text "Hello!\n" 7
    ∷ text "Switching to otherTask... \n" 27
    ∷ h

-- The registers that `otherMain` starts with, where the first switch is `call`.
abbrev pub entered : Call → Tasks → Registers
entered call t = load_registers call.cpu t.other.regs

-- What the calling convention asks of the compiled `otherMain`: it does not change CR3, at its call of
-- `switchTask` the stack pointer is `frame` bytes lower, and only these bytes have been written.
pub record IsCompiled (frame : ℕ) (other_call : Registers → Call) : Type 0 where
  pub cr3 : (cpu : Registers) → (other_call cpu).cpu.cr3 ≡ cpu.cr3
  pub rsp : (cpu : Registers) → frame ≤ cpu.rsp → (other_call cpu).cpu.rsp ≡ cpu.rsp - frame
  pub push :
      (cpu : Registers) (m : Memory)
      → frame ≤ cpu.rsp
      → SameOutside (cpu.rsp - frame) frame m ((other_call cpu).push m)

-- `otherMain` starts at its address with the stack pointer at the end of the 4096 bytes at `stack`, and
-- has its call of `switchTask` in them, outside which it has written nothing on the way.
pub record IsOnStack (entry frame stack : ℕ) (call : Call) (other_call : Registers → Call)
    (t : Tasks) : Type 0 where
  pub start : (entered call t).rip ≡ entry
  pub top : (entered call t).rsp ≡ stack + 4096
  pub yielding : (other_call (entered call t)).cpu.rsp ≡ stack + 4096 - frame
  pub writes : (m : Memory) → SameOutside stack 4096 m ((other_call (entered call t)).push m)

same_test : (a : ℕ) → (a == a) ≡ true
same_test a = ground arith

module _ (answer : History → Event → ℕ) where
  -- Control is back in the main task behind its call of `switchTask`, with the registers of that call
  -- but for those that the switch mixes up, and the four texts have been written in order.
  pub record IsBack (call : Call) (other_call : Registers → Call) (t : Tasks) (m : Memory)
      (k : Kernel History) (r : Running History) : Type 0 where
    pub ring : IsRing r.0
    pub main : r.0.running_task ≡ some main_task
    pub registers : r.1 ≡ record call.cpu {
      rax = call.cpu.rcx;
      rcx = (other_call (entered call t)).cpu.rcx;
      rsp = (call.cpu.rsp + 8) % 2 ^ 64;
      rflags = call.flags;
      rip = read_le 8 (call.push m) call.cpu.rsp;
      cr3 = (other_call (entered call t)).cpu.cr3;
    }
    pub kernel : r.3 ≡ record k { bus = texts k.bus }

  do_it-IsBack :
      (entry : ℕ) (call : Call) (other_call : Registers → Call) (t : Tasks) (m : Memory)
      (k : Kernel History)
      → IsRing t
      → t.running_task ≡ some main_task
      → t.other.regs.rip ≡ entry
      → (r : Running History) × (do_it ⦃machine = tracing answer⦄ entry call other_call t m k
          ≡ some r)
        × IsBack call other_call t m k r
  unfolding do_it run_other other_main finish_it yield_call load_registers save_registers
      switch_task
  do_it-IsBack entry call other_call t m k ring main at = (
    (second.0, second.1, second.2, record k { bus = texts k.bus }),
    rw
        (
          yield_main call.flags call.cpu t (call.push m) ring main,
          here,
          yield_other there.flags there.cpu first.0 (there.push first.2) ring1 refl,
          same_test (read_le 8 (call.push m) call.cpu.rsp),
        )
        refl,
    record {
      ring = record { main_next = ring.main_next; other_next = ring.other_next };
      main = refl;
      registers = refl;
      kernel = refl;
    },
  )
    where
      here : (t.other.regs.rip == entry) ≡ true
      here = ground (arith, at)

      first : Tasks × Registers × Memory
      first =
          switch_task main_task other_task call.flags call.cpu
            (record t { running_task = some other_task }) (call.push m)

      there : Call
      there = other_call first.1

      ring1 : IsRing first.0
      ring1 = record { main_next = ring.main_next; other_next = ring.other_next }

      second : Tasks × Registers × Memory
      second =
          switch_task other_task main_task there.flags there.cpu
            (record first.0 { running_task = some main_task }) (there.push first.2)

  -- Whether the stack is a block or NULL, both functions end.
  pub start_tasks-returns :
      (halvings : ℕ) (memmap : MemmapEntry) (cr3 rflags entry : ℕ) (call : Call)
      (other_call : Registers → Call) (t : Tasks) (m : Memory) (k : Kernel History)
      → 4096 + 1 ≤ memmap.length
      → memmap.length < 2 ^ 60
      → memmap.length ≤ block_size * 2 ^ halvings
      → (r : Running History) × (t' : Tasks) × (m' : Memory) × (start_tasks
            ⦃machine = tracing answer⦄
            (suc halvings)
            memmap
            cr3
            rflags
            entry
            call
            other_call
            t
            m
            k
          ≡ some r)
        × IsBack call other_call t' m' k r
  unfolding start_tasks
  start_tasks-returns halvings memmap cr3 rflags entry call other_call t m k fits small enough =
      let tasking = init_tasking-IsRing halvings memmap cr3 rflags entry t m fits small enough in
      let back =
        do_it-IsBack entry call other_call tasking.1 tasking.2 k tasking.5 tasking.6 tasking.7 in
      (back.0, tasking.1, tasking.2, rw tasking.3 back.1, back.2)

-- ===== src/Process/Task.antt =====
-- kernel/process/task.c and switch.asm: cooperative tasks. The two tasks are static variables, named
-- by what they are; the memory that they share, `m`, holds their stacks.
pub mod Laws
pub mod Run
pub mod Sample
mod Tests
use Prim.Native.String.{String}
use maken_os.Base.{ℕ, ◌+◌, ◌-◌, ◌%◌, ◌^◌, Option, none, some, ◌>>=◌, Memory, read_le, write_le}
use maken_os.Memory.Pmm.{MemmapEntry, address_of, k_malloc}

-- `struct Registers`
pub record Registers : Type 0 where
  pub rax : ℕ
  pub rbx : ℕ
  pub rcx : ℕ
  pub rdx : ℕ
  pub rsi : ℕ
  pub rdi : ℕ
  pub rsp : ℕ
  pub rbp : ℕ
  pub r8 : ℕ
  pub r9 : ℕ
  pub r10 : ℕ
  pub r11 : ℕ
  pub r12 : ℕ
  pub r13 : ℕ
  pub r14 : ℕ
  pub r15 : ℕ
  pub rflags : ℕ
  pub rip : ℕ
  pub cr3 : ℕ

pub data TaskId : Type 0 where
  main_task other_task : TaskId

-- `struct Task`; `next` is NULL in a new task.
pub record Task : Type 0 where
  pub regs : Registers
  pub next : Option TaskId

pub record Tasks : Type 0 where
  pub running_task : Option TaskId
  pub main : Task
  pub other : Task

abbrev pub task_of : TaskId → Tasks → Task
task_of main_task t = t.main
task_of other_task t = t.other

abbrev pub set_task : TaskId → Task → Tasks → Tasks
set_task main_task task t = record t { main = task }
set_task other_task task t = record t { other = task }

-- The assignments of `createTask`: the members that are not assigned keep their values.
unfoldable pub new_task : Task → ℕ → ℕ → ℕ → ℕ → Task
new_task task entry flags cr3 stack = record {
  regs = record task.regs {
    rax = 0;
    rbx = 0;
    rcx = 0;
    rdx = 0;
    rsi = 0;
    rdi = 0;
    rflags = flags;
    rip = entry;
    cr3 = cr3;
    rsp = (stack + 0x1000) % 2 ^ 64;
  };
  next = none;
}

-- `none` is the fuel of `k_malloc`.
unfoldable pub create_task : ℕ → MemmapEntry → Task → ℕ → ℕ → ℕ → Memory → Option (Task × Memory)
create_task fuel memmap task entry flags cr3 m = do
  (stack, m') ← k_malloc fuel memmap 4096 m
  some (new_task task entry flags cr3 (address_of stack), m')

-- The assignments of `initTasking`, with the new task in place.
unfoldable pub link_tasks : ℕ → ℕ → Task → Tasks → Tasks
link_tasks cr3 rflags other t = record {
  running_task = some main_task;
  main = record {
    regs = record t.main.regs { cr3 = cr3; rflags = rflags };
    next = some other_task;
  };
  other = record other { next = some main_task };
}

-- `initTasking`, with the values of CR3 and RFLAGS and the address of `otherMain`.
unfoldable pub init_tasking : ℕ → MemmapEntry → ℕ → ℕ → ℕ → Tasks → Memory → Option (Tasks × Memory)
init_tasking fuel memmap cr3 rflags other_main t m = do
  (other, m') ← create_task fuel memmap t.other other_main rflags cr3 m
  some (link_tasks cr3 rflags other t, m')

-- `switchTask`, on the registers of the processor at its entry and the flags that `pushfq` pushes,
-- which are those after the addition before it. The return address lies at `cpu.rsp`. CR3 is not
-- saved.
unfoldable pub save_registers : Registers → ℕ → Memory → Registers → Registers
save_registers cpu flags m from = record cpu {
  rsp = (cpu.rsp + 8) % 2 ^ 64;
  rflags = flags;
  rip = read_le 8 m cpu.rsp;
  cr3 = from.cr3;
}

-- What the registers are at the end. `rax`, which serves to load RFLAGS and the return address, gets
-- the saved `rcx` at last; `rcx` itself and CR3 stay those of the processor.
unfoldable pub load_registers : Registers → Registers → Registers
load_registers cpu to = record to { rax = to.rcx; rcx = cpu.rcx; cr3 = cpu.cr3 }

abbrev pub below : ℕ → ℕ → ℕ
below rsp n = (rsp + 2 ^ 64 - n) % 2 ^ 64

-- What it pushes: on the old stack the flags, which are popped, the return address over them, and
-- the new flags, which are popped; on the new stack the return address, which `ret` pops.
unfoldable pub push_registers : Registers → ℕ → Registers → Memory → Memory
push_registers cpu flags to m =
    let m1 = write_le 8 m (below cpu.rsp 8) flags in
    let m2 = write_le 8 m1 (below cpu.rsp 8) (read_le 8 m1 cpu.rsp) in
    let m3 = write_le 8 m2 (below cpu.rsp 16) to.rflags in write_le 8 m3 (below to.rsp 8) to.rip

-- The tasks, the registers and the memory after `switchTask(&last->regs, &next->regs)`.
unfoldable pub switch_task :
    TaskId → TaskId → ℕ → Registers → Tasks → Memory → Tasks × Registers × Memory
switch_task last next flags cpu t m =
    let from = task_of last t in
    let saved = set_task last (record from { regs = save_registers cpu flags m from.regs }) t in
    let to = (task_of next saved).regs in
    (saved, load_registers cpu to, push_registers cpu flags to m)

-- `yield`, up to the return of `switchTask` in the other task. `none` is a NULL pointer.
unfoldable pub yield : ℕ → Registers → Tasks → Memory → Option (Tasks × Registers × Memory)
unfolding switch_task
yield flags cpu t m = do
  last ← t.running_task
  next ← (task_of last t).next
  some (switch_task last next flags cpu (record t { running_task = some next }) m)

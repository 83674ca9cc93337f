-- ===== src/Process/Task/Sample.antt =====
-- Two tasks of kernel/process/task.c and calls of `switchTask`, for the tests.
use maken_os.Base.{ℕ, ◌+◌, ◌-◌, some, write_le}
use maken_os.Process.Task.{Registers, Tasks, main_task, other_task}
use maken_os.Process.Task.Run.{Call}

abbrev pub registers : ℕ → ℕ → Registers
registers x rip = record {
  rax = x;
  rbx = x + 1;
  rcx = x + 2;
  rdx = x + 3;
  rsi = x + 4;
  rdi = x + 5;
  rsp = 0x9000 + x;
  rbp = x + 6;
  r8 = x + 7;
  r9 = x + 8;
  r10 = x + 9;
  r11 = x + 10;
  r12 = x + 11;
  r13 = x + 12;
  r14 = x + 13;
  r15 = x + 14;
  rflags = 2;
  rip = rip;
  cr3 = 0x1000;
}

abbrev pub tasks : Tasks
tasks = record {
  running_task = some main_task;
  main = record { regs = registers 0 0x100; next = some other_task };
  other = record { regs = registers 50 0x200; next = some main_task };
}

-- A call that pushes its return address.
abbrev pub call_at : ℕ → ℕ → Call
call_at x back = record {
  cpu = registers x 0;
  flags = 2;
  push = λ m. write_le 8 m (0x9000 + x) back;
}

-- A call at the end of a stack that pushes its return address.
abbrev pub call_below : ℕ → Registers → Call
call_below back cpu = record {
  cpu = record cpu { rsp = cpu.rsp - 8; rip = 0 };
  flags = 2;
  push = λ m. write_le 8 m (cpu.rsp - 8) back;
}

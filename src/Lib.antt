-- ===== src/Lib.antt =====
-- vpoline intercepts the system calls of a RISC-V process: it replaces every `ecall` of libc by a jump
-- through the global pointer gp, which points to generated code between a return sequence (below gp)
-- and a trampoline (at gp). Accesses of the program to data around its original global pointer fault
-- in the execute-only pages of that code, and a SIGSEGV handler performs them on the original data.
--
-- Parts, and how they interact:
-- * src/utils.c, src/main.h (Layout): `define_ret_sequence_info` and `allocate_ret_sequence_page` choose
--   the addresses, as the fields of `ReturnSequenceInfo` and the other global variables (`Globals`).
--   `sysconf` and `mmap` are arguments.
-- * src/patcher.c (Patcher): `setup_shadow_page_trampoline` and `setup_return` write words of code at
--   these addresses. Machine defines the RV64I instructions among them: format, effect, and the run of
--   a number of instructions. The kernel is an argument.
-- * src/main.c, the assembly `asm_syscall_hook` and `syscall_hook` (Hook): the trampoline jumps here;
--   the lines save the context, call the hook function, restore the context and jump to one of
--   three return paths of the return sequence. The compiled `syscall_hook` is an argument with the
--   calling convention as its law (`IsCallee`); so is the address of `relocated_global_pointer`.
--   Hook.Asked has what a hook function is asked and what a call then does.
-- * src/patcher.c, src/main.c together (Interception): `intercept` runs the trampoline, passes registers and
--   memory to the hook entry, and runs the return path from where that jumps to.
-- * src/main.c, `disassemble_and_rewrite` (Rewrite): the loop that finds each `ecall` of a range of code
--   and overwrites it. Capstone is an argument, with `IsCapstone` as its law, and so is `mprotect`.
-- * src/main.c, `rewrite_code` (Maps): the loop over the lines of /proc/self/maps, which hands the
--   executable ranges of libc to `disassemble_and_rewrite`. Text models the functions of the C library
--   that it calls: `fgets`, `strstr`, `strtok` and `strtol`. Maps.Print has the format of the lines.
--   Rewrite.Moments (`Reaches`) and Maps.Moments (`Moments`) are the memories between two passes of the
--   loop and two mappings; the memory that `rewrite_code` leaves is the last of them (Maps.Course).
--   Maps.Requests has the calls of `mprotect` that the whole loop depends on.
-- * src/sigsegv_handler.c, src/rv_opcodes.h (Handler): `segfault_handler` and the functions that emulate
--   loads and stores of 32 and 16 bits. Handler.Isa describes these instructions independently.
-- * src/main.c, `__vpoline_init`, `load_hook_lib`, `__libc_start_main`, and `init_trap_handler` of
--   src/sigsegv_handler.c (Startup): the set-up, which calls all of the above in turn, on a record of
--   the process (`Process`). The system, the loader and the hook library are a record of functions
--   (`System`), the addresses of the symbols another (`Symbols`); `with_variable` is the assignment of
--   utils.c to `relocated_global_pointer`, in the memory that the hook entry reads. Startup.SetUp has the
--   conditions of a successful set-up, Startup.Requests the calls of the system that it depends on.
--   Startup.Intercepted follows a system call of the patched libc through the code that the
--   set-up has left, and Startup.During one that libc makes while it is being patched.
--   Startup.Running follows a program over any number of steps: system calls, redirected accesses
--   (with the delivery of the signal in Startup.Signal), and work of its own.
--   Startup.Target is the check of builds with DEBUG at the top of `__vpoline_init`, with the functions
--   of the C library on paths in Text.Names; the link /proc/self/exe and the contents of
--   /proc/self/cmdline are arguments (`Files`).
-- * src/main.c, the assembly `syscall_no_intercept` (Direct): the system calls that a hook function makes
--   of its own, from a list of lines.
--
-- Representation: an address, a register and a word are natural numbers, with the wrap-around of the
-- source written out; memory is a byte for each address (Memory), and registers are a function of
-- their number, 32 to 63 for the floating-point registers in Hook. `exit` is a value of `Exit` or an
-- outcome; a granted or refused system call is a Boolean argument.
--
-- Fuel: `run` takes the number of instructions, and its theorems name it. `run_lines` takes the number of
-- labels that may be entered; `run_hook` gives 4, and no path enters more than three. `rewrite_loop` gets
-- the size of the range, and every pass advances by a byte at least. `rewrite_lines` gets the number
-- of bytes of the file, and every line that is read has a byte at least.
--
-- A hook function is a function of number and arguments, for one call at a time: Startup.Running lets it
-- differ from call to call. The assert of `setup_return` is modelled as active; a build with NDEBUG, as the
-- Release build of CMake, drops it. In a line of /proc/self/maps whose first token has 64 bytes and no
-- '-', `rewrite_code` reads outside of its array; `split_range` gives the empty text there.
--
-- An `ecall` and the call in its place: `served` is the caller behind an `ecall` that the kernel serves, and
-- `SameEffect` compares two such callers by all that program and kernel can see; below sp, the frame and
-- the stack of `syscall_hook` may differ, as below sp no calling convention keeps anything.
--
-- Not modelled: the messages of builds with DEBUG, the code of the hook library, the memory of
-- capstone's handles, the protections of pages but as arguments of `mprotect`, the instruction cache,
-- concurrent threads, and the tests and benchmarks.
pub mod Common
pub mod Memory
pub mod Layout
pub mod Handler
pub mod Machine
pub mod Patcher
pub mod Hook
pub mod Interception
pub mod Text
pub mod Rewrite
pub mod Maps
pub mod Startup
pub mod Direct

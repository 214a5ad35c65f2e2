-- ===== src/Maps/Tests.antt =====
-- A file of three mappings, and the theorems of `rewrite_code` at it.
use vpoline.Common.{
  ◌↔◌, none, Bool, ◌==◌, ◌&&◌, ◌||◌, ◌⊎◌, ◌≡◌, refl, arith, true, false, List, [], ◌∷◌, some, All,
}
use vpoline.Common.Exit.{ok, exit}
use vpoline.Memory.{Memory, load, store, store_words}
use vpoline.Rewrite.{Mprotect, intercept_disasm_next_instruction, jalr_gp}
use vpoline.Rewrite.Moments.{Reaches}
use vpoline.Text.{Bytes, codes}
use vpoline.Rewrite.Tests.{capstone, capstone-IsCapstone}
use vpoline.Maps.{rewrite_lines, rewrite_code}
use vpoline.Maps.Line.{is_target, rewrite_target}
use vpoline.Maps.Moments.{Moments, context_of, AllUnderway}
use vpoline.Maps.Underway.{Moments-AllUnderway}
use vpoline.Maps.Requests.{IsOpen, rewrite_code-requests}
use vpoline.Maps.Fuel.{IsStuck, rewrite_code-enough}
use vpoline.Maps.Print.{Mapping, IsMapping, print_mapping, print_file}
use vpoline.Maps.File.{rewrite_targets, rewrite_code-print_file}
use vpoline.Maps.Patched.{AllPatched, rewrite_code-AllPatched}

abbrev program : Mapping
program = record {
  from_address = 0x1000;
  to_address = 0x2000;
  readable = true;
  writable = false;
  executable = true;
  shared = false;
  rest = codes "00000000 08:02 173521 /usr/bin/cat";
}

abbrev libc_header : Mapping
libc_header = record {
  from_address = 0x3000;
  to_address = 0x4000;
  readable = true;
  writable = false;
  executable = false;
  shared = false;
  rest = codes "00000000 08:02 135522 /usr/lib/libc.so.6";
}

abbrev pub libc_code : Mapping
libc_code = record {
  from_address = 0x4000;
  to_address = 0x4010;
  readable = true;
  writable = false;
  executable = true;
  shared = false;
  rest = codes "00001000 08:02 135522 /usr/lib/libc.so.6";
}

abbrev pub mappings : List Mapping
mappings = program ∷ libc_header ∷ libc_code ∷ []

pub mappings-IsMapping : All IsMapping mappings
mappings-IsMapping = (
  record {
    from_small = omega arith;
    to_small = omega arith;
    ordered = omega arith;
    one_line = omega arith;
    short = omega arith;
  },
  (
    record {
      from_small = omega arith;
      to_small = omega arith;
      ordered = omega arith;
      one_line = omega arith;
      short = omega arith;
    },
    (
      record {
        from_small = omega arith;
        to_small = omega arith;
        ordered = omega arith;
        one_line = omega arith;
        short = omega arith;
      },
      tt,
    ),
  ),
)

-- The line is what the kernel prints.
libc_code-line :
    print_mapping libc_code
    ≡ codes "00004000-00004010 r-xp 00001000 08:02 135522 /usr/lib/libc.so.6"
unfolding print_mapping vpoline.Maps.Print.print_address vpoline.Text.Hex.hex
libc_code-line = refl

-- c.nop, ecall, a wide instruction, ecall.
abbrev pub libc : Memory
libc = store_words (λ x. 0) 0x4000 (0x0073_0001 ∷ 0x0513_0000 ∷ 0x0073_0015 ∷ 0 ∷ [])

rewrite_code-print_file_example :
    rewrite_code capstone (λ request. true) (some (print_file mappings)) libc
    ≡ rewrite_targets capstone (λ request. true) mappings libc
rewrite_code-print_file_example =
    rewrite_code-print_file capstone (λ request. true) mappings mappings-IsMapping libc

rewrite_code-AllPatched_example :
    (mem' : Memory) × (rewrite_code capstone (λ request. true) (some (print_file mappings)) libc
      ≡ some (ok mem'))
    × AllPatched capstone mappings libc mem'
rewrite_code-AllPatched_example =
    rewrite_code-AllPatched capstone capstone-IsCapstone (λ request. true) refl (λ request. refl)
      mappings mappings-IsMapping ((omega arith, (omega arith, tt)), ((omega arith, tt), (tt, tt)))
      libc

-- A file whose last line has no newline.
abbrev short_file : Bytes
short_file = codes "1000-2000 r-xp\n3000-4000 r--p /usr/lib/libc.so.6"

rewrite_code-enough_example :
    (rewrite_lines capstone (λ request. true) 100 short_file libc
      ≡ rewrite_code capstone (λ request. true) (some short_file) libc)
    × ((rewrite_code capstone (λ request. true) (some short_file) libc ≡ none)
        ↔ IsStuck capstone (λ request. true) short_file libc)
rewrite_code-enough_example =
    rewrite_code-enough capstone (λ request. true) short_file libc 100 (omega arith)

-- The second pass over the code of libc has replaced its first `ecall`.
abbrev half_done : Memory
half_done = store 4 libc 0x4002 jalr_gp

half_done-Reaches : Reaches capstone (context_of libc_code) 0x4000 libc 0x4006 half_done
unfolding load store store_words intercept_disasm_next_instruction
half_done-Reaches =
    Reaches.pass 0x4002 libc (record { address = 0x4002; is_syscall = true; length = 4 })
      (Reaches.pass 0x4000 libc (record { address = 0x4000; is_syscall = false; length = 2 })
        Reaches.start refl refl)
      refl refl

half_done-Moments : Moments capstone (λ request. true) mappings libc half_done
unfolding rewrite_target is_target vpoline.Text.strstr
half_done-Moments = Moments.behind program _ libc libc half_done refl (
    Moments.behind libc_header _ libc libc half_done refl
      (Moments.within libc_code [] libc 0x4006 half_done refl half_done-Reaches))

Moments-AllUnderway_example : AllUnderway capstone mappings libc half_done
Moments-AllUnderway_example =
    Moments-AllUnderway capstone capstone-IsCapstone (λ request. true) refl (λ request. refl)
      mappings mappings-IsMapping ((omega arith, (omega arith, tt)), ((omega arith, tt), (tt, tt)))
      libc half_done half_done-Moments

-- A system that grants only what is needed for the code of libc.
abbrev strict : Mprotect → Bool
strict request =
    request.addr == 0x4000 && (request.len == 0x10 && (request.prot == 7 || request.prot == 5))

rewrite_code-requests_example :
    (All (IsOpen strict) mappings
      × ((mem' : Memory) × (rewrite_code capstone strict (some (print_file mappings)) libc
            ≡ some (ok mem'))))
    ⊎ (¬ All (IsOpen strict) mappings
        × (rewrite_code capstone strict (some (print_file mappings)) libc ≡ some (exit 1)))
rewrite_code-requests_example =
    rewrite_code-requests capstone capstone-IsCapstone strict refl mappings mappings-IsMapping libc

strict-IsOpen : IsOpen strict libc_code
strict-IsOpen target = (refl, refl)

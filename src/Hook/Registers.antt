-- ===== src/Hook/Registers.antt =====
-- The numbers of the registers in a register file: 0 to 31 the integer registers, 32 to 63 the
-- floating-point registers.
use vpoline.Common.{ℕ}

abbrev pub ra : ℕ
ra = 1

abbrev pub sp : ℕ
sp = 2

abbrev pub gp : ℕ
gp = 3

abbrev pub t0 : ℕ
t0 = 5

abbrev pub t1 : ℕ
t1 = 6

abbrev pub t2 : ℕ
t2 = 7

abbrev pub t3 : ℕ
t3 = 28

abbrev pub t4 : ℕ
t4 = 29

abbrev pub t5 : ℕ
t5 = 30

abbrev pub t6 : ℕ
t6 = 31

abbrev pub a0 : ℕ
a0 = 10

abbrev pub a1 : ℕ
a1 = 11

abbrev pub a2 : ℕ
a2 = 12

abbrev pub a3 : ℕ
a3 = 13

abbrev pub a4 : ℕ
a4 = 14

abbrev pub a5 : ℕ
a5 = 15

abbrev pub a6 : ℕ
a6 = 16

abbrev pub a7 : ℕ
a7 = 17

abbrev pub fa0 : ℕ
fa0 = 42

abbrev pub fa1 : ℕ
fa1 = 43

abbrev pub fa2 : ℕ
fa2 = 44

abbrev pub fa3 : ℕ
fa3 = 45

abbrev pub fa4 : ℕ
fa4 = 46

abbrev pub fa5 : ℕ
fa5 = 47

abbrev pub fa6 : ℕ
fa6 = 48

abbrev pub fa7 : ℕ
fa7 = 49

abbrev pub ft0 : ℕ
ft0 = 32

abbrev pub ft1 : ℕ
ft1 = 33

abbrev pub ft2 : ℕ
ft2 = 34

abbrev pub ft3 : ℕ
ft3 = 35

abbrev pub ft4 : ℕ
ft4 = 36

abbrev pub ft5 : ℕ
ft5 = 37

abbrev pub ft6 : ℕ
ft6 = 38

abbrev pub ft7 : ℕ
ft7 = 39

abbrev pub ft8 : ℕ
ft8 = 60

abbrev pub ft9 : ℕ
ft9 = 61

abbrev pub ft10 : ℕ
ft10 = 62

abbrev pub ft11 : ℕ
ft11 = 63

-- ===== src/Ulib/Count.antt =====
-- `printf` of user/ulib.c returns the number of bytes that it has sent.
use toy_riscv_kernel.Prelude.{◌≡◌, length}
use toy_riscv_kernel.Ulib.{Printed}

abbrev Counts : Printed → Type 0
Counts p = p.1 ≡ length p.0

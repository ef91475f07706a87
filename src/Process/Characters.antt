-- ===== src/Process/Characters.antt =====
-- `sys_put_char` and `sys_get_char` of kernel/process.c. A reading is what `uart_getc` gives, and
-- whether other tasks are runnable then; `none` is a wait that the readings do not end.
use toy_riscv_kernel.Prelude.{◌>>=◌, ℕ, ◌%◌, Bool, true, false, Option, none, some, List, [], ◌∷◌}
use toy_riscv_kernel.Print.{print_char}
use toy_riscv_kernel.Process.{Task}

-- The bytes sent, and the result.
unfoldable pub sys_put_char : Task → List ℕ × ℕ
sys_put_char task = (print_char (task.a0 % 256), 0)

abbrev pub Readings : Type 0
Readings = List (Option ℕ × Bool)

-- The loop with `yield`, whose character is not kept: the readings left.
unfoldable pub wait_and_yield : Readings → Option Readings
wait_and_yield [] = none
wait_and_yield ((some c, others) ∷ readings) = some readings
wait_and_yield ((none, true) ∷ readings) = wait_and_yield readings
wait_and_yield ((none, false) ∷ readings) = some readings

unfoldable pub wait_for_interrupt : Readings → Option (ℕ × Readings)
wait_for_interrupt [] = none
wait_for_interrupt ((some c, others) ∷ readings) = some (c, readings)
wait_for_interrupt ((none, others) ∷ readings) = wait_for_interrupt readings

unfoldable pub sys_get_char : Readings → Option (ℕ × Readings)
sys_get_char readings = do rest ← wait_and_yield readings; wait_for_interrupt rest

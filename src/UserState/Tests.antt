-- ===== src/UserState/Tests.antt =====
-- Two user registers, on a machine that is the function from registers to their words.
use ooplatingsistm.Base.{ℕ, ◌+◌, ◌≡◌, ◌≢◌, refl, none, some, ◌==◌, if◌then◌else◌, arith, ==_refl}
use ooplatingsistm.UserState.{Simulation, UserThread, leave_user, enter_user, enter-leave}

abbrev written : ℕ → ℕ → (ℕ → ℕ) → ℕ → ℕ
written i w m j = if j == i then w else m j

written_self : (i w : ℕ) (m : ℕ → ℕ) → written i w m i ≡ w
written_self i w m = rw (==_refl i)

written_other : (i j w : ℕ) (m : ℕ → ℕ) → i ≢ j → written i w m j ≡ m j
written_other i j w m ne = ground (arith, ne)

abbrev two_registers : Simulation (ℕ → ℕ) ℕ (Unit {0})
two_registers = record {
  num_total_regs = 2;
  read_register = λ i m. m i;
  write_register = written;
  save_state = λ s m. s;
  restore_state = λ s m. m;
  read-write_self = λ i w m. written_self i w m;
  read-write_other = written_other;
  read-restore_state = λ i s m. refl;
}

abbrev user_thread : UserThread ℕ (Unit {0})
user_thread = record { space = some tt; user_registers = λ i. 0 }

enter-leave_example :
    let k = leave_user two_registers user_thread (λ i. i + 5) in
    (user_thread.space ≢ none → enter_user two_registers k (λ i. 9) 1 ≡ 6)
    × (user_thread.space ≡ none → enter_user two_registers k (λ i. 9) ≡ (λ i. 9))
enter-leave_example = enter-leave two_registers user_thread (λ i. i + 5) (λ i. 9) 1 (omega arith)

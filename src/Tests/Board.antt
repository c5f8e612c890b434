-- ===== src/Tests/Board.antt =====
-- A board whose registers are memory cells, and one that refuses its first transactions.
use mathlib.Core.Bool.{false≢true}
use c_data_structures.Prelude.{sym, ℕ, ◌-◌, refl, true, false, ◌==◌, if◌then◌else◌, replicate}
use c_data_structures.Prelude.Int.{pos, negsuc}
use c_data_structures.Pmic.Types.{Device}
use c_data_structures.Pmic.Bus.{Board}
use c_data_structures.Pmic.Chip.{IsChip}

-- The registers, as a function of the address.
abbrev pub Cells : Type 0
Cells = ℕ → ℕ

abbrev pub ram_board : Board Cells
ram_board = record {
  write_read = λ addr wreg wval rreg wanted t w.
      if wanted then (pos 0, w rreg, w) else (pos 0, 0, λ q. if q == wreg then wval else w q);
  register_isr_cb = λ cb w. w;
}

abbrev pub ram_board-IsChip : IsChip ram_board
ram_board-IsChip = record {
  regs = λ w. w;
  Plain = λ r. Unit;
  read_value = λ addr r t w e. refl;
  read_keeps = λ addr r t w q p. refl;
  write_done = λ addr r v t w q p p' e. refl;
  write_failed = λ addr r v t w q p e. absurd (false≢true (sym e));
}

-- A board that refuses as many transactions as the world says.
abbrev pub shy_board : Board ℕ
shy_board = record {
  write_read =
      λ addr wreg wval rreg wanted t w. if w == 0 then (pos 0, 0, 0) else (negsuc 4, 0, w - 1);
  register_isr_cb = λ cb w. w;
}

abbrev pub ready_device : Device
ready_device = record {
  i2c_addr = 0x58;
  initialized = true;
  current_state = 0;
  regulators =
      replicate 9
        (record { is_enabled = false; voltage_mv = 0; voltage_ok = false; in_sleep_mode = false });
  i2c_context = true;
  device_id = 0x24;
  revid = 0;
}

-- Registers that read as a known chip.
abbrev pub reset_cells : Cells
reset_cells r = if r == 0 then 0x24 else 0

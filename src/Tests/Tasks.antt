-- ===== src/Tests/Tasks.antt =====
-- The tasks round the driver on a board of memory cells.
use c_data_structures.Prelude.{
  ◌≡◌, ◌≢◌, refl, true, false, none, some, [], arith, ◌==◌, if◌then◌else◌,
}
use c_data_structures.Prelude.Int.{pos, negsuc}
use c_data_structures.Prelude.Run.{ok}
use c_data_structures.Pmic.Types.{Device}
use c_data_structures.Pmic.Tasks.{I2cBus, TaskState, board_i2c_write_read, bus_board, safertos_init}
use c_data_structures.Pmic.Startup.{Refused, safertos_init-Refused}
use c_data_structures.Pmic.Chip.{on, IsChip}
use c_data_structures.Pmic.Boot.{boot_order, enable_each}
use c_data_structures.Pmic.Sequence.{
  Reliable, bus_board-Reliable, conf-nonzero, Enables, enable_each-Enables,
}
use c_data_structures.Pmic.Bus.{Board}
use c_data_structures.Tests.Board.{Cells, ram_board, ready_device, reset_cells}

abbrev silent_bus : I2cBus Cells
silent_bus = record {
  bus_init = (λ w. (pos 0, w));
  bus_write_read = (λ addr wreg wval rreg t w. (pos 0, w rreg, w));
  bus_write = (λ addr reg val t w. (pos 0, w));
  bus_read = (λ addr reg t w. (pos 0, w reg, w));
}

abbrev down_device : Device
down_device = record ready_device { initialized = false }

abbrev tasks : TaskState Cells
tasks = record {
  drv = record { dev = some down_device; world = reset_cells };
  pmic_dev = true;
  event_queue = true;
  dpc_task = true;
  watchdog_task = true;
  power_task = true;
  event_cb = none;
  watchdog_enabled = true;
  watchdog_timeout_ms = 30000;
  sent_events = [];
  calls = [];
}

safertos_init-Refused_example :
    Refused tasks (safertos_init ram_board silent_bus true (negsuc 5) (pos 0) 0x58 tasks)
safertos_init-Refused_example =
    safertos_init-Refused ram_board silent_bus true (negsuc 5) (pos 0) 0x58 tasks

-- A bus in front of the memory cells, and the driver's board on it.
abbrev cell_bus : I2cBus Cells
cell_bus = record {
  bus_init = (λ w. (pos 0, w));
  bus_write_read = (λ addr wreg wval rreg t w. (pos 0, w rreg, w));
  bus_write = (λ addr reg val t w. (pos 0, λ q. if q == reg then val else w q));
  bus_read = (λ addr reg t w. (pos 0, w reg, w));
}

abbrev cell_board : Board Cells
cell_board = bus_board cell_bus 0x58 (λ cb w. w)

cell_board-Reliable : Reliable cell_board
cell_board-Reliable = bus_board-Reliable cell_bus 0x58 (λ cb w. w) (λ r t w. refl) (λ r v t w. refl)

abbrev cell_board-IsChip : IsChip cell_board
unfolding board_i2c_write_read
cell_board-IsChip = record {
  regs = λ w. w;
  Plain = λ r. r ≢ 0;
  read_value = λ addr r t w e. ground arith;
  read_keeps = λ addr r t w q p. ground arith;
  write_done = λ addr r v t w q p p' e. ground arith;
  write_failed = λ addr r v t w q p e. ground arith;
}

abbrev up_tasks : TaskState Cells
up_tasks = record tasks { drv = on ready_device reset_cells }

enable_each-Enables_example :
    (w : Cells) × (enable_each cell_board boot_order up_tasks
      ≡ ok (record up_tasks { drv = on ready_device w }))
    × Enables cell_board-IsChip boot_order reset_cells w
unfolding cell_board-IsChip
enable_each-Enables_example =
    enable_each-Enables cell_board-IsChip boot_order up_tasks ready_device reset_cells
      cell_board-Reliable conf-nonzero refl (omega arith) refl

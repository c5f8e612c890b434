-- ===== src/Tests/Pmics.antt =====
-- Concrete runs of the power management driver.
use c_data_structures.Prelude.{◌+◌, ◌≤◌, ◌<◌, ◌≡◌, inl, refl, true, false, arith}
use c_data_structures.Prelude.Bits.{bit}
use c_data_structures.Pmic.Sleep.{sleep_bits-bits}
use c_data_structures.Pmic.Types.{SleepConfig}
use c_data_structures.Pmic.Driver.{ok, ◌>>=◌}
use c_data_structures.Pmic.Bus.{i2c_write}
use c_data_structures.Pmic.Chip.{on, i2c_write-retry}
use c_data_structures.Pmic.Regulator.{
  volt_to_reg, reg_to_volt, voltage_range, regulator_set_voltage, regulator_get_voltage,
}
use c_data_structures.Pmic.Power.{enter_sleep, exit_sleep, sleep_bits}
use c_data_structures.Pmic.Device.{blank}
use c_data_structures.Pmic.Voltage.{
  Accepted, SetThenRead, reg_to_volt-wraps, reg_to_volt-volt_to_reg, set_then_get,
}
use c_data_structures.Pmic.Life.{SleepCycle, exit_sleep-enter_sleep}
use c_data_structures.Tests.Board.{
  ram_board, ram_board-IsChip, shy_board, ready_device, reset_cells,
}

-- The default voltage of BUCK1 reads back as 740 mV.
reg_to_volt-wraps_example : reg_to_volt 0 (volt_to_reg 0 3300) + 1280 ≤ 3300
reg_to_volt-wraps_example = reg_to_volt-wraps 0 3300 (omega arith) (omega arith) (omega arith)

ldo_accepts : Accepted 5 1800
unfolding voltage_range
ldo_accepts = (omega arith, omega arith)

reg_to_volt-volt_to_reg_example :
    (reg_to_volt 5 (volt_to_reg 5 1800) ≤ 1800)
    × (1800 < reg_to_volt 5 (volt_to_reg 5 1800) + (voltage_range 5).step)
reg_to_volt-volt_to_reg_example = reg_to_volt-volt_to_reg 5 1800 ldo_accepts (inl (omega arith))

set_then_get_example : SetThenRead ram_board-IsChip 5 1800 (
    (regulator_set_voltage ram_board 5 1800 >>= λ _. regulator_get_voltage ram_board true 5)
      (on ready_device reset_cells))
set_then_get_example =
    set_then_get ram_board-IsChip 5 1800 blank ready_device reset_cells refl (omega arith) refl
      ldo_accepts (inl (omega arith)) tt

i2c_write-retry_example : i2c_write shy_board 5 1 (on ready_device 2) ≡ (ok tt, on ready_device 0)
i2c_write-retry_example =
    i2c_write-retry shy_board 5 1 2 ready_device 2 (omega arith) (refl, (refl, tt)) refl

exit_sleep-enter_sleep_example :
    SleepCycle ram_board-IsChip ready_device
      ((enter_sleep ram_board >>= λ _. exit_sleep ram_board) (on ready_device reset_cells))
exit_sleep-enter_sleep_example =
    exit_sleep-enter_sleep ram_board-IsChip ready_device reset_cells refl tt tt

abbrev lost_ldo : SleepConfig
lost_ldo = record {
  sleep_enabled = true;
  buck_mask = 0x04;
  ldo_mask = 0x0A;
  retention_enabled = false;
  wake_pin = 1;
  wake_edge = 0;
}

sleep_bits-bits_example :
    (bit (sleep_bits lost_ldo) 0 ≡ 1)
    × (bit (sleep_bits lost_ldo) 1 ≡ 0)
    × (bit (sleep_bits lost_ldo) 2 ≡ 1)
    × (bit (sleep_bits lost_ldo) 3 ≡ 0)
    × (bit (sleep_bits lost_ldo) 4 ≡ 0)
    × (bit (sleep_bits lost_ldo) 5 ≡ 0)
    × (bit (sleep_bits lost_ldo) 6 ≡ 0)
    × (bit (sleep_bits lost_ldo) 7 ≡ 1)
unfolding bit
sleep_bits-bits_example = sleep_bits-bits lost_ldo

-- ===== src/Pmic/Registers.antt =====
-- The constants of tps6594_driver/include/tps6594.h that the driver uses.
use c_data_structures.Prelude.{ℕ}

-- Register addresses.
abbrev pub reg_device_id : ℕ
reg_device_id = 0x00

abbrev pub reg_int_sts : ℕ
reg_int_sts = 0x01

abbrev pub reg_int_msk : ℕ
reg_int_msk = 0x02

abbrev pub reg_pwr_status : ℕ
reg_pwr_status = 0x04

abbrev pub reg_pwr_ctrl : ℕ
reg_pwr_ctrl = 0x05

abbrev pub reg_fault_sts : ℕ
reg_fault_sts = 0x07

abbrev pub reg_buck1_volt : ℕ
reg_buck1_volt = 0x10

abbrev pub reg_buck1_conf : ℕ
reg_buck1_conf = 0x11

abbrev pub reg_ldo1_volt : ℕ
reg_ldo1_volt = 0x28

abbrev pub reg_ldo1_conf : ℕ
reg_ldo1_conf = 0x29

abbrev pub reg_pg_status : ℕ
reg_pg_status = 0x43

abbrev pub reg_wdog_conf : ℕ
reg_wdog_conf = 0x60

abbrev pub reg_wdog_response : ℕ
reg_wdog_response = 0x61

abbrev pub reg_esm_conf : ℕ
reg_esm_conf = 0x70

abbrev pub reg_esm_status : ℕ
reg_esm_status = 0x71

abbrev pub reg_nvm_lock : ℕ
reg_nvm_lock = 0x92

abbrev pub reg_sleep_conf : ℕ
reg_sleep_conf = 0xA0

abbrev pub reg_wake_conf : ℕ
reg_wake_conf = 0xA1

-- `TPS6594_DEVICE_ID_PMIC` and `TPS6594_DEVICE_ID_FPGA`.
abbrev pub device_id_pmic : ℕ
device_id_pmic = 0x24

abbrev pub device_id_fpga : ℕ
device_id_fpga = 0x30

-- `tps6594_regulator_id_t`, as the number that it is.
abbrev pub regulator_buck5 : ℕ
regulator_buck5 = 4

abbrev pub regulator_ldo1 : ℕ
regulator_ldo1 = 5

abbrev pub regulator_count : ℕ
regulator_count = 9

-- `tps6594_power_state_t`, as the number that it is.
abbrev pub state_active : ℕ
state_active = 0

abbrev pub state_standby : ℕ
state_standby = 1

abbrev pub state_backup : ℕ
state_backup = 2

abbrev pub state_shutdown : ℕ
state_shutdown = 3

abbrev pub state_unknown : ℕ
state_unknown = 6

-- Voltage ranges and steps, in millivolts.
abbrev pub buck_volt_min_mv : ℕ
buck_volt_min_mv = 300

abbrev pub buck_volt_max_mv : ℕ
buck_volt_max_mv = 3340

abbrev pub buck_step_mv : ℕ
buck_step_mv = 5

abbrev pub ldo_volt_min_mv : ℕ
ldo_volt_min_mv = 600

abbrev pub ldo_volt_max_mv : ℕ
ldo_volt_max_mv = 3300

abbrev pub ldo_step_mv : ℕ
ldo_step_mv = 50

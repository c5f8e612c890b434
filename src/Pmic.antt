-- ===== src/Pmic.antt =====
-- tps6594_driver: the driver of the TPS6594-Q1 power management chip. Its state is the driver
-- instance and the board behind the I2C bus, and each function is a command over that state.
pub mod Registers
pub mod Types
pub mod Driver
pub mod Bus
pub mod Device
pub mod Regulator
pub mod Power
pub mod Monitor
pub mod Config
pub mod Chip
pub mod Modify
pub mod Voltage
pub mod State
pub mod Refusal
pub mod Sleep
pub mod Status
pub mod Life
pub mod Tasks
pub mod Boot
pub mod Sequence
pub mod Watchdog
pub mod Startup

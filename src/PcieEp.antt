-- ===== src/PcieEp.antt =====
-- pcie_ep_driver/xilinx_pcie_ep.c: the Linux driver of an FPGA endpoint.
pub mod Registers
pub mod Control
pub mod Window
pub mod Resources
pub mod Bind
pub mod Unwind
pub mod Settle
pub mod Minors
pub mod Engine
pub mod Switch
pub mod Mapping
pub mod Interrupts
pub mod Ring
pub mod Load
pub mod Module

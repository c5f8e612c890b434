-- ===== src/MboxLib.antt =====
-- mailbox_framework/lib/mbox_lib.c: the library of the processes that use a mailbox.
pub mod System
pub mod Api
pub mod Messages
pub mod Handles
pub mod Device

-- ===== src/Mailbox.antt =====
-- mailbox_framework/kernel/mbox_kern.c: mailboxes in shared memory, as a character device.
pub mod Memory
pub mod Types
pub mod Transfer
pub mod Receive
pub mod Files
pub mod Ioctl
pub mod Manage
pub mod Window
pub mod Steps
pub mod Calls
pub mod Search
pub mod Leak
pub mod Letter
pub mod RoundTrip
pub mod Overlay
pub mod Overlap
pub mod Area
pub mod Registry
pub mod Lifetime
pub mod Answers
pub mod Delivery
pub mod Returns

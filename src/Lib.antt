-- ===== src/Lib.antt =====
-- A verification library for the containers, the TPS6594 driver, the mailboxes and the PCIe
-- endpoint driver of this repository: queue, stack, linked lists, binary tree and hash table,
-- whose C files stand alone and are used together by test.c, tps6594_driver, which reaches its
-- chip by one board function, mailbox_framework, a kernel module and its library, and
-- pcie_ep_driver, a kernel module for an FPGA endpoint.
--
-- A C function that updates a structure through a pointer is a function from the old structure to
-- the new one, beside what it returns; NULL is `none`. `malloc` and `realloc` are asked for each
-- call: a Boolean argument says whether the memory is granted. An access outside an object, and a
-- NULL pointer that is followed, is `fault`. A `size_t` is a natural number with its wrap-around
-- at 2 ^ 64 written out where the code adds or multiplies; `int` results are integers. Callbacks
-- (`compare`, `hash`, `key_eq`) are fields of the models, as they are of the structures, with the
-- laws that the code relies on in `IsOrder` and `IsKey`.
--
-- - Prelude: shared names; lists and tests over the native numbers, integers, outcomes of C code,
--   the bits of `&` and `|`.
-- - Buffer: heap blocks of elements of one size, with `malloc`, `realloc` and `memcpy`.
-- - Queue: queue/queue.c, a circular array (`queue_create`, `grow`, `queue_enqueue`,
--   `queue_dequeue`, `queue_peek`, `queue_size`, `queue_is_empty`, `queue_destroy`). Queue.Window
--   reads a circular array as a list, Queue.Refine is the queue below its capacity, Queue.Grow the
--   full one, Queue.Fifo the loops of test.c. The loop of dequeues runs on fuel: one more than the
--   number of elements.
-- - Stack: stack/stack.c, likewise; Stack.Refine is one operation, Stack.Lifo the loops of test.c,
--   with the same fuel.
-- - LinkedList: linked_list/linked_list.c. A node is reached by one pointer, so the nodes are a
--   list; LinkedList.Refine is about its operations.
-- - DoublyLinkedList: doubly_linked_list/doubly_linked_list.c over a heap of nodes, since two
--   pointers reach each node. DoublyLinkedList.Linked says when a heap holds a list,
--   DoublyLinkedList.Access is about reading, DoublyLinkedList.Insert about insertion, with
--   Prepend for the front, Append for the end and Splice for the nodes between,
--   DoublyLinkedList.Remove about removal, with Unlink for the code and Relink for the heap,
--   Places about positions in both, DoublyLinkedList.Clear about `dll_clear`, whose loop runs on
--   fuel: as much as `length` says.
-- - BinaryTree: binary_tree/binary_tree.c, whose nested GCC functions are functions of their own.
--   BinaryTree.Order has the search tree invariant, BinaryTree.Search and BinaryTree.Remove what a
--   search finds after an update, BinaryTree.Traverse the traversals. What `remove_node` gives
--   back to the allocator is not modelled.
-- - HashTable: hash_table/hash_table.c. HashTable.Chains is about one chain, HashTable.Map about
--   the table, HashTable.Update about insertion and removal.
-- - Pmic: tps6594_driver/src/tps6594.c and tps6594_driver/include/tps6594.h. Registers and Types
--   have the constants and structures, Driver the commands over the driver's state, Bus the
--   transactions, and Regulator, Power, Monitor, Device and Config the functions of the driver by
--   their names without `tps6594_`. tps6594.c takes `board_i2c_write_read` and the registration of
--   an interrupt callback from outside: they are the fields of `Board`, and `IsChip` says what a
--   board does that keeps the values written to its plain registers. The board of
--   tps6594_safertos.c is `bus_board`: its transactions are the `board_i2c_write_read` of that
--   file over the platform's bus, which is a parameter, where `g_pmic_dev` is set. Tasks and Boot
--   have the functions of tps6594_driver/src/tps6594_safertos.c: one event or one round of each
--   task, over what the operating system answers. Chip, Modify, Voltage, Status, Sleep, Life,
--   Refusal, State, Sequence, Watchdog and Startup have the theorems. The retries of a write are
--   counted by TPS6594_I2C_RETRY_MAX. Output of `tps6594_dump_registers` and delays are not
--   modelled.
-- - Mailbox: mailbox_framework/kernel/mbox_kern.c and the constants and requests of
--   mailbox_framework/include/mbox.h. Memory has the bytes of the shared area, Types the
--   structures, Transfer `mbox_enqueue`, Receive `mbox_dequeue` and `mbox_peek_nolock`, Files the
--   file operations, Ioctl `mbox_ioctl`, Manage the creation and destruction of mailboxes and of
--   the module. A pass of `mbox_dequeue` under the lock is `take_message`; its waits are a list,
--   each with the time that has passed, what other processes do meanwhile and what the wait
--   returns, and this list is the fuel: the loop ends when the time of one wait reaches the
--   timeout. The kernel's allocations and the copies from and to the caller's memory are answered
--   by parameters. Window relates the indices to the count, Steps is the step relation of the
--   processes, Calls the file operations as steps, Search what a mask selects, Leak the slots that
--   are lost and that some slot never is, Letter and RoundTrip a message on its way, Overlay and
--   Overlap two messages in a row, Delivery what a receive hands out, Area the bounds of the
--   memory, Answers what calls return on full and empty mailboxes, Returns the end of
--   `mbox_dequeue`, Registry and Lifetime the table of mailboxes. The error constants of mbox.h
--   are negative and are negated where the module returns them, so they are positive in the model.
--   Timestamps, device nodes and log output are not modelled, and neither are overlapping writes
--   of processes that map the memory.
-- - MboxLib: mailbox_framework/lib/mbox_lib.c. System has the system calls, which are a parameter,
--   and the handles on a heap; Api and Messages have the functions of the library. Handles is
--   about the conversion of a handle to `int`, Device about the library over a system that hands
--   reads of the device to `mbox_read` of the module.
-- - PcieEp: pcie_ep_driver/xilinx_pcie_ep.c. Registers has the endpoint behind BAR0, which is a
--   parameter, the spinlock and the interrupt handler, Control `ep_ioctl`, Window `ep_mmap`, Bind
--   `xilinx_ep_probe` and `xilinx_ep_remove` with one function for each step and each label, over
--   what Resources says a device holds, Module the loading. The kernel's answers are parameters.
--   Unwind and Settle are about the end of a probe, Minors about devices that come and go, Engine
--   and Switch about the requests, Ring about their arguments, Interrupts about the handler and
--   the shutdown, Mapping about what is mapped, Load about the loading. The value of
--   `dma_free_coherent` that the driver tests, which the kernel's function does not have, is a
--   parameter too, of which nothing is assumed: what is stated of a DMA buffer is to which calls
--   it was handed, not what they do to it. What is printed is not modelled.
-- - Tests: concrete queues, stacks, lists, trees, tables, boards, mailboxes and endpoints, at
--   which the theorems apply.
--
-- Not modelled: virtio_blk_driver (its README calls it a skeleton that is not intended to compile,
-- and virtio_blk.c uses variables and macros that nothing declares), qnx-apps (demonstrations that
-- are input and output), the scheduler and the queue round the tasks of tps6594_safertos.c, the
-- examples, and the printing of test.c. The bytes of an element are one value: no element is read
-- in part.
pub mod Prelude
pub mod Buffer
pub mod Queue
pub mod Stack
pub mod LinkedList
pub mod DoublyLinkedList
pub mod BinaryTree
pub mod HashTable
pub mod Pmic
pub mod Mailbox
pub mod MboxLib
pub mod PcieEp
pub mod Tests

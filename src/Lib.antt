-- ===== src/Lib.antt =====
-- The firmware of a nano quadcopter on Zephyr (src/ and includes/ of the repository), modelled as
-- functions on explicit states.
--
-- Parts, and how they interact:
--
-- * Key-value store. A table of items and holes in a byte memory.
--   Kve/Memory is kveMemory_t of includes/kve/include/kve_common.h: `read` and `write` are its
--   function pointers, `flush` (a NOP in src/storage.c) is left out. Kve/Storage has one function
--   for each of includes/kve/src/kve_storage.c (write_item for kveStorageWriteItem, find_end for
--   kveStorageFindEnd, ...), and Kve/Table one for each of includes/kve/src/kve.c (store for
--   kveStore, defrag for kveDefrag, ...). Below Kve/Storage, Layout says how a list of entries lies
--   in the memory, and Find, Scan, Write and Move what the functions do on such a memory. Kve/Spec
--   is the table as a list of entries, with `put`, `remove` and `lookup`; below Kve/Table each
--   operation is matched with it, and Kve/RoundTrip is what a client sees.
--   Loops run on fuel, `size + 1` rounds: each round of a search advances by an entry of at least
--   four bytes, and each round of a defragmentation leaves fewer entries behind the hole. `none` is
--   a call that never returns; on a valid table that is shown not to happen. Memories have fewer
--   than 65536 bytes (the firmware's has 7168), so that no address wraps and the lengths in the
--   table fit their 16 bits. `char` is unsigned, as on the ARM target.
--
-- * EEPROM. I2cdev is the register accesses of src/i2cdevInit.c over a bus, which is a parameter
--   (the driver of the real-time system): what an access does to the bus's state, and whether it
--   returned 0. Eeprom has one function for each of src/eeprom.c: write_buffer for
--   eepromWriteBuffer, with its loops take_page (a page filled), write_page (tries and polls) and
--   write_loop, which runs on `length + 1` rounds, as each page takes a byte. Eeprom/Pages is how a
--   buffer is cut, and Eeprom/Writes what the bus sees.
--
-- * Message queues. Msgq is the interface of k_msgq of the real-time system, with the laws of a
--   bounded first-in first-out queue as a record of hypotheses; Msgq/Lists instantiates it.
--
-- * Radio protocol. Crtp is src/crtp.c and includes/crtp.h: the variables of the module are the
--   record Crtp, over the states of a queue, of the link and of what the callbacks act on. The two
--   tasks are taken one round of their endless loops at a time, tx_round for crtpTxTask and rx_round
--   for crtpRxTask; the inner loop of the first runs on fuel, and the theorem on it has a link that
--   takes a packet within that number of tries. What the other threads do while the receive task blocks
--   on a full queue is a parameter. A port is an int, of either sign. A failed __ASSERT is `none`. Crtp/Tasks has the
--   theorems. The blocking variants of send and receive are not modelled.
--
-- * Console. Console is src/console.c, over the stack of Crtp, with the count of its semaphore: a
--   call that waits for it is `none`. Console/Blocked is about the semaphore; Console/Bounds and
--   Console/Stream are about the code that it guards, the buffer and the characters passed on.
--
-- * Commander. Commander is src/commander.c: setpoint_t with floats as a type parameter, the two
--   queues of one message, and the calls of the high-level commander as a parameter. Its times are
--   modulo 2 ^ 32, of two clocks: setpoints are stamped with the one and read with the other. Commander/Mailbox is a queue of one, Commander/Arbitration the priorities,
--   Commander/Watchdog the timeouts, and Commander/Packets src/crtp_commander.c with its theorems.
--   The decoders of setpoints that it calls are not in the repository and are parameters.
--
-- * Storage. Storage is readEeprom and writeEeprom of src/storage.c, which place the key-value store
--   in the EEPROM from 1024 on, over the driver; Storage/Partition is about their bounds. The guards
--   in front of the store (storageTest, storageStore, ...) are not modelled: the accesses of their
--   memory can fail, and those of Kve/Memory succeed.
--
-- * Configuration block. Config is src/configblockeeprom.c over the EEPROM driver, the block being
--   the list of its 21 bytes. Config/Upgrade is a block of version 0 brought to version 1, and
--   Config/Init the start-up.
--
-- * Application channel. AppChannel is src/app_channel.c, with the sending of src/platformservice.c
--   that it uses. AppChannel/Queue is its receive queue, AppChannel/Send what it sends. The
--   blocking variants are not modelled.
--
-- * High-level commander. HighLevel is the state of src/crtp_commander_high_level.c and its commands,
--   over a type of floats and the functions of includes/planner.h, whose sources the repository does
--   not hold: both are parameters. HighLevel/Handlers has one function for each handler
--   (handle_takeoff_2 for takeoff2, ...) and handle_command; HighLevel/Calls the casts of a packet's
--   bytes (command_of), the task (task_round) and the calls of the header (call_takeoff for
--   crtpCommanderHighLevelTakeoff, ...); HighLevel/Setpoints is crtpCommanderHighLevelGetSetpoint,
--   and HighLevel/Memory the trajectory memory, as the bytes from the array on. The mutex is left out: a
--   call is one step. HighLevel/Groups and HighLevel/Trajectories have theorems.
--
-- * Log. Log is the table of contents of src/log.c: the counting, numbering and look-up of the
--   variables, with Log/Toc on the numbering and Log/Items the replies of logTOCProcess. Log/Blocks
--   is the pool of 128 operations and the 16 blocks; a pointer is an index, or none for NULL.
--   log_append is both logAppendBlock and logAppendBlockV2, which differ in the settings that they
--   read. Log/Control is the rest of logControlProcess, over the calls of the timers, and log_packets
--   its rounds in logTask; Log/Run is logRunBlock, over what it uses of the machine and the radio.
--   The loops along a chain run on 129 rounds, for the pool has 128 operations; that of
--   logAppendBlock on as many rounds as there are settings and one. Log/Blocks/Shape is the invariant:
--   which operations each block holds. Below it, Counting, Chains and Links are about lists of
--   indices, and Append about logAppendBlock; Log/Control/Put, Safety and Process are about the
--   other calls, Log/Run/Packing about a packet, and Log/Run/Session about the log from its start.
--   Log/Readers is the calls that read one variable (logGetInt, ...).
--
-- * Radio link. Radiolink is src/radiolink.c, over its two queues: syslink_dispatch for
--   radiolinkSyslinkDispatch, and so on. Its receivePacket calls a function of another real-time
--   system and is not modelled. Radiolink/Delivery is a packet sent and delivered.
--
-- * Services. Services has a round of the tasks of src/crtpservice.c and src/platformservice.c, which
--   passes packets on to AppChannel; Services/Replies is about the replies with a text.
--
-- * Queue monitor. QueueMonitor is src/queuemonitor.c, and QueueMonitor/Counts what it counts.
--   Its counters are ints: `none` also stands for one that overflows.
--
-- Not modelled: src/worker.c, src/comm.c, src/system.c and src/watchdog.c, which call other parts and
-- the real-time system; src/controller.c and src/controller_pid.c, which compute with floats; the
-- drivers (src/i2c_twim.c, includes/drivers), which act on registers; and src/pm.c and src/led.c,
-- all of which is commented out.
pub mod AppChannel
pub mod Commander
pub mod Config
pub mod Console
pub mod Crtp
pub mod Eeprom
pub mod HighLevel
pub mod I2cdev
pub mod Kve
pub mod Log
pub mod Msgq
pub mod Prelude
pub mod QueueMonitor
pub mod Radiolink
pub mod Services
pub mod Storage

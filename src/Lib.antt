-- ===== src/Lib.antt =====
-- PD Buddy Sink firmware: a USB Power Delivery sink that negotiates a supply voltage with a
-- source and switches it to its output.
--
-- The program's parts and how they interact. lib/src/int_n.c polls the interrupt line of the
-- FUSB302B chip and passes its flags to the threads of the protocol layer: lib/src/protocol_rx.c
-- takes messages from the chip and posts them to the policy engine, lib/src/protocol_tx.c sends
-- the messages that the policy engine posts and answers each with TX_DONE or TX_ERR,
-- lib/src/hard_reset.c runs hard resets. The policy engine (lib/src/policy_engine.c) is the state
-- machine of the negotiation. What to request is decided by callbacks of the device policy
-- manager (src/device_policy_manager.c), which also switches the output and signals the LED
-- (src/led.c). The power profile comes from the configuration that src/config.c keeps in a page
-- of flash memory; it is set with the commands of src/shell.c.
--
-- Files.
-- Prelude passes on the library's names; its children are Boolean tests on native numbers, lists,
-- and code that may fault (an option, with `Ends` for "it returns, and what it returns is so").
-- Bits and Pd are lib/include/pd.h: mask-and-shift macros as fields of numbers, message types,
-- units; Bits.Xor has the laws by which an exclusive or is taken back.
-- Config is src/config.c: Flash is the page with config_cur and the controller's lock, and one
-- function each for flash_read, flash_update and flash_erase. Its children: Invariant, Update,
-- Roundtrip (what is read after an update, a reset, an erasure), Reads, Refinement (the page
-- against a store of one optional configuration), History (what becomes of the old entries),
-- Print (the lines that pdbs_config_print prints, and in ReadBack what they say of the settings).
-- Dpm is src/device_policy_manager.c: Sink is what its callbacks read and write; Request is
-- pdbs_dpm_evaluate_capability with Object (the fields of the request), Matching (which PDO is
-- chosen), Answer and Total (what is returned, and that it returns), Profile (a change of the power
-- profile); Output has the transitions and the Type-C current, Negotiation takes them together, SinkCap the Sink_Capabilities message (Objects and Contents: what a
-- source reads in it), Laws the theorems on currents and output.
-- Pe is lib/src/policy_engine.c: a handler for each state in Handlers, Messages and Ready, the
-- loop in Step. Agreement is about what makes a contract: the history of a run's rounds, and what
-- the source agreed to in it. DpmCallbacks is its interface to the DPM; Invariant has the laws
-- that the engine asks of a DPM and the invariant of each state, Safety the preservation, Runs
-- and Silence what follows for runs.
-- Prl is the protocol layer: Rx, Tx and HardReset are the three threads over the record Prl,
-- System runs them beside each other with the interrupts, Accounts and Delivery have the theorems
-- on runs, Filter those on series of received messages, Transmission those on a message sent.
-- Firmware is the table of callbacks in src/main.c: Laws is about what they keep, Safety about
-- runs of the policy engine with them, Output, Ready, Sending and Powered about the output line
-- in such runs, Contract about that line and what the source agreed to.
-- Shell is src/shell.c: the commands that change the settings, the page or the output, each with
-- its argument checks; Line is the line editor, Words the tokenizer, Session the loop of
-- pdbs_shell from the typed characters to the state; Range has the accepted settings and what
-- each command on the buffer keeps, Commands and Session.Sound the theorems on sessions; Print
-- has the commands that list PDOs and settings, and in ReadBack what a reader gets back from the
-- lines.
-- Fusb is lib/src/fusb302b.c: the driver over a chip that answers I2C transfers; Regs has the
-- register numbers, Chip what the data sheet says of the FIFOs and registers, Message, Receive
-- and Wire are about messages through the FIFOs and from one chip to another, Setup about
-- fusb_setup, Mutex about the bus.
-- Usb is src/usbcfg.c: the descriptors, and what the USB driver is told; Layout has the laws of
-- the USB driver's macros and how a host reads the descriptors.
-- Main is src/main.c: sink with its button loop, beside the DPM's reading of the profile.
-- Led is src/led.c: its events, the Thread and what its Modes show. Each Tests file holds
-- concrete data and instances.
--
-- How code corresponds to definitions. Structs are records, enums are data types, a handler is a
-- function of the same name that takes the state and returns the next machine state and the
-- state. A fault (a read through NULL or through a freed pointer, a division by zero) is `none`.
-- Words are native numbers, and fields of words are quotients and remainders. Pointers into
-- arrays are indices. Event flags are Booleans: in Pe a handler is given the flags with which its
-- waits return, in Prl they are pending flags that other threads set and that a wait clears, and
-- a wait without a flag leaves everything as it is. A handler that yields is two steps, so that
-- any other thread can run between them. In Prl the mailbox to the transmit thread and the message in
-- transmission are pointers, NULL, live or dangling; the policy engine's part there is to post a
-- message and to give it back. A run is Orderly if each receipt finds a buffer, each message posted a
-- place in the mailbox, and no message is given back while it is queued or in transmission.
--
-- Bounds. The loop over a line's words recurses on the arguments that still fit. The loops over
-- PDOs recurse on the number of objects (at most 7), those over the flash page on the list of its
-- 128 entries; no loop needs fuel. A host's reading of USB descriptors takes the count of the
-- bytes for its rounds, since a descriptor has two at least. The loops of the threads are runs
-- over finite lists of inputs of any length.
--
-- What stands for code that is not in the repository. The flash controller is the record FlashHw:
-- programming an erased halfword stores it, programming zero clears any halfword, and erasing
-- resets the page. ChibiOS's events, mailboxes and pools are modelled by their documented
-- behaviour: a full mailbox takes no message, and an empty pool has no buffer to give; the answers of the chip are inputs. Not a parameter but an interface between two
-- parts are DpmLaws, which Pe takes as an argument and Firmware fills for the callbacks of
-- src/device_policy_manager.c. strtol is an argument of the shell's session, and the record Libc
-- is what it and strcmp say of an argument of a command. The USB driver's macros for descriptors
-- are the record UsbDesc, with HasLayout for the USB specification. The FUSB302B is a function
-- from I2C transfers to answers, with the records HasFifos and HasRegisters for its data sheet; a
-- second thread's use of the bus is excluded by the I2C driver's mutex, so the driver's functions
-- are each one step.
--
-- Not modelled: the licence, help and usage texts of the shell, setup of main.c, which is never
-- called, the display driver, the bootloader, and board files.
pub mod Prelude
pub mod Bits
pub mod Pd
pub mod Config
pub mod Led
pub mod Dpm
pub mod Pe
pub mod Prl
pub mod Firmware
pub mod Shell
pub mod Usb
pub mod Fusb
pub mod Main

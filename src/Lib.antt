-- ===== src/Lib.antt =====
-- Verification of xhyve-manager.
--
-- xhyve-manager is a tool that creates, configures and starts virtual machines, built around xhyve,
-- a hypervisor for macOS. The tool (src/xhyve-manager.c) keeps the configuration of a machine in an
-- INI file and starts xhyve with arguments made from it. xhyve runs the virtual CPUs and emulates
-- the devices that the guest sees. A device is reached by port or memory accesses of the guest,
-- which the CPU loop hands to its handlers, by the event loop when input arrives, and by the other
-- devices: a device asserts an interrupt line, the interrupt controllers turn the line into a
-- vector, and the local APIC delivers it.
--
-- The files, each named for a part of the program:
--
-- Base: comparisons, C arrays, the bits of words and C's int, shared by the components. A word of w
-- bits is a number below 2 ^ w, with masks and wrap-around written out.
--
-- Vatpic (src/vmm/io/vatpic.c): the two cascaded 8259A controllers. Vatpic/Chip has struct atpic,
-- the two scans over its pins, the move of a pin (from vatpic_set_pinstate) and
-- vatpic_pin_accepted; Vatpic/Command the ICW and OCW command words; Vatpic/Device struct vatpic
-- with vatpic_notify_intr and vatpic_set_pinstate, the calls of the virtual machine and the port
-- handlers, under their names without the prefix vatpic_.
--
-- Uart (src/uart_emul.c): the 16550 serial port. Uart/Fifo has struct fifo with rxfifo_reset,
-- rxfifo_putchar and rxfifo_getchar, and the loop of uart_drain; Uart/Device has struct uart_softc,
-- uart_write and uart_read with one definition per larger register case, uart_drain and the
-- interrupt line; Uart/Backend has uart_legacy_alloc and uart_set_backend. The terminal behind the
-- port is part of its state, as the bytes that wait and those that were written.
--
-- Vioapic (src/vmm/io/vioapic.c): the I/O APIC. Vioapic/Device has the redirection table with
-- vioapic_send_intr, vioapic_set_pinstate, vioapic_write, vioapic_process_eoi and the others, under
-- their names.
--
-- Vatpit (src/vmm/io/vatpit.c): the 8254 timer. Vatpit/Device has struct channel and struct vatpit
-- with the port handlers and the functions that they call, under their names; the clock is an
-- argument of each call, and the callout of channel 0 is the time that it is set to.
--
-- Vrtc (src/vmm/io/vrtc.c): the real-time clock. Vrtc/Calendar has leapyear, clock_ct_to_ts and
-- clock_ts_to_ct, with their loops in Vrtc/Loops; Vrtc/Registers struct rtcdev with rtcset, rtcget,
-- secs_to_rtc and rtc_to_secs; Vrtc/Device vrtc_curtime, vrtc_time_update, the setters of the
-- control registers and the callout; Vrtc/Ports the port handlers and the other calls, all under
-- their names. The clock of the host and the uptime are arguments of each call, the callout is the
-- interval that it is set to, and the registers are bytes by their offset in struct rtcdev.
--
-- Vlapic (src/vmm/io/vlapic.c, with struct vlapic in include/xhyve/vmm/io/vlapic_priv.h, and
-- src/vmm/vmm_lapic.c): the local APICs. Vlapic/Vectors has the sets of vectors and the scan for
-- the highest; Vlapic/Device struct vlapic with vlapic_update_ppr, vlapic_process_eoi,
-- vlapic_pending_intr, vlapic_intr_accepted and the task priority; Vlapic/Lvt the local vector
-- table, the errors and the timer; Vlapic/Access vlapic_read and the writes of a register;
-- Vlapic/Reset the trigger modes, vlapic_reset and vlapic_init; Vlapic/Ipi vlapic_calcdest,
-- lapic_set_intr, vlapic_icrlo_write_handler and vlapic_write on all the local APICs of a machine;
-- Vlapic/Lapic vlapic_deliver_intr and the calls of vmm_lapic.c, all under their names. vlapic->ops
-- is empty, as the VT-x backend leaves it, the clock is an argument, an outcome of none is
-- xhyve_abort, and a physical x2APIC destination of 2^31 or more, for which vlapic_calcdest writes
-- outside of its set of CPUs, names none. In Vlapic/Runs a CPU accepts the vector that
-- vlapic_pending_intr reports, as vmx_inject_interrupts does; in Vlapic/Startup an INIT or a
-- startup interrupt is a write of the command register with the modes that an operating system
-- uses.
--
-- Manager (src/xhyve-manager.c and include/xhyve-manager): Manager/Config has the fields of
-- config.def, the handler for the INI parser, and the writing and loading of a configuration;
-- Manager/Launch the arguments that start_machine builds; Manager/Commands the dispatch of
-- parse_args, with the end of create_machine, as the actions taken. The structure of a machine is
-- the list of its fields in the order of config.def, as the macro CFG makes it.
--
-- State and calls: a device is a record with the fields of its C structure, and a function that
-- changes it returns the new record. Every function of a device holds the device's lock throughout,
-- so a call is one step and an interleaving is a sequence of steps; the exception is vioapic_write,
-- which releases the lock for a rendezvous, and takes what others do there as a parameter. Calls of
-- another device are recorded in the state (LINT0 and the I/O APIC pulse of the 8259A pair, the
-- delivery and the rendezvous of the I/O APIC, the vectors that a local APIC ends), as a count of
-- interrupts (the timer and the clock), or as the level of a line (the serial port). A handler's
-- error is a status or an option. Numbers are natural numbers; an int that may be negative is an
-- integer, without its overflow.
--
-- Bounds and fuel: the scans over the pins of an 8259A go through 8 pins from the one after the
-- lowest priority; vatpic_notify_intr, which calls itself through vatpic_set_pinstate, is two
-- levels of calls, as a second one finds the interrupt of the slave raised; vlapic_set_error, which
-- calls itself through vlapic_fire_lvt and vlapic_set_intr_ready, is two levels too, as it fires
-- nothing while an error is being fired; the scans of the local APIC go through the 8 words and the
-- 256 vectors of a set; the flush of the terminal has one more turn than there are bytes, and each
-- turn takes 32 or is the last; the loop of the I/O APIC goes through its 24 entries; the calendar
-- subtracts out at most one more year than there are days, and at most 12 months; the loop of
-- vrtc_time_update takes its fuel from the caller, and a call that needs more has no outcome.
--
-- Parameters: the INI parser (src/ini, a copy of inih) is a function with its documented behaviour
-- as a hypothesis, which is about plain lines only (Manager/Plain), as inih cuts long lines and
-- comments, and the answers of the host to uart_set_backend (open, isatty, fcntl, grantpt,
-- unlockpt, ptsname) are given as a record.
--
-- Not modelled: the dialogue of create_machine, the editor, disk creation and boot image
-- extraction, which are terminal input and child processes; the other timers (HPET, PM), the PCI
-- bus and its devices, virtio and AHCI, the memory map, instruction emulation, the VT-x backend and
-- the loaders; locking, tracing and the freeing of memory.
pub mod Base
pub mod Manager
pub mod Uart
pub mod Vatpic
pub mod Vatpit
pub mod Vioapic
pub mod Vlapic
pub mod Vrtc

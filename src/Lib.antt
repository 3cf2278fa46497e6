-- ===== src/Lib.antt =====
-- sc-platform: a library of SystemC modules for a simulated computer, with initiators and targets on a
-- bus, a clock that computes its edges, and timers.
--
-- A bus (bus/bus.cpp) takes the map of its targets from a memory map (bus/memory_map.cpp), asks each
-- target for its name and size, and then passes transactions on by address. The targets, a memory
-- (memory/memory.cpp) among them, check a transaction, serve it, and answer debug transport with their
-- configuration (config/configuration.cpp). With an approximately timed initiator they exchange phases.
-- A timer (timer/timer_beh.cpp) and a clock (no_clock/no_clock.cpp) tell the time of what follows; a
-- bank of timers stands behind registers (timer/timer.cpp), and so does a UART (uart/uart.cpp).
-- Interrupts are queued on a channel (interrupt/interrupt.hpp), which a controller (interrupt/pic.cpp)
-- takes them from and passes on to the processors it knows. A processor (cpu/cpu.cpp) reads and writes
-- words over the bus, in either style, and may keep regions of memory that it reaches without it. The
-- transactions of the initiators come from a pool (utility/memory_manager.hpp). Pins (gpio/gpio.cpp)
-- and a stub without contents (top/stub.cpp) are further targets.
--
-- Which file models what:
--   Prelude, Common    lists, numbers, how a call ends; common/common.hpp and the generic payload
--   Bus.Map            Memory_map::get_address_map, and the map whose keys descend
--   Bus.Check          Bus_module::check_port_map_and_update_configuration
--   Bus.Decode         Bus_module::decode_address and mask_if_fits
--   Bus.Reconstruct    Bus_module::reconstruct_address
--   Bus.Build          Bus_module::build_port_map
--   Bus.Route          the forward and backward interfaces of Bus_module; Bus.Route.Laws of them
--   Bus.Debug          configure, transport_dbg and start_of_simulation of Bus_module; Bus.Debug.Probing
--   Config             Configuration, with Config.Laws; Config.Equality and Config.Compare its comparison
--                      and copies
--   Memory             Memory_module: Safety, Contents, Debug, Image and Refinement of it
--   Handshake          targ_peq_cb and the processes behind it, with Handshake.Stall; Handshake.Device
--                      joins them to what a module executes, and Gpio.Nonblocking, Pic.Nonblocking,
--                      Stub.Nonblocking, TimerModule.Nonblocking and Uart.Nonblocking are its copies
--   Kernel             what the timer and the clock rely on in SystemC, as records of operations and laws
--   Timer              Timer, with Timer.Laws, Timer.Period and Timer.Faults
--   Interrupt          Interrupt_channel: Interrupt.Order and Interrupt.Wake of it (interrupt/interrupt.hpp)
--   Bus.Find           find_target_info, find_address, find_irq: Ranked, Entries, Enough, Missing of them
--   Pool               Memory_manager (utility/memory_manager.hpp), with Pool.Exclusive
--   Registers          the checks, configuration and debug transport that the modules with registers repeat;
--                      Registers.Laws, and Pic.Debug, TimerModule.Transport, Uart.Transport that use them
--   TimerModule        Timer_module (timer/timer.cpp), with Actions, Transport and Thread; Access, Bounds,
--                      Safety, Control, Starting of them
--   Uart               Uart_module (uart/uart.cpp), with Actions, Transport and Faults; Uart.Parity is
--                      uart/parity.cpp
--   Pic                Pic_module (interrupt/pic.cpp), with Pic.Actions and Pic.Transport; Next, Faults of them
--   Gpio               Gpio_module (gpio/gpio.cpp), with Actions, Thread and Transport; Pins, Faults of them
--   Stub               Stub_module (top/stub.cpp), with Stub.Timing
--   Cpu                Cpu_module (cpu/cpu.cpp): its statistics; Cpu.Dmi the table of regions, with
--                      Invalidation; Cpu.Loosely and Cpu.Approximately the two styles of transport;
--                      Cpu.Words, Cpu.Summary, Cpu.Platform and Cpu.Waiting of them
--   Clock              no_clock, with Clock.Times for the edges; Delay, Edges, Levels, Count of them
--   Tests              concrete inputs
--
-- A number of w bits is a native number that each operation which may leave the width reduces. A call
-- ends as an `Outcome`: it returns, it aborts (sc_assert, assert, a fatal report), or its behaviour is
-- not defined by the language, as where a vector or a socket is indexed out of range. Reports below
-- fatal are left out. Each recursion is on a list or a number of rounds, but for the search of the
-- memory map (Bus.Find), which calls itself for routers and runs on fuel: more than the length of the
-- path times the number of ranks of the routers is enough where they form no cycle. The loop that erases
-- regions (Cpu.Dmi) runs on the table's size, of which each round uses up one.
--
-- A part that is not under this repository is a parameter: the answers of bound modules, the events of
-- the kernel (`EventKernel`), and arithmetic on double (`TimeArithmetic`), exact below 2^52 units.
--
-- Not modelled: printing and reports, YAML, sockets and threads of the operating system, and the tasks
-- that only generate traffic. The mailbox (mailbox/mailbox.cpp) defines the members of the memory
-- module again and does not compile; the DMA, the MMU and the filter of exclusive accesses have no
-- bodies yet.
pub mod Prelude
pub mod Common
pub mod Bus
pub mod Config
pub mod Memory
pub mod Gpio
pub mod Handshake
pub mod Stub
pub mod Kernel
pub mod Timer
pub mod Clock
pub mod Cpu
pub mod Interrupt
pub mod Pic
pub mod Registers
pub mod TimerModule
pub mod Pool
pub mod Uart
pub mod Tests

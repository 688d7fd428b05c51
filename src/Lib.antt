-- ===== src/Lib.antt =====
-- Verification of the TASTE SAMV71 RTEMS runtime: the C code that TASTE applications for the
-- SAMV71 are linked with, on top of RTEMS.
--
-- Parts and files. A definition is named after the C function it models, without the prefix of its
-- module and in lower case.
-- - Common: lists over native numbers (C arrays), unsigned words with their wrap-around, `int32_t`,
--   bit operations and masks, and `Double`, an interface for floating-point numbers with an instance.
-- - Rtems: the calls of RTEMS that the runtime makes, as an interface over a state `World`;
--   Rtems.Recorder is an instance that records the calls.
-- - Hal (src/Hal/Hal.c): Hal.Time is the software and hardware counter that
--   `Hal_GetElapsedTimeInNs` reads while interrupts arrive; Hal.Semaphores the semaphores;
--   Hal.Watchdog the watchdog's set-up; Hal.Init the whole of `Hal_Init`.
-- - SamV71Core (src/SamV71Core/SamV71Core.c): SamV71Core.Clock derives the main clock's frequency
--   from the clock configuration; SamV71Core.Cache makes regions uncached and generates names;
--   SamV71Core.Start is the whole of `SamV71Core_Init`.
-- - Monitor (src/Monitor/Monitor.c): Monitor.Log is the activation log, a cyclic buffer, whose update
--   Monitor.Log.Preempted takes statement by statement in tasks that preempt each other;
--   Monitor.Queues the counts of queued items, with `ThreadsCommon_SendRequest`; Monitor.Stack the
--   stack usage; Monitor.Cpu the idle CPU usage.
-- - ThreadsCommon (src/ThreadsCommon/ThreadsCommon.c): ThreadsCommon.Cyclic are the timers of cyclic
--   interfaces; ThreadsCommon.Requests the processing of a request, which writes to Monitor.Log and
--   measures by the clock of Hal.
-- - FaultHandler (src/FaultHandler): FaultHandler.Crc and FaultHandler.Report are the checksum and the
--   death report of DeathReportWriter.c; FaultHandler.Entry the instructions of `Fault_Handler` in
--   FaultHandler.c with an interpreter, and FaultHandler.Tail its C part, joined to the report;
--   FaultHandler.Vectors the table of CustomExceptionVector.c and `FaultHandler_Init`.
-- - Xdmac (src/Xdmac): Xdmac.Table is the table of peripherals of xdma_hardware_interface.c;
--   Xdmac.Registers the registers of component_xdmac.h and the functions of xdmac.c on a controller
--   that is an interface (Registers.Device, with an instance that keeps words in Device.Memory);
--   Registers.Config the fields of the channel configuration, with the macros of xdmac.h, and
--   Registers.Descriptor the control word and the members of the descriptors of a linked list;
--   Xdmac.Channels the allocation and release of channels of xdmad.c; Xdmac.Driver its other
--   operations: Driver.Setup, Driver.Transfer, Driver.Handler, Driver.Cycle with all of them in the
--   order of one transfer, and Driver.Edges with the states of a channel as a machine.
-- - BootHelper and BrokerLock (src/BootHelper/BootHelper.c, src/BrokerLock/BrokerLock.c).
--
-- State and errors. The static variables of a C file are a record, an operation takes it and returns
-- the new one; a call of RTEMS or of a driver changes the state of its interface. A failed assertion
-- is `none`. Registers and drivers of the board support package, RTEMS, the user's function, memory
-- contents and linker symbols are parameters; what the code relies on are fields or hypotheses with
-- the documented behaviour. Interrupts during a clock reading with the resets of the flag by other
-- readers, and the rest of the system between two timer callbacks or two sends, are given in a list of
-- steps; what other tasks do within a send or while the user's function runs is a function. Where tasks
-- preempt each other on the activation log a schedule is the list of the tasks that run, for one
-- statement each, or one half of the counter's increment. A channel's parameter register keeps of a
-- write the fields that software can write; its progress in a transfer is not part of the model.
--
-- Bounds and fuel. Numbers are natural and every wrap-around of the C code is written out. The loop of
-- the clock reading runs over the rounds that the environment gives, and `none` says that they are
-- used up; one round without an interrupt ends it. The search of the stack has one round per word and
-- one to see the end. The loop of the DMA interrupt handler has 32 rounds, the greatest number of
-- channels that the controller's type register can hold; the wait for a flush has as many rounds as its
-- caller gives. All other loops are recursion on the number of rounds left or on a list.
--
-- Not modelled: the constants of src/Xdmac/component_xdmac.h for the single channels in the registers of
-- the controller and the masks of status fields that no code of the library reads,
-- `SamV71Core_GetMainClockFrequency`, `Hal_GetResetReason` and `DeathReportWriter_Init`, which return a
-- variable, the result of another function and a constant, the generated src/Mocks except for its
-- types, and the configuration macros of src/app/main.c. The processor's own entry to an exception,
-- which fills the frame, and its instructions beyond those of `Fault_Handler` are taken as they are.
pub mod Common
pub mod Rtems
pub mod Hal
pub mod Monitor
pub mod FaultHandler
pub mod SamV71Core
pub mod ThreadsCommon
pub mod Xdmac
pub mod BootHelper
pub mod BrokerLock

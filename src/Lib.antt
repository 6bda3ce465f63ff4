-- ===== src/Lib.antt =====
-- The firmware of the smartphone robot's RP2040 board, as a library of definitions and theorems.
--
-- The firmware answers a phone on a serial link, drives two motors, and watches a battery gauge, a
-- battery charger, a USB-C controller and a wireless charger on two i2c busses. Interrupts run on
-- core 0 and queue the work for core 1.
--
-- Files, with the code that they model:
-- - Base, Bits: numbers, lists, Booleans, and the bits of a natural number; no code of the firmware.
-- - BitOps: src/bit_ops.c, each function on 32-bit patterns with its result cut to a byte.
-- - Log: src/rp2040_log.c; CircularBufferLog is the static buffer, and rp2040_log,
--   rp2040_log_flush and rp2040_get_byte_count are the functions of these names. Log/Lines has the
--   well-formedness, Log/Order the order of the lines, Log/Sequence any number of calls, Log/Count the
--   byte count.
-- - Board: what the Pico SDK and the devices answer (Hardware, a parameter), the static memory of all
--   modules (World) and the monad M in which the drivers run. Board/Sdk has the calls as events,
--   Board/I2cRetry and Board/Queue the functions of src/robot.c that the drivers share, Board/Retries
--   what the retries do, Board/Bus a bus that acknowledges, Board/Keeps rules for invariants.
--   Board/Wait has the loops that wait for a flag, Board/Waits which of them end, Board/Calm the
--   predicates that most drivers leave alone, Board/Gives rules for what a run returns.
-- - Motor: src/drv8830.c. Gauge: src/bq27742_g1.c. Wireless: src/ncp3901.c and src/STWLC38JRM.c.
--   Charger: src/max77976.c. Each has its static variables in its State, its self tests in its
--   SelfTest, and its theorems in a child. Motor/Scope is the DRV8830_SCOPE_TEST build.
-- - Usb: src/max77958.c and include/max77958.h. Usb/Transfer has the shared buffers, Usb/Opcode the
--   commands and their queue, Usb/Status what the cable reports, Usb/Irq the interrupt, its parser and
--   the set-up, Usb/SelfTest the self tests and the shutdown, Usb/Laws the theorems.
-- - Robot: get_state and set_motor_levels of src/robot.c with the functions that they call, and the
--   encoder count of src/quad_encoders.c; Robot/Untouched shows what these leave alone, Robot/Devices
--   what is read from devices that hold still, Robot/Collected the state that get_state makes of it.
--   Robot/Dispatch has robot_interrupt_handler, and call_queue_pop with every function that an entry of
--   call_queue can name; its children run any sequence of interrupts and entries. Robot/Scan is
--   i2c_scan, Robot/Endings the self tests that end. Robot/Start has on_start, robot_unit_tests and
--   on_shutdown, Robot/Main main, Robot/Waits when the last two of Robot/Start do not end.
-- - Encoders: quad_encoder_update and encoder_init of src/quad_encoders.c. Peripherals: src/max77857.c,
--   src/sn74ahc125rgyr.c and src/interupts.c.
-- - Comm: src/serial_comm_manager.c and include/serial_comm_manager.h; Comm/Packet has the packed
--   bytes, Comm/Wire reads them back, Comm/Report follows the state from the devices to the link,
--   Comm/Frames, Comm/Commands, Comm/Output and Comm/Ready have the theorems.
-- - Tests: a board and a world at which the theorems are applied.
--
-- How the code reads here: a function of the firmware is a function from the world to an outcome,
-- `ok` with a result and the new world, or `assert_failed`, which stops the Debug build. Every call of
-- the SDK is added to the world's trace, newest first, and its answer is a function of that trace, so
-- a device may answer in any way over time. Numbers are naturals, with `% 2 ^ w` where the code wraps
-- at w bits; a signed index is kept as its bit pattern. The text that a format string expands to is a
-- parameter.
--
-- Bounds and fuel: the log has 1028 lines of 128 characters. The loop that reads a frame runs on fuel
-- 4, three bytes and the test that ends it. A loop of a self test runs on the fuel that it is given; 1001
-- is enough for those that assert, while those of src/max77958.c have no bound of their own. What
-- interrupts and core 1 do during a sleep of such a loop is a function of the world, a parameter. The
-- loop of core 1 runs on fuel too. The other loops recurse on a list or a fixed count.
--
-- Not modelled: the builds with BOARD_PICO or LOGGER_UART, PIO programs and tools. The constants of
-- max77958_driver.h are in a submodule, and a parameter (Usb/Header); C's floating-point numbers are one
-- too (Motor/Voltage). Outside the sleeps, interrupts are not interleaved inside a function: a run is a
-- sequence of whole handlers.
pub mod Base
pub mod Bits
pub mod BitOps
pub mod Log
pub mod Board
pub mod Motor
pub mod Gauge
pub mod Wireless
pub mod Charger
pub mod Comm
pub mod Usb
pub mod Encoders
pub mod Peripherals
pub mod Robot
pub mod Tests

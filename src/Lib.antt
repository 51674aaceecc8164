-- ===== src/Lib.antt =====
-- A model of swbt-rs, a library that acts as a Nintendo Switch controller over Bluetooth.
--
-- A host sends output reports; the library answers subcommands with 0x21 replies and sends 0x30
-- input reports that carry the state of a controller. `crates/swbt-core` computes all bytes and
-- `src/runtime` decides when they are sent.
--
-- The files and the code that they model, with paths from the root of the repository:
--   Base, Base/*            no code: tests and lists over native numbers, arrays, binary digits,
--                           Rust's `Result`
--   Error                   crates/swbt-core/src/error.rs: categories and chained errors
--   Model/Button, Spec,     crates/swbt-core/src/model: the button codes, the tables of the three
--     Wire, Hid             models, the lookups in them, the descriptors
--   Profile/Colors          crates/swbt-core/src/profile/colors.rs
--   Input/*                 crates/swbt-core/src/input: sticks, button sets, IMU frames, states
--   Controller/Input        src/controller/input.rs: press, release and tap
--   Protocol/OutputReport   crates/swbt-core/src/protocol/output_report.rs: the parser
--   Protocol/InputReport    crates/swbt-core/src/protocol/input_report.rs: the 0x30 report
--   Protocol/Imu, PutBits,  crates/swbt-core/src/protocol/imu.rs: both formats of the IMU block
--     Floats
--   Protocol/Session        crates/swbt-core/src/protocol/session.rs
--   Protocol/Spi            crates/swbt-core/src/protocol/spi.rs: the virtual flash
--   Protocol/Subcommand     crates/swbt-core/src/protocol/subcommand.rs: the replies
--   Protocol/Facade         crates/swbt-core/src/protocol/facade.rs: `prepare_input_report` and
--                           `prepare_subcommand`
--   Runtime/Scheduler       src/runtime/scheduler.rs: the deadline of periodic reports
--   Runtime/Lifecycle       src/runtime/lifecycle.rs: the life of a runtime
--   Runtime/Connection      src/runtime/connection.rs: the subcommands seen so far
--   Runtime/Sender          src/runtime/sender.rs: preparing, sending and committing reports
--   Runtime/Sessions        src/runtime/session.rs, state.rs: session identifiers, input store
--   Runtime/Clock           src/runtime/clock.rs: times and deadlines
--   Runtime/Transport       src/runtime/transport/mod.rs: events, errors and the port
--   Runtime/Output          src/runtime/output.rs: the handling of one output report
--   Runtime/Periodic        src/runtime/periodic.rs: automatic reports, the holdoff, taps
--   Runtime/Direct          src/runtime/direct.rs: input that the transport accepts first, taps
--   Runtime/Handshake       src/runtime/handshake.rs: bootstrap reports until the host answers
--   Runtime/Readiness       src/runtime/readiness.rs: when a connection is ready
--   Runtime/Cleanup         src/runtime/cleanup.rs: the phases of a close
--   Runtime/Command         src/runtime/command.rs: the queue of commands and its answers
--   Runtime/Worker/Types,   src/runtime/worker.rs: commands, errors and progress; the interface of
--     Reporting,            the reporting modes and its two implementations; the worker's state and
--     PeriodicReporting,    operations (Core), events, connection and ends (Drive), one step of it
--     DirectReporting,      (Step), its start (Open). Lawful and Tally hold no code: the laws of a
--     Core, Drive, Step,    reporting mode, and the account of the commands taken, answered and
--     Open, Lawful, Tally   pending
--   Examples,               the theorems at concrete inputs
--     RuntimeExamples
--
-- A function keeps its name. The phantom model type of `InputState<M>` and the like is an argument
-- of type `ControllerKind`. A method on `&mut self` takes the old value and returns the new one.
-- Bytes and machine words are natural numbers, with the reduction modulo 2 ^ w written where the
-- code wraps; an array is a list with its size in the definitions; a `Duration` is its number of
-- nanoseconds. A signed 16-bit value is its two's complement. A floating point number is its bit
-- pattern, and the operations of `f64` are the parameter `F64Ops`, about which nothing is assumed.
-- The transport is a parameter: the record `TransportPort` of operations on its own state, each with
-- a result or an error. The worker's step also reads a clock, a shutdown signal and a command channel;
-- they act on the same state, so that what another thread does between two readings is part of the
-- parameter. A panic of the worker is a value of its progress (`panicked`) or of the evaluation
-- (`expect_failed`).
-- Loops are structural recursion over the rounds or the elements left, so that no fuel is needed.
--
-- Not modelled: messages and formatting of errors, conversions from floating point input, JSON
-- profiles and their files, the Bluetooth transport, the thread of the worker, its wake up,
-- and the view for diagnostics (`status`, `observe_output`), which nothing else reads.
pub mod Base
pub mod Controller
pub mod Error
pub mod Input
pub mod Model
pub mod Profile
pub mod Protocol
pub mod Runtime
pub mod Examples
pub mod RuntimeExamples

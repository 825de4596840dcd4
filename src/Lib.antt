-- ===== src/Lib.antt =====
-- A model of dot15d4, an IEEE 802.15.4 stack in Rust, and theorems about it.
--
-- The program's parts. The driver crate (dot15d4-driver/src) reads and writes frame headers in
-- byte buffers, lays frames out in radio buffers, and decides while a frame is still being
-- received whether it is for this device. It turns tasks into transitions of the radio's states.
-- The MAC crate (dot15d4/src) has the driver service, which runs the requests of the MAC's tasks on
-- the radio and answers them over a channel, and schedules slots by time-slotted channel hopping
-- (TSCH). The frame crate (dot15d4-frame/src) builds and parses frames; the utilities
-- (dot15d4-util/src) have the channel, the mutex and the allocator of buffers. Time is kept in ticks
-- of a timer frequency.
--
--  * Base: tests and lists over native numbers, bit fields, integers, and `Outcome`, the result
--    of code that may panic.
--  * Containers: vectors and deques of heapless and the bit maps of bitmaps as interfaces, with
--    what the code relies on of them, and Containers/Listed: instances, by lists and functions.
--  * Channel: dot15d4-util/src/sync/channel, which passes requests from senders to receivers and
--    responses back. The state is in Channel (state.rs), its methods in Channel/Slots, those of
--    `Sender` in Channel/Sender, of `Receiver` in Channel/Receiver, and the removal from the middle
--    of a deque (util.rs) in Channel/Removal. Channel/Phases reads the phase of a slot off the
--    state (available, allocated, pending, receiving, answered) and has what each operation does to
--    it; Channel/Calls has the calls with the tokens they need.
--  * Allocator: dot15d4-util/src/allocator.rs, pools of buffers and the tasks that wait for one.
--    Allocator/Ownership has who owns the buffers, Allocator/Allotment what the calls do to it.
--  * Radio: dot15d4-driver/src/tasks.rs, the tasks of a radio driver and the transitions between its
--    states. Radio/Completion has how a transition between lawful states completes, Radio/Contracts
--    what the tasks promise.
--  * Driver: dot15d4/src/driver.rs, the driver service. Driver/Calls has what its handlers share,
--    Driver/Receiving, Driver/Sending and Driver/Loop the handlers and the event loop. Driver/Laws is
--    what it relies on; Driver/Books accounts for requests and buffers; Driver/Invariant is kept by the
--    handlers in Driver/Receptions, Endings, Transmissions and Acknowledgements, and by the loop in
--    Driver/Turns and Driver/Runs.
--  * Mac: the tasks of the data service, dot15d4/src/mac/task.rs and mcps/data.rs (Mac/Data).
--    Mac/Data/Requests has them against the driver service, Mac/Data/Indications against the allocator.
--  * Nrf: dot15d4-driver/src/socs/nrf/radio.rs, what the states of the nRF radio run and how they are
--    entered. Nrf/States compares that with what the driver service relies on.
--  * Mutex: dot15d4-util/src/sync/mutex.rs. Mutex/Sharing follows who holds it and who waits.
--  * Mpdu: dot15d4-frame/src, with its default features. Mpdu/Security and Mpdu/Elements have the
--    lengths of the security fields and of information elements (repr/security.rs, repr/ies.rs),
--    Mpdu/Repr the structure of a frame and its length (repr/mpdu.rs), and Mpdu/Ranges where its
--    fields are (fields/field_ranges.rs) when it is built and when it is parsed (fields/mpdu.rs).
--  * Time: dot15d4-driver/src/time.rs, `Instant` and `Duration`. Time/Instants has the laws of
--    differences, Time/Rounding those of conversions between frequencies.
--  * Frame/Modes and Frame/Control: dot15d4-driver/src/frame/frame_control.rs, the frame control
--    field with its getters and setters; Control/Header has its sixteen bits as a record.
--  * Frame/Addressing: dot15d4-driver/src/frame/addressing.rs. Addressing/Repr says which
--    addressing fields a frame has, Addressing/Fields reads them from a buffer, and
--    Addressing/PanIds has the PAN IDs.
--  * Frame/Filter: `fc_and_addressing_repr` of dot15d4-driver/src/frame/radio_frame.rs,
--    `preliminary_frame_info` of dot15d4-driver/src/socs/nrf/radio.rs and
--    `is_frame_valid_and_for_us` of dot15d4-driver/src/frame/utils.rs, which use the two above.
--  * Frame/Radio: `RadioFrameRepr` of dot15d4-driver/src/frame/repr.rs (Radio/Described) and
--    `RadioFrame` of dot15d4-driver/src/frame/radio_frame.rs (Radio/Buffered).
--  * Tsch/Asn: dot15d4/src/mac/tsch/asn.rs, 40-bit slot numbers as a low u32 and a high u8.
--  * Tsch/Schedule: dot15d4/src/mac/tsch/schedule.rs, slotframes with their links, and the search
--    for the next slot that has one. It uses Tsch/Asn and two bounded vectors.
-- The modules called Examples apply theorems to concrete inputs.
--
-- How the code is modelled. A method that changes its object is a function that returns the new
-- object; one that may panic returns an `Outcome`. Arithmetic is that of a release build: it wraps
-- at the width of its type, and `debug_assert!` is not there; a debug build panics where a sum
-- leaves its type. A buffer is the list of its bytes. The loop of `next_active_slot` runs on
-- fuel, and 2 ^ 40 rounds, one for each slot number, are enough for it.
--
-- A task that polls is the number of its waker, and the list of the tasks that were woken is part of
-- the state of a channel. An asynchronous function is the function of its polls. Tokens, which cannot
-- be copied, are the numbers of their slots: that a caller has a token is the hypothesis that the slot
-- is in the phase that the token stands for.
--
-- What is a parameter: `heapless::Vec`, `heapless::Deque`, `bitmaps::Bitmap`, the addresses,
-- requests and responses of a channel and the numbers of its slots, the neighbors of links and
-- the timeslot timings, which the schedule only passes on, the driver's configuration, the MAC's
-- PAN ID and the implicit broadcast, which are generated when the crate is built, and what the
-- radio hardware does while a frame is received: what each wait sees, and the buffer at two
-- times. For the driver service these are the states of the radio, the transitions that its
-- methods build, and the requests of its clients; for the nRF radio, the values of the registers
-- that are read, and for the MAC the bytes of a buffer that was allocated.
--
-- What is not modelled: the contents of buffers in pools, `select`, the neighbor table and the
-- scheduler of the MAC service, the headers and buffers that dot15d4-frame writes, its builds
-- without a default feature, the registers that the radio's methods of scheduling write, the
-- timer, text output, and the bindings to embassy.
pub mod Allocator
pub mod Radio
pub mod Driver
pub mod Nrf
pub mod Mac
pub mod Base
pub mod Channel
pub mod Containers
pub mod Frame
pub mod Mpdu
pub mod Mutex
pub mod Time
pub mod Tsch

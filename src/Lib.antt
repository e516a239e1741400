-- ===== src/Lib.antt =====
-- The firmware of a handheld terminal, modelled from src/*.rs of the repository: the screen that
-- shows a terminal, the keyboard that feeds it, the line editor of the shell, and the parts around
-- them. The program runs as tasks that share a few locked globals. `keyboard_reader` reads the
-- keyboard controller and hands each pressed key to the current process, or to the screen's font
-- keys. A process (the local shell, or an ssh session) writes bytes to the screen, whose parser
-- turns them into actions on the ring of lines, and `screen_painter` draws the lines that changed.
-- A session or a prompt takes the place of the current process until it ends. The other tasks keep
-- the clock, watch the card slot and copy the log to the serial port.
--
-- Arithmetic. The image is a release build, so integer arithmetic wraps: a number of w bits is a
-- natural number with `% 2 ^ w` where the code adds. What panics in such a build (an index out of
-- range, `unwrap`, `expect`, a division by zero, a string index off a char boundary) is the outcome
-- `panicked`. A loop with no bound of its own runs on fuel and ends in `out_of_fuel` without it.
--
-- - Prelude: outcomes, tests, lists, the bits of a byte.
-- - Screen (src/screen.rs). Model: `ScreenModel`, `Line` and the map from rows to lines. Print,
--   Scroll, Action: `print`, `check_scroll`, `apply_action`. Fonts: `change_font`, the font keys,
--   `clear` and `default`. Terminal: `Screen::parse_bytes`. Session: the requests that the tasks
--   make of the shared screen. Colors: `color_nybble` and the colors that `update_display` takes
--   from a cell. Cluster: `ClusterIter`, with a round of fuel for each cell that is left and one
--   more. Paint: `update_display`, whose draw commands are a list. Valid states the invariant;
--   ScrollValid, PrintValid, SgrValid, ActionValid and Safety are about what keeps it; ScrollRows,
--   Rows, ColorLaws, ClusterCells, ClusterSteps, ClusterLaws, PaintRows and PaintLaws about what is
--   shown.
--   `check_scroll` has 256 rounds of fuel: its loop counts a `u8` down.
-- - Keyboard (src/keyboard.rs). Keys: the two bytes of a key event. State: `read_keyboard` and
--   `KeyBoardState::process`. Reader: a round of `keyboard_reader`. Battery: the battery status and
--   `backlight_command`.
-- - Process (src/process.rs). Editor: `LineEditor`, on strings of chars with byte indices. Shell:
--   `LocalShell::dispatch_command` and the arguments of `ssh_command` (src/net.rs). Table: the
--   current process, `assign_proc` and `assign_proc_if`, the shell, the ssh process and the prompt
--   (src/net.rs), `print!` (src/main.rs) and the keys that are handed over (src/keyboard.rs).
--   TableLaws, KeyLaws and PromptLaws: sessions and prompts as they come and go.
-- - Config (src/config.rs, src/fixed_str.rs). Store: `Configuration` and `config_command`, over the
--   map of the crate `sequential-storage`. StoreLaws, ListLaws and Refusals: what is set, removed,
--   listed and refused.
-- - Psram (src/psram.rs). Pio: the PIO program of `init_psram`, instruction by instruction, and
--   `send_command`, which runs it on 16 steps for each byte and 12 more, since the program takes two
--   for each bit. Bits, PioLaws, Exchange and Framing: what the chip sees of a command. Device: what
--   the chip promises of its commands, below its capacity. Transfer: `PsRam::write` and `read`, with a round of fuel for
--   each byte, since each round moves one at least. Start: the checks of `init_psram`. SelfTest:
--   `test_psram`. Sizes: the sizes and the QMI timing. Qmi: `detect_psram_qmi` and `init_psram_qmi`
--   as writes to registers.
-- - Time (src/time.rs). Clock: `UnixTime` and `TheTime`; the carry has 4296 rounds of fuel, since a
--   `u32` of microseconds is less than 4295 seconds. Rfc3339: the printed time and the time of the
--   files. Command: `time_command` and `get_timestamp`. Sync: `time_sync`, over the lookups and the
--   answers that will come. Heard, SyncLaws and Recovery are about it.
-- - Storage (src/storage.rs). Card: the card slot and `check_card`. Phases: its states and steps.
--   HotPlug: the report of `init_storage`, and the checks that follow the detect pin. Listing:
--   `ls_command`. Listed: what it has to print, described without its loops. ListingLaws: the path.
-- - Heap (src/heap.rs). Dual: the two regions of the allocator. Owner: which heap a block is of.
-- - Net (src/net.rs). Keys: what a key writes to an ssh channel. Channel: `ssh_channel_task`, as a
--   sequence of what is ready first. Reading: a reader of UTF-8, for what the remote host makes of
--   the keys. Session: the events of `ssh_ticker`, with what they are
--   answered. Connect: `ssh_session_task`, from the name of the host to the end of the session.
--   Wifi: the network that `setup_wifi` joins.
-- - Logging (src/logging.rs). Serial: the log on its way to the serial port, and the keys that come
--   from it. Reader: a read of `uart_reader` or `mcu_uart_reader`. Uart: `Logger::log` and
--   `run_uart`, with a round of fuel for each byte in the pipe and one more.
-- - Boot. Rng (src/rng.rs): the random numbers. Main (src/main.rs): the steps of `main` that join the
--   heap, the configuration, both RAM chips, the card and the network.
--
-- Parameters. Code of other crates, and hardware, is an argument: the escape sequence parser (any
-- function from bytes to actions), the font table, the pixel type, the RAM chips, what is on the
-- wires of the PIO, the FIFOs of the QMI with the loops that wait for them, the SD card with its
-- volume manager and its directories, the two heaps, the pipe of the log, the map in the flash, the
-- network stack, the Wi-Fi driver, the ssh client, the date type and the random numbers. Where the
-- code relies on them, what they document is a field of a record or a hypothesis.
--
-- Not modelled: errors of the display, the futures of an ssh session but `ssh_ticker` and
-- `ssh_channel_task`, the wait for an address, the columns of a listing, the set-up of the pins and
-- of the UARTs, the watchdog, the spawning of tasks, and what is written to the log. Of the keys that
-- are handed over in Process/Table.antt, a command line that they enter is returned and not run: that
-- a command makes another process current between two keys is only seen in the runs of
-- Process/TableLaws.antt, and its 100 ms are left out. Of a write to an ssh channel that fails or
-- times out, how much it got through is an input of Net/Channel.antt.
pub mod Prelude
pub mod Screen
pub mod Keyboard
pub mod Process
pub mod Config
pub mod Psram
pub mod Time
pub mod Storage
pub mod Heap
pub mod Net
pub mod Logging
pub mod Boot

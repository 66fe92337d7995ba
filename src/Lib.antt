-- ===== src/Lib.antt =====
-- The firmware of the Cedar Switch, a network power meter and switch on a STM32 under Zephyr, in
-- parts that are checked here. The firmware is a set of modules (modules/*) which keep the logic
-- and know no hardware, services (src/services/*) which run them on threads, and HTTP handlers
-- (src/web/api/v1/*) which clients talk to. Long operations, such as a firmware update, are jobs of
-- the job manager: a handler creates one, under an idempotency key that makes a retried request
-- harmless, an updater moves it on, and a client polls it by its id. Log lines of the firmware and of
-- the ESP32 coprocessor go into the log store: two byte rings that overwrite their oldest records,
-- and which a client reads page by page with an opaque cursor. Handlers answer with JSON that the
-- writer of the web API bounds by its buffer, errors with the body of the validation module, and a
-- proposed network configuration is judged by the network manager, field by field, before it is tried.
--
-- JobManager (modules/job-manager/lib/job_manager.c and include/job_manager/job_manager.h):
--   Types      the enumerations and structs, and the store: the record pool, the compact pool of
--              retired jobs and the 32-bit id counter
--   Tiers      finding, claiming and evicting records, retiring a job to the compact pool, expiry
--   Ops        job_create, job_set_state, job_fail, job_set_phase, job_set_progress,
--              job_set_cancellable, job_cancel, job_get, job_find_by_key, job_active_*
--   Calls      any call as a value, and a row of calls: the histories of the other files
--   Search, Lifecycle, History, Tally, Ids, Identity, Uniqueness, Idempotency, Retirement,
--   Slots, Retention, Answers, Capacity, Setters hold the theorems.
--   Each function of the C file has the function of the same name here. Every call takes the time as
--   an argument (the C file reads it through a clock that job_manager_set_clock replaces), and a call
--   under the mutex is one step. The pool sizes and the retention time, which the build configures,
--   are a record Config that the operations take.
--
-- LogStore (modules/log-store/lib/log_store.c and include/log_store/log_store.h):
--   Types      the enumerations, records and filters, and their texts
--   State      the whole state, init, panic, the loss counters and the statistics
--   Ring       ring_put and ring_get; Ring/Positions and Ring/Window see a ring as an endless row
--   Append     log_store_append with its eviction loop and log_store_utf8_cut; Append/Log has the
--              abstract view (a ring is a list of records), the other files refine to it
--   Record     copy_record; Record/ReadBack
--   Filter     log_store_filter_match and ascii_contains; Filter/Contains
--   Reader     log_store_reader_at; Reader/Read has log_store_read and Reader/Tail log_store_reader_tail,
--              which find a store of their own in each round, since they give the lock up between
--              two; Reader/Answers and Reader/Inside
--   Base64     the two base64url loops of the cursor functions; Base64/Canonical
--   Cursor     digests, log_store_cursor_encode and log_store_cursor_decode; Cursor/RoundTrip and
--              Cursor/Accepted
--   ByteOrder  an interface for Zephyr's sys_put_le* and sys_get_le*, which the definitions take as a
--              parameter, with the documented laws; little_endian is a value of it.
--   An index `abs & (size - 1)` is `abs % size`, since the file asserts that the sizes are powers of
--   two; positions are 64-bit numbers with their wrap-around written out. The eviction loop runs on
--   fuel, one round for each record that the ring counts and one more, since a round drops a record;
--   with a count that is not the ring's, which no call leaves behind, the C loop could go on where the
--   model stops. The largest time a reader held the lock, read_hold_max_us, is updated by note_read,
--   which the two reading loops leave out: no result of theirs depends on it.
--   The panic flag is read twice by an append; the second reading is an argument, and so are the
--   measured times.
--
-- ApiValidation (modules/api-validation/lib/api_validation.c and
-- include/api_validation/api_validation.h), which every handler uses:
--   Address    api_parse_ipv4, api_parse_ipv6 and the tests on IPv4 addresses; Address/Ipv4, Address/Ipv6
--              (the loop ends), Address/Groups, Address/Rounds and Address/Texts (the texts of IPv6
--              addresses)
--   Errors     the error table, request ids, the validators of identifiers, and the error that a
--              handler fills in; Errors/Codes
--   Text       api_json_append_escaped and api_error_to_json; Text/Appends, Text/Escapes (with a
--              reader of JSON strings) and Text/ErrorJson
--   A text is its bytes before the terminator, and a parser gives the rest of the text in place of the
--   number of bytes read. Buffers are lists of their size. The number of fields that an error
--   carries, which the build configures, and the cycle counter's reading are arguments; pointers to
--   buffers and errors are not NULL. The loop of api_parse_ipv6 has a round of fuel for each byte of
--   the text and one more, since a round reads a byte at least.
--
-- Network (modules/network-manager/lib/network_validate.c, and the structs that it reads):
--   Types, Parts  the structs, and the paths and tests that the checks use
--   Check      a check as a function from an error to a result and the error with what was added, and
--              the ways in which the C functions go on after one
--   Validate   network_validate_config and its parts; Validate/Judged with Validate/FinePaths, and
--              Validate/Accepted with Validate/Facts, Validate/Blocks and Validate/Details
--   Select     network_config_is_healthy, network_iface_state_of, network_select_default
--   Healthy    how these fit together
--   An enumeration held in a byte is a number, which may lie outside it; a byte used as a truth value
--   is a Boolean.
--
-- WebApi (modules/web-api/lib/json_writer.c and include/web_api/json_writer.h):
--   JsonWriter  the writer's state and every function; JsonWriter/Value has JSON values, their text
--              and the calls that a handler makes for one; JsonWriter/Levels, Steps, Calls and Render
--              see the writer as a text and a stack of open levels
--   The names of members are written as they are, as the C function writes them. What snprintf prints
--   for a number is decimal text; a number of 64 bits has at most 20 digits.
--
-- EnergyMeter (modules/energy-meter/src/hlw8032.c and hlw8032.h):
--   Hlw8032    hlw8032_frame_ok and hlw8032_parse, on frames as lists of 24 bytes
--
-- Common has the shared lists, strings, byte buffers, Boolean tests and bounded loops.
--
-- Not modelled: the transactions of network_manager.c; json_reader.c, web_api.c and web_api_http.c
-- of the web API; energy_meter.c and eeprom_flash.c of the energy meter; the other modules;
-- the services, handlers, MQTT, Matter and drivers, which are mostly calls of Zephyr, the CHIP SDK
-- and hardware registers; and the copy of Zephyr's OSPI flash driver under boards.
pub mod ApiValidation
pub mod Common
pub mod EnergyMeter
pub mod JobManager
pub mod LogStore
pub mod Network
pub mod WebApi

-- ===== src/Lib.antt =====
-- epass_usb_responder answers a USB host over a FunctionFS bulk interface: it receives frames with a
-- checksum, and sends answers; requests upload, read and list files, and run commands.
--
-- How the parts interact. src/responder.c collects the bytes of the OUT endpoint in a buffer and cuts
-- frames from it with the decoder of src/protocol.c, which checks them with src/crc32.c. A handler
-- decodes the payload, a list of key-value strings or a command, and calls src/file_ops.c, which
-- resolves paths and keeps the table of uploads. The answer is encoded by src/protocol.c and written
-- to the IN endpoint by its write_limited on src/io_utils.c.
--
-- Files of this library:
--   Outcome, Text        results of code that may fail or access a buffer outside its bounds; C strings
--   Growth               append_bytes of src/protocol.c, and the doubling loop that rx_reserve shares
--   Crc32                usb_responder_crc32; Bounds and Detects are about its values
--   Protocol/Words       read_le16, read_le32, write_le16, write_le32
--   Protocol/Frame       usb_responder_protocol_encode_frame and decode_frame
--   Protocol/Kv          usb_responder_protocol_encode_kv, decode_kv, kv_free
--   Protocol/Request     the payload of a command request
--   Protocol/Report      the payload of a command result
--   Protocol/Stream      read_full, write_full, the empty transfer, write_limited, read_frame and
--                        write_frame, on lists of the kernel's answers
--   Responder/Rx         rx_reserve, rx_read_some and read_frame_buffered of src/responder.c, on lists
--                        of what poll and read answer
--   Files/Paths          build_path and the storage checks of src/file_ops.c
--   Files/Host           the C library and the kernel as a record of functions on a state of theirs
--   Files/Upload         the upload sessions of src/file_ops.c; Paced counts what the host is asked to do
--   Files/Allowed        the tests of src/file_ops.c that guard a change
--   Files/Remove         remove_path_recursive and file_delete of src/file_ops.c
--   Files/Place          dir_mkdir and file_rename of src/file_ops.c
--   Files/Listing        list_append_line, list_finalize and file_list of src/file_ops.c
--   Files/Read           read_file_all of src/io_utils.c, file_read and file_stat of src/file_ops.c
--   Shell                append_limited and exec_shell of src/shell_exec.c, on what the clock and the
--                        kernel answer in each round of the loop
--   Responder/Reply      send_kv_response, send_error, send_last_error and kv_get of src/responder.c
--   Responder/Transfers  the handlers of uploads; Responder/Queries, those of files; Responder/Commands,
--                        that of commands; Responder/Dispatch, handle_frame
--   Responder/Device     read_text_file, exec_capture_trim and handle_devinfo of src/responder.c, and
--                        storage_info_read of src/file_ops.c
--   Responder/Answers    what the handlers answer; Served and Changes go from the bytes of a request to the
--                        bytes of its answer
--   Responder/Loop       close_eps, process_ep0_events and handle_io_loop of src/responder.c, on what the
--                        kernel answers in each turn
--   Descriptors          src/functionfs_descriptors.c; Announced is about the lengths in the blobs
--   Prelude, Examples    shared names and lemmas; runs on concrete inputs
--
-- Conventions. A byte is a number below 256, and a buffer is the list of its bytes; an access
-- outside it is the result fault or overrun. `malloc` and `realloc` are functions that say which
-- requests are granted. A failed call that returns false is failed, or false in its result. A size_t
-- does not wrap but in Protocol/Report, where its modulus is a parameter, and sums that the code
-- takes in uint32_t wrap. Kernel answers are lists: a call that finds the list empty waits. A
-- handler ends with one call that writes a frame: it gives the frame, and write_reply writes it. The
-- names in a directory are those that it has when it is opened. Loops that are not structural run on
-- fuel: rx_fill takes one event in each round and gets one more than there are events; build_loop
-- takes a byte of the text in each round and gets one more than its length; write_chunks writes a
-- byte at least in each round and gets the length; doubled at least adds one to a capacity in each
-- round and gets what is needed; make_loop takes a byte of the path in each round and gets one more
-- than its length; remove_path_recursive goes to longer paths below a limit, which is its fuel;
-- digits ends within 64 digits; read_text reads a byte at least in each round and gets one more than
-- its limit.
--
-- Not modelled: the texts of errors and log lines, tests of out-parameters for NULL, the table of
-- mounts, opening ep0, and argument parsing. The Python client and the scripts are outside the C
-- program.
pub mod Crc32
pub mod Descriptors
pub mod Examples
pub mod Files
pub mod Growth
pub mod Outcome
pub mod Prelude
pub mod Protocol
pub mod Responder
pub mod Shell
pub mod Text

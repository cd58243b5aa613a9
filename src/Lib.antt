-- ===== src/Lib.antt =====
-- Mashroom reads, indexes and extracts meteorological fields in the GRIB format. This library is
-- about its GRIB edition 1 reader, API/grib1: the layout of messages, the sections, and the dates
-- and levels that they carry; about the catalogue of the indexed files, the extraction of values from
-- them and the names and files under which the index is kept; and about the network library, network,
-- that its client and server stand on.
--
-- A file is a sequence of messages. `HGrib1` (API/grib1/src/message.cpp) maps it and keeps a cursor;
-- `Message` (API/grib1/include/message.h) finds the sections of the message at the cursor from the
-- lengths that they start with and the flags of section 1; the classes of API/grib1/src/sections
-- read a section; `process_file` (src/proc/index.cpp) walks over the messages for the index. The
-- catalogue keeps, for properties, forecasts, grids and levels, the positions of the messages in each
-- file; an extraction goes to positions, or searches a whole file, and decodes the value at a place.
--
-- The files and what they model:
--   Common           names passed on, tests on numbers, lists, the integers of the C code; Table:
--                    unordered maps
--   Grib/Bytes       buffers and the functions that read numbers from them
--   Grib/Message     Message, HGrib1, open_grib, process_file; sections 0 and 3
--     Layout         the sections of one message
--     Cursor         next_message, set_message, is_correct_format
--     Walk           the loop of process_file
--     Concatenation  a file made of messages
--     Opening        open_grib
--   Grib/Values      section 4 and Message::extract_value; Packing: the bits of a value
--   Grib/Product     section 1: section_1.cpp and product/def.h, with verf_time
--     Validity       the time for which a field is valid
--     Flags          the flag byte and the year
--   Grib/AddTime     leap and add_time of section_1.cpp
--     Calendar       the calendar that it is compared with
--     Loops, Days    the branches for hours and days
--     Months         the branch for months
--     Units          add_time as a whole
--   Grib/PdsTimes    PDStimes of section_1.cpp
--   Grib/TimeFrame, Grib/TimeRange   code tables 4 and 5
--   Grib/TimeForecast   product/time_forecast.h and .cpp; Kinds: its predicates, Json: its JSON
--   Grib/Level       product/levels.h and code table 3; Octets: values and bounds
--   Grib/Grid        grids of latitudes and longitudes, sections/grid/lat_lon.h and grid.h
--     Extent         the rectangle that a grid covers
--     Reading        a grid from its section, and the number of the value at a place
--   Grib/GridSection    section_2.cpp and code table 6; Size: dimensions and number of points
--   Index/Names      src/proc/index/gen.cpp, the names of files and directories of the index
--     Parsing        token paths, repeated tokens
--     Formats        the format of a file name
--   Catalogue        DataStruct<TIME_SERIES, GRIB_v1> of include/data/datastruct/grib1.h, its keys and
--                    paths
--     Keys           the equalities of the keys
--     Rounds, Indexing   add_data of the messages of a file
--     Merging        add_data of another catalogue
--     Closed         the paths of the indices are those of the catalogue
--   Extraction       src/proc/extract.cpp: the second __extract__, at given positions
--     Positions      the values that it collects
--     Points         the value at a node of a grid
--     Whole          from the bytes of a file to its values
--     Search         the first __extract__, with the conditions of a search
--     Finding        what a search collects
--     Agreement      a search without conditions against the extraction at positions
--   Integrity        src/proc/integrity.cpp: the files and messages that the test for gaps collects
--     Agreement      its walk against that of a search
--     Files          a directory, with files that do not open
--     Report         what it says of gaps
--   Output           src/proc/extract/write.cpp: the files of an extraction
--     Periods        the loop over the periods of JSON and binary files
--     Exact, Coverage   what these files hold
--     Rows           the rows of a text file
--     Columns, Filed, Complete   what the rows hold of the series, and in which file they stand
--     Tokens, Numbers   lines of parameters, written and read (src/proc/extract/read.cpp)
--     Header, Reading   the forecast and the level of a series in a header
--   Storage          Data of include/program/data.h and src/program/data.cpp, and src/data/def.cpp
--     Saving         what is saved, written and read
--     Names          the names of formats and of kinds of data
--   Network/Transfer    send and receive of network/include; what is delivered, what is stored, when
--                       the loops end
--   Network/Messages    MessageProcess of include/network/common/message: frames of messages, and
--                       conversations of two sides
--   Network/Reply       the answer of the server (Parts: the order of what it sends, Directory: what
--                       comes of mapping a directory), src/network/server/connection_process.cpp
--   Network/Accepting   the server base, network/include/commonserver.h: launch and accept
--   Network/Socket      the objects that share a descriptor, network/src/commonsocket.cpp
--   Network/Queue       the thread of AbstractQueuableProcess with the threads around it
--   Network/Multiplexor, Network/Pool   the calls of epoll with their errors, and
--                       AbstractConnectionPool with its polling thread
--   Tests            concrete inputs, runs and examples
--
-- Correspondence. A class is a record, a method a function of the same name on it, and a method
-- that changes its object returns the new one. A pointer into a message is a function from offsets
-- to bytes, and a pointer into the mapped file an offset. What a pointer argument receives is part
-- of the result. A read out of bounds, exit(1) and a thrown exception are results of their own
-- (`fault`, `outside`, `exits`, `logic_error`, `none`, `faults`). `int` is an unbounded
-- integer where values of a message keep it far below 2 ^ 31, and the conversions to unsigned types
-- are written out.
--
-- The network library shares state between threads and with the system. What the system answers is an
-- argument: a list of answers for the calls of send and recv, a report for each event of epoll_wait,
-- a function for epoll_ctl. Threads are interleaved as sequences of steps: in the queue, a step
-- goes from one change of the mutex or of the shared data to the next; in the pool, each call and
-- each round of the polling thread is one step. Logs that the program does not keep (the tasks that
-- were begun, the processes that were executed) stand in the state so that theorems can speak of them.
--
-- Fuel. `year_back` gets the amount by which the day is below 0, and two more: each round adds at
-- least 365 days. `year_forward` gets the number of days and one more: each round takes at least 365.
-- `fill` gets five rounds: it takes at most four bytes.
-- `parse_loop` gets one more than the bytes of the text. `process_file`, `search`, `walk`,
-- `write_json_file` and `write_bin_file` take their fuel as an argument; the rounds that are enough
-- are stated below.
--
-- Parameters. `ByteReader` stands for read_bytes and UINT3 of byte_read.h, which the repository
-- does not hold, and `IsBigEndian` for what the assertions and macros beside its calls say of it;
-- `JsonLib` for Boost's JSON; `GridOps` for float arithmetic, INT2, INT3 and is_correct_pos;
-- `System` for the file system, paths and the serialization of a catalogue, `Ticks` for the
-- calendar of the C++ library; `Env` for what the system, the catalogue and the extraction answer
-- while the server replies and accepts, `Disk` and a sort for the output; `FloatOps`, `FloatOrder` and
-- `Decoding` for float arithmetic, ibm2flt and INT2; `Host` for open, lseek and mmap; `Ctl` for
-- epoll_ctl, `Codec` with `IsCodec` for the serialization library.
--
-- A map of the C++ library is a list of keys with values (Common/Table); the equality of its keys is
-- that of the code. A view of a text is the text, as long as the text is there: the views that
-- `add_data` of a file puts into the indices are of a local path and dangle when it has returned, so
-- that what is modelled is the state at the end of its body. A message's `err_`, which the
-- constructor may leave without a value, is in the catalogue what `left` says that its memory held.
--
-- Not modelled. Of the reader: the decoding of all values at once (`extract_all`), whose branch
-- without a bitmap writes to a vector that is never resized; the fields of the other grids;
-- the reference time as a C++ time point; the generated parameter tables and the
-- texts of code tables, which are data. Of the program: the search in the catalogue, whose functions
-- have bodies of comments; the drives over several paths, which hand them to the functions that are
-- modelled; the summary of the data that integrity reports on; the lines of a text header other than
-- those of forecast and level, their dates and reals being printed by the C++ library, and the names
-- of output files; the command line. Of the network: the client with its base, the construction and
-- the closing of a server, the address of a socket and its options, which are
-- system calls one after another, and the contents of the kinds of messages.
pub mod Catalogue
pub mod Common
pub mod Extraction
pub mod Grib
pub mod Index
pub mod Integrity
pub mod Network
pub mod Output
pub mod Storage
pub mod Tests

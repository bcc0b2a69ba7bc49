-- ===== src/Lib.antt =====
-- The C code of the cm_dotfiles repository that computes rather than configures: code skeletons
-- of the editor, the command line tools, and small example programs. Each of them stands alone,
-- except that the map of ids is used with the ids of the generators, and the generator under a
-- mutex uses the plain generator.
--
-- Bitwise models, of dot_config/nvim/skeletons/bitwise.c/bitwise.c, the functions that turn the
-- order of bytes (Bitwise/Swap), msd_u64 and msd_u32 (Bitwise/Digit), and next_pow2_gt,
-- log2_floor and log2_ceil (Bitwise/Pow2), whose loops have 32 turns, one for each bit of an int;
-- in Bitwise/Signed an int is the word of its bits, and a sum that is no int, which C leaves
-- undefined, is none. PowerTools models p2below and p2above of
-- dot_config/tooling/cutils/cutenums.
--
-- Codec models dot_config/nvim/skeletons/codec.c/codec.c: the tables in Codec/Tables, hex_encode
-- and hex_decode in Codec/Hex, base64_encode and base64_decode in Codec/Base64. A buffer with its
-- length is the list of its bytes, what a function stores through a pointer is the list that its
-- model returns, and -1 is none.
--
-- CuteId models dot_config/tooling/cutils/cuteid/cuteid.h: struct uuid and its inspection in
-- CuteId/Uuid, cuteid_encode and cuteid_decode in CuteId/Fields, uuid_parse and uuid_format in
-- CuteId/Text. A C string is the list of the bytes before its terminator. CuteId/Words shows how
-- sixteen bytes and two 64-bit words correspond.
--
-- Circ models dot_config/nvim/skeletons/circ.h/circ.h, a ring of bytes with frames of a two-byte
-- length and a message: circ_avail, circ_space, framed_io_read and feed_fd in Circ/Ring, the
-- functions that take frames out in Circ/Frames. Circ/View gives the ring its meaning, the list
-- of the bytes held, and frames in such a list. The loops run on fuel, the bytes available, of
-- which every round takes two or more. The platform's read is a parameter of which it is only
-- asked that it brings no more bytes than were asked for.
--
-- Decimal models the decimal printers of dot_config/nvim/skeletons/intfuncs.c/intfuncs.c and
-- int_conv.c/int_conv.c (Decimal/Print), and of the readers there and in parse.c/parse.c those
-- that need no library (Decimal/Parse). A signed number is the word of its bits, the negation of
-- the least one, which C leaves undefined, is none, and what is written backwards from the end of
-- a buffer is the list of these bytes. The printers take two digits a round and run on ten
-- rounds, which is enough for 64 bits.
--
-- Json models dot_config/nvim/skeletons/json.c/json.c, the escaping of text for a JSON string:
-- Json/Escape has the three functions, Json/Decode a reader of JSON strings that is independent
-- of them.
--
-- HexTools models the tools itoh and htoi of dot_config/tooling/cutils/hex: HexTools/Itoh the
-- text printed for a number and the minimal width, HexTools/Htoi what main makes of its argument
-- behind the options. The loops that skip separators and read bytes take a character each round,
-- and run on the length of the text.
--
-- Quote models cute_str_litquote and cute_cstr_litquote of
-- dot_config/tooling/cutils/cutestrs/cute_str.c; Quote/Shell is a reader of words as a POSIX
-- shell reads them, independent of that code. Surround models what main of
-- dot_config/tooling/cutils/surround/surround.c does with a line and a cursor, with isalnum and
-- isspace in the C locale, and with %s printing a text up to its first NUL. Power models
-- dot_config/nvim/lua/templates/ipow.c: the cases of its switch fall through, so they are rounds
-- counted down from the table's entry. Heap models dot_config/nvim/skeletons/max_heap/max_heap.h;
-- its arrays are lists, and its two loops have a turn for each doubling or halving of the
-- position, counted with one turn for each position.
--
-- Scenario models dot_examples/c/toml/toml.c and scenario.h, the reader of scenario files:
-- Scenario/Types the structs, Scenario/Text and Scenario/Number the characters, comparisons and
-- numbers, Scenario/Values the literals and arrays, Scenario/Handlers the keys of each section,
-- Scenario/Header the headers of sections, Scenario/Lines parse_buffer, and Scenario/File the
-- reading of the file. The file is read in place: the one buffer is a list of bytes that every
-- function takes and returns, a pointer into it is an index, and a string is the bytes from its
-- index up to a NUL. A failure is none, since the buffer is then given up. strtoull and
-- strncasecmp are modelled as the C standard describes them, in the C locale. The answers of
-- stat, open and read are arguments, the reads as a list that ends where the program stops to
-- read. The loops run on the number of bytes that are left, or one more, of which every round
-- takes one or more. Scenario/Frame says which bytes a reader writes, and Scenario/Valid what
-- makes a scenario well-formed.
--
-- Snowflake/Core models dot_examples/c/ids/sf.h. Snowflake/Locked models
-- dot_config/nvim/skeletons/snowflake.h/snowflake.h and its calls under a mutex in
-- dot_config/nvim/skeletons/snowflake_mtx.h/mutex.h: a call is one step, since the mutex admits
-- one caller at a time. Snowflake/Atomic models
-- dot_config/nvim/skeletons/snowflake_atomic.h/snowflake_atomic.h: the load and the
-- compare-exchange of snf_next are steps of a relation on the shared word and the threads, and
-- any interleaving of them is a run; the readings of the clock lie from first on and below limit,
-- two parameters of the relation. The clock reading is an argument of every call, and may stand
-- or go backwards.
--
-- Spsc models dot_config/nvim/skeletons/spsc.c/spsc.c: the steps of one producer and one
-- consumer, where each access to what both use is a step, and push and pop as whole calls. The
-- steps are taken in one order. The plain store of tail in pop may also take effect before the
-- byte is read, since nothing in the code orders the two; whether it may not is a parameter of
-- the relation, ordered. The ring has a power of two of bytes, below 2 ^ 32.
--
-- SfMap models dot_examples/c/ids/lookup.h, for every MAP_BITS. The loops that search a slot have
-- no end of their own: their model, probe, has fuel, one unit for each slot, which is enough as
-- soon as one slot is empty, and when none is, no amount of fuel is enough for a missing key.
--
-- Numbers are natural numbers, and where C computes on an unsigned type of w bits the result is
-- taken modulo 2 ^ w; Prelude/Words names these operations. A sum or product of signed numbers
-- that overflows is undefined in C, and is none where the code can reach it. Prelude also holds
-- the arrays as lists, masks and shifts as arithmetic, and checks of finite tables.
--
-- Not modelled: main functions, option parsing and output, which only call the libraries of the
-- platform; the shell, Lua and C++ files and the configuration.
pub mod Bitwise
pub mod Circ
pub mod Codec
pub mod CuteId
pub mod Decimal
pub mod Heap
pub mod HexTools
pub mod Json
pub mod Power
pub mod PowerTools
pub mod Prelude
pub mod Quote
pub mod Scenario
pub mod SfMap
pub mod Snowflake
pub mod Spsc
pub mod Surround

-- ===== src/Lib.antt =====
-- Verification of the Impact socket library: its sockets, its asynchronous pipeline, and its text and
-- byte formats.
--
-- The library has a layer of sockets (Sockets/Source/*.cpp), which calls the operating system, and
-- under it formats that are pure code: URIs, base 64, UTF-8, MD5, SHA-1, byte order and ABNF
-- classes. Each part is modelled from its source:
--
-- Socket models Sockets/Source/basic_socket.cpp: objects that share socket information through a
-- shared_ptr, over an explicit store of cells, pointers and open descriptors. Counts counts owners
-- and descriptors, Owned has the invariant, Calls and Runs take it through the calls of a client.
-- Delivery models Sockets/Source/basic_socket_delivery.cpp, basic_socket_misc.cpp and fill_address of
-- generic.cpp: what a socket asks of the system. Operations has one definition for each, Keepalive
-- that of keepalive, Catalog all of them as data; Moved is about sockets without information, Lists
-- and Freed about the lists of getaddrinfo, Ports about addresses, Options about keepalive. Raw models
-- send, recv and attach of Sockets/Source/raw_socket.cpp on Linux.
-- Networking models Sockets/Source/networking.cpp. Netlink reads the answers of the kernel into a
-- buffer, Room is about its bounds; Routes finds the default route, Balance and Picked are about it;
-- Interfaces lists the interfaces, Listing and Returned are about that; Local is the basic_socket that
-- both of them make, over Socket, and Held is about what it gives back; Masks has the IPv6 masks of
-- Windows, Texts sockaddr_to_string, and Readback what can be read back from it.
-- Failure models code that throws an impact_error, which is its message there. Trace models the texts
-- of an impact_error in Sockets/Source/utils/impact_error.cpp; Symbols is about the lines of its stack.
-- Stream models Sockets/Source/socketstream.cpp, a stream buffer over a socket: Written is about what
-- a text becomes on the wire, Inside about the bounds of the buffers.
-- Probe models `poll` of Sockets/Source/probe.cpp, which Stream and Pipeline call; Select models
-- `select` of the same file, and Asked is about what it asks.
-- Pipeline models Sockets/Source/async_pipeline.cpp: the worker thread, which polls the sockets and
-- calls their objects, and the calls that queue work for it. Sweeps, Rounds, Agreement and Kept are
-- about the loop over the handles, Linked and Registry about the queues; Steps interleaves the
-- threads, and Same, Counted, Invariant and Wakeup are about what that can reach.
-- Errno models Sockets/Include/utils/errno.h and Sockets/Source/utils/errno.cpp. `imp_errno` is a
-- thread-local variable; an operation that writes it returns its new value in an `Answer`.
-- BitOps models Sockets/Include/utils/bit_ops.h, with the byte order of the machine as an argument.
-- Abnf models Sockets/Include/utils/abnf_ops.h, with the sign of `char` as an argument.
-- Base64 models Sockets/Source/rfc/base64.cpp. Text is RFC 4648 in plain arithmetic; Encode,
-- Decode and RoundTrip are about the two directions.
-- Utf8 models Sockets/Include/rfc/utf8.h and Sockets/Source/rfc/utf8.cpp. Table is RFC 3629, and
-- Groups describes the texts that are read; Serialize, Deserialize, Trailing and Verdict are about
-- the calls.
-- Md5 models Sockets/Source/rfc/md5.cpp, with 32-bit words and a 64-bit `size_t`.
-- Sha1 models Sockets/Source/rfc/sha1.cpp. Absorb is RFC 3174 on a list of bytes, over the function of
-- one block; Buffer, Length, Places, Padding and Digest relate the context of the code to it.
-- Uri models Sockets/Include/rfc/uri.h and Sockets/Source/rfc/uri.cpp. Uri itself has the object
-- and the parser's state; Chars the character classes, which use Abnf; Percent the two decoders; Normalize
-- `_S_path_normalize`; Ports the scheme dictionaries; Literal and Literal.Ipv6 the IP literals;
-- Authority and Parse the parser; Print the observers.
-- Grammar models the recognizers of words of Libraries/ABNF_Parser/main.cpp, a program of its own, over
-- an istringstream with its place and flags; Blank is about white space, Longest about names and
-- quoted values, Named about what `rule` calls first, Binary about num_val.
-- Base holds what all of them share: lists, tests on numbers, bits, signed integers, association
-- lists for std::map, facts on small tables.
--
-- The model. A byte is a number below 256 and a string a list of them. Fixed-width integers wrap by
-- a written `% 2 ^ w`, or are masked as in the source. An output pointer is an option, `none` for
-- null. A parser function takes the text and a context, and returns `done` (true), `fail` (false)
-- or `fault`: undefined behaviour, kept for the two places where the code can run into it, the
-- erase in `_S_path_normalize` (`none` there) and the iterator in `_S_post_parse`. `int` and
-- `unsigned short` counters are counted without bound, which a text shorter than 2^31 characters
-- does not notice.
--
-- The operating system and the standard library behind the sockets are parameters: the answers of
-- ::socket, ::accept and ::close, a `System` of the calls on a descriptor, `Descriptors`, a `Kernel`, a `Host` and
-- `Links` of the networking queries, a `Wire` of what a stream uses of its socket,
-- the symbols of a stack and their readable names, and a `Host` of ::poll,
-- error_code, POLLIN and the callbacks, over a world that only they read and write. A condition
-- variable is its predicate: a wait is over when the predicate holds, and each lock is one step.
-- Counters that threads share are 32-bit patterns.
--
-- Loops run over what is left of the text. The decimal digits of `std::to_string` have fuel 10, as
-- an `int` has at most ten digits. The do-while loop of `_S_parse_ipv_future` has the size of the
-- text as fuel, and moves one character in each round. The loop of `_M_update_handles` has one
-- more than the count of handles as fuel, which its agreement with a single pass shows to be enough.
-- `read_netlink_socket` has one more than the size of the buffer as fuel, and fills at least one
-- byte in each round.
-- The loops of Grammar over characters have one more than what is left of the text as fuel, and move
-- over a character in each round; those over white space have their rounds as an argument.
--
-- From the standard library, `std::string`, `std::map`, `std::stoi`, `std::to_string`, `tolower`,
-- `toupper` (in the "C" locale), the formatted `>>` of a character, which skips white space, and
-- get, peek, tellg, clear and seekg of an istringstream are written out where the source uses them.
--
-- Not modelled: the making and closing of a raw socket, and raw sockets, stack traces and queries of
-- Windows and macOS but for the IPv6 masks, which wrap system calls; the tables of error texts;
-- popcounts, which are compiler builtins; the throwing constructor of `uri`, its move constructor and
-- its plain getters; what the ABNF parser tool builds from its words (element to rulelist), where
-- `concatenation` reads a variable that was never assigned.

pub mod Base
pub mod Errno
pub mod BitOps
pub mod Abnf
pub mod Base64
pub mod Utf8
pub mod Md5
pub mod Uri
pub mod Sha1
pub mod Grammar
pub mod Failure
pub mod Networking
pub mod Delivery
pub mod Socket
pub mod Stream
pub mod Probe
pub mod Pipeline

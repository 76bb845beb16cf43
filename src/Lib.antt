-- ===== src/Lib.antt =====
-- hawkc is a C library for the Hawk scheme of HTTP authentication. A client fills a context, asks
-- for the length of the Authorization header, and has it written; a server parses the header into
-- its context, adds the request and the password, and has the MAC checked. Both sign the same base
-- string, a list of lines with the time, a nonce and the parts of the request.
--
-- The modules, and the files they are about:
--   Base, with children: what the others share: Boolean tests, lists over the native numbers,
--     size_t arithmetic (64 bits), `int` and time_t as integers, tables over small ranges.
--   Sextets, Alphabet, Base64, Base64url: hawkc/base64.c and hawkc/base64url.c. The two files
--     share their loops and their bit arithmetic, over the interface Alphabet. Base64/Bits has the
--     encoding of RFC 4648 on bit lists, Base64/Rfc the comparison with it, AnyText the decoders
--     on text that no encoder wrote.
--   Outcome: what a call that returns a HawkcError comes to: HAWKC_OK, an error, or undefined
--     behaviour (`fault`); `no_fuel` is a loop that the model cuts short. Its children are four
--     families of postconditions with a rule for bind: Ends (never cut short), Gives (undefined or
--     cut short only where that is allowed), Keeps (an invariant of the state), Done (of HAWKC_OK
--     alone).
--   Context, with children: the structures of hawkc/hawkc.h, and from hawkc/common.c
--     hawkc_context_init, the setters, hawkc_set_error and hawkc_strerror. A string is a length and
--     a pointer: to bytes of the caller, or to one of the three buffers inside the context.
--     Context/Buffers says how these are set up. Context/Memory has hawkc_malloc, hawkc_calloc and
--     hawkc_free: the context keeps a list of the blocks that are allocated, with whose function
--     each is from, and to free one that is not there, or with the other's function, is a fault.
--   Time, with children, and Decimal: hawkc_number_of_digits, hawkc_parse_time, strreverse and
--     hawkc_ttoa of hawkc/common.c, and the decimal numerals they are compared with.
--   Compare, Hex: hawkc_fixed_time_equal and hawkc_bytes_to_hex of hawkc/common.c.
--   Parser, with children: hawkc/parser.c over any two handlers. Parser/Grammar has the headers it
--     is written for; Parser/Complete and Parser/Sound relate it to them,
--     Parser/Spans, Closes, Steps and Rounds say what each step takes off any text, and
--     Parser/Reads and Parser/Overrun are about the end of a header.
--   Crypto, with the child Key: hawkc/crypto_openssl.c; OpenSSL, malloc, calloc and time are the fields of Platform, and
--     IsPlatform says which lengths OpenSSL documents.
--   BaseString, Authorization, with children: hawkc/authorization.c. The buffer and the HMAC, which
--     hawkc_validate_hmac and hawkc_calculate_authorization_header_length repeat word for word,
--     are `base_buffer` and `sign`. Authorization/Fields, Text, Handlers and RoundTrip follow a
--     header from the one side to the other, Party and Accepts a request; Fill is about the time
--     and the nonce that are filled in, Freed about the buffer that is allocated for a long base
--     string and freed behind the HMAC, Branches about all that signing does by its length.
--     Authorization/Signs, Genuine, LastMac and Authentic go the other way, from a verdict to what
--     the header was.
--   WwwAuthenticate, with children: hawkc/www_authenticate.c; Signed, Received and Cycle follow a
--     header from a server to a client.
--   Calls, with children: the calls of hawkc/hawkc.h on one context, as a step relation.
--   Hawk, with children: the command line utility hawk/hawk.c. Hawk/Process is the process it runs
--     in (output, messages, exit status), Hawk/Options the loop over the options, where a list
--     stands for what getopt returns, Hawk itself the rest of main; Hawk/Settings has the command
--     lines that it accepts. What strtol returns is a parameter, what malloc returns a field of
--     Platform.
--   Tests: runs at concrete inputs.
--
-- Each C function is a definition of its name, less the prefix hawkc_; where a child function or a
-- loop is separate, its comment names the code. Memory that the code writes from a pointer on is
-- the list of the bytes written; a read or write out of range is `none` or `fault`.
--
-- Loops are structural recursion where the code counts down its input. On fuel are: the loop of
-- hawkc_number_of_digits (19 rounds, since a time_t is below 10 ^ 19), that of hawkc_ttoa (an `int`
-- has ten digits), strreverse (a round for each character), hawkc_fixed_time_equal (the length), and
-- the loop over the header's parameters (a round reads a byte at least).
--
-- Undefined behaviour is `fault`. So is a HMAC without a key: HMAC_Init, which takes the length as
-- an `int`, documents nothing for NULL or a negative length, its result is not looked at, and
-- hawkc_hmac goes on with a buffer that need not have been written.
--
-- Not modelled: the text that vsnprintf or fprintf make of a message, which is kept as its format
-- and arguments; what a block of memory contains before it is written; the time that
-- hawkc_fixed_time_equal takes; the files that configure writes, such as hawkc/config.h.
pub mod Base
pub mod Sextets
pub mod Alphabet
pub mod Base64
pub mod Base64url
pub mod Outcome
pub mod Context
pub mod Time
pub mod Decimal
pub mod Compare
pub mod Hex
pub mod Parser
pub mod Crypto
pub mod BaseString
pub mod Authorization
pub mod Tests
pub mod WwwAuthenticate
pub mod Hawk
pub mod Calls

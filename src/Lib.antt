-- ===== src/Lib.antt =====
-- fuseadf: a FUSE file system over Amiga disk images. The program is src/fuseadf.c (the command
-- line), src/adffs.c (the handlers that FUSE calls), src/adfimage.c (an open image and its
-- operations, on top of ADFlib), src/util.h (path strings), src/adffs_util.c (times) and the log.
--
-- A request goes from FUSE to a handler of src/adffs.c, which calls src/adfimage.c. That cuts the
-- path in two (`path_create`), changes to its directory (`adfimage_chdir`), works there by
-- ADFlib and changes back. Two things say where an image stands: `cwd` in `adfimage_t`, and the
-- current directory of ADFlib's volume. The calls of a session share both.
--
-- The files:
--   Prelude        Boolean tests, the integers of C that may be negative, strings as lists of bytes.
--   Libc, Adflib   What the program takes from the C library and from ADFlib: records of operations,
--                  parameters of all other files. `Libc.IsPosix` and the records of Adflib/Laws are
--                  the behaviour that theorems assume of them, each where a theorem names it.
--   Pathstr        The path string functions of src/util.h on their buffers. Search has the laws of
--                  `strstr`; Slashes, Parent and Trim have a function each, Absolute and Cells the
--                  conversion of a whole path.
--   Path           `path_t` of src/util.h.
--   Time           src/adffs_util.c.
--   Image          src/adfimage.c on a mounted image: `adfimage_t` is the record `Image`, and an
--                  operation takes an image and gives its result and the image after it. Dentry
--                  (entries), Perm (permissions), Files (open, read, write, readlink, truncate),
--                  Entries (mkdir, rmdir, unlink, create) and Rename have the operations.
--                  Below Rename stand its theorems: when it returns, and what it has done then.
--                  Files/Link has the theorems about the buffer of readlink.
--   Args           The functions of src/fuseadf.c that edit `argc` and `argv`; Laws has theorems.
--                  Bounds keeps account of the array. Parse is `parse_args`, over `getopt` as a
--                  parameter (`Shell`), with theorems below it: Edits (the cells that an option
--                  drops), Laws (what a success leaves) and Returns (that it returns), where
--                  `IsGetopt` is what is assumed of `getopt`.
--   Mount          `adfimage_open` and `adfimage_close` as sequences of calls; Ledger keeps the
--                  account of what is held.
--   Log            src/log.c and the functions of src/adffs_log.c that open, write and close the log.
--   Main           `main` of src/fuseadf.c and `adffs_destroy` of src/adffs.c as the sequence of what
--                  they acquire, run and release; Ledger extends the account of Mount by the log, and
--                  Threads follows the arguments that FUSE gets.
--   Fs             src/adffs.c: Attr is `adffs_getattr`, Requests the table `adffs_oper` with the
--                  sessions and when they return; Listing and Modes have theorems.
--   Workdir        What `cwd` stands for, and what `adfimage_chdir` and look-ups do to it; Enter has
--                  the change to the directory of given names.
--   History        Whether an answer depends on what earlier calls left in `cwd` and in the volume,
--                  layer by layer up to Session.
--   Cwd            How long the string `cwd` is between the requests of a session. `Moves` relates the
--                  images before and after a function of src/adfimage.c (Operations, Files, Entries) or
--                  of src/adffs.c (Handlers) by ways that lead from one to the other, and Ceiling says
--                  how long `cwd` may be at their ends; Requests and Sessions put them together. Where
--                  `cwd` gets to in the course of a request is not followed. `IsShortening` is assumed
--                  of `dirname` and `basename`.
--   Named          The view without `cwd` and path strings, where a request names a directory by the
--                  names that lead to it and an entry in it. Change: mkdir, rmdir, unlink and create;
--                  Attr, Stat, Finds and Kind: `adffs_getattr`; Listing: `adffs_readdir`; Opened: open,
--                  truncate and readlink; Chmod and Rename, with Located for renames between
--                  directories that are found; Transfer: reads and writes. Later, Rename/Later,
--                  Chmod/Later and Transfer/Back follow a request by a look at what it did; Growth says
--                  what becomes of `cwd`. Server is the whole table `adffs_oper` by names, and
--                  Server/Refines compares sessions with it. `IsSplit` is assumed of `dirname` and
--                  `basename`; `KeepsWay`, `IsStore`, `IsFileStore`, `KeepsSector`, `IsMover` and
--                  `IsAccessStore` of ADFlib, each in the file of the theorems that use it.
--   Bits           Laws of the bit operations.
--   Tests          A small volume and C library that meet the assumptions, with variants of the volume
--                  that store what is written, renamed or permitted, and the theorems there.
--
-- Numbers: sizes, offsets and modes are natural numbers, with the casts to `unsigned` and to
-- `int32_t` as remainders of powers of two; return codes are integers. A string is its bytes before
-- the NUL. The in-place functions work on the cells of the buffer, NUL included.
--
-- Fuel: the in-place functions of src/util.h take fuel, since their loops may not end, and so does
-- `parse_args`, whose loop ends when `getopt` does. `none` says that it ran out, that a read left the
-- buffer, or that `optarg` was read while it is NULL. Two units are enough for a path that ends in
-- its only double slash or in its only `/..`, one for a path with neither; more than the length of
-- the path is enough to strip trailing slashes. One unit more than there are options is enough for
-- `parse_args`.
--
-- Not modelled: what the program prints, the usage and the version included; the text of log messages;
-- `log_info` and `log_error`, which it does not call; `adffs_init`, which returns its argument's data;
-- memory, except whether the allocations of `path_create` and of `adfimage_open` succeed; the tests,
-- the build and the packages.
pub mod Prelude
pub mod Pathstr
pub mod Libc
pub mod Adflib
pub mod Path
pub mod Time
pub mod Image
pub mod Fs
pub mod Bits
pub mod Args
pub mod Log
pub mod Mount
pub mod Main
pub mod Workdir
pub mod Cwd
pub mod History
pub mod Named
pub mod Tests

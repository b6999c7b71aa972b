-- ===== src/Echo.antt =====
-- Testing_server: two servers that answer one message, in server.c and server_solution.c, and what
-- the programs of this directory share. `Client` has the two clients. What the calls of the
-- network return is an argument.
pub mod Client
pub mod Exchange
pub mod Failures
use sp327_alonso_a.Common.{
  ℕ, zero, suc, ◌+◌, ◌-◌, ◌*◌, ◌%◌, ◌^◌, Bool, true, false, ◌&&◌, ◌||◌, not, Option, none, some,
  List, [], ◌∷◌, ◌==◌, if◌then◌else◌,
}
pub use sp327_alonso_a.Common.Bytes.{c_string, fgets}
use sp327_alonso_a.Common.Bytes.{Bytes, codes}
use sp327_alonso_a.Common.Int.{ℤ, pos, negsuc, is_negative}

-- The string in `buffer` after fgets(buffer, 255, stdin); the buffer is zero before.
abbrev pub message : Bytes → Bytes
message input = c_string (fgets 254 input)

-- "I got your message", 18 bytes
abbrev pub reply : Bytes
reply = codes "I got your message"

-- Which message of `perror` or on stderr ends the process.
pub data Failure : Type 0 where
  usage : Failure
  setting_options : Failure
  opening_socket : Failure
  no_host : Failure
  on_binding : Failure
  on_listen : Failure
  on_accept : Failure
  connecting : Failure
  writing : Failure
  reading : Failure

-- What a process has done when it ends: the text that it has printed, the bytes that it has handed
-- to `write` or `send`, the descriptors that it has closed, in order, and why it failed.
pub record Session : Type 0 where
  pub printed : Option Bytes
  pub sent : Bytes
  pub closed : List ℤ
  pub failure : Option Failure

abbrev pub failed : Failure → Session
failed f = record { printed = none; sent = []; closed = []; failure = some f }

-- What the calls of a server return; `received` is `none` on an error, and at most 255 bytes
-- otherwise. `setsockopt` is called by server_solution.c alone.
pub record ServerCalls : Type 0 where
  pub socket : ℤ
  pub setsockopt : ℤ
  pub bind : ℤ
  pub listen : ℤ
  pub accept : ℤ
  pub received : Option Bytes
  pub sending : ℤ

-- From the message on: it is printed, and the answer is sent. `close` are the descriptors that the
-- server closes at the end.
abbrev pub answer : (sending : ℤ) (close : List ℤ) → Option Bytes → Session
answer sending close none = failed reading
answer sending close (some bytes) =
    let text = some (c_string bytes) in
    if is_negative sending
    then record { printed = text; sent = reply; closed = []; failure = some writing }
    else record { printed = text; sent = reply; closed = close; failure = none }

-- server.c; `listen` is not checked, and nothing is closed
unfoldable pub server : ServerCalls → Session
server c =
    if is_negative c.socket
    then failed opening_socket
    else if is_negative c.bind
    then failed on_binding
    else if is_negative c.accept
    then failed on_accept
    else answer c.sending [] c.received

abbrev pub is_zero : ℤ → Bool
is_zero (pos n) = n == 0
is_zero (negsuc n) = false

-- server_solution.c
unfoldable pub server_solution : ServerCalls → Session
server_solution c =
    if not (is_zero c.setsockopt)
    then failed setting_options
    else if is_negative c.socket
    then failed opening_socket
    else if is_negative c.bind
    then failed on_binding
    else if is_negative c.listen
    then failed on_listen
    else if is_negative c.accept
    then failed on_accept
    else answer c.sending (c.accept ∷ c.socket ∷ []) c.received

-- byteorder.c: what it prints, for the size of a `short` and the bytes that 0x0102 has in memory
pub data Order : Type 0 where
  big_endian : Order
  little_endian : Order
  unknown : Order
  size : ℕ → Order

unfoldable pub byteorder : (sizeof_short c0 c1 : ℕ) → Order
byteorder sizeof_short c0 c1 =
    if sizeof_short == 2
    then (if c0 == 1 && c1 == 2
        then big_endian
        else if c0 == 2 && c1 == 1
        then little_endian
        else unknown)
    else size sizeof_short

-- ===== src/Echo/Client.antt =====
-- Testing_server/client.c and client_solution.c.
use sp327_alonso_a.Common.{
  ℕ, ◌-◌, ◌%◌, ◌^◌, Bool, Option, none, some, List, [], ◌∷◌, ◌++◌, ltb, ◌==◌, if◌then◌else◌,
}
use sp327_alonso_a.Common.Bytes.{Bytes}
use sp327_alonso_a.Common.Int.{ℤ, pos, negsuc, is_negative}
use sp327_alonso_a.Echo.{
  c_string, message, usage, opening_socket, no_host, connecting, writing, reading, Session, failed,
}

-- From the message on: it is written to the socket, and the answer is printed. `writing` is what
-- `write` returns, and `answered` the at most 255 bytes that `read` delivers, `none` on an error.
abbrev pub talk :
    (closed close : List ℤ) (input : Bytes) (written : ℤ) (answered : Option Bytes) → Session
talk closed close input written none =
    let why = if is_negative written then writing else reading in
    record { printed = none; sent = message input; closed = closed; failure = some why }
talk closed close input written (some bytes) =
    if is_negative written
    then record { printed = none; sent = message input; closed = closed; failure = some writing }
    else record {
      printed = some (c_string bytes);
      sent = message input;
      closed = close;
      failure = none;
    }

-- `htons` of an `int`: its low 16 bits, as a port
abbrev pub htons : ℤ → ℕ
htons (pos n) = n % 2 ^ 16
htons (negsuc n) = 2 ^ 16 - 1 - n % 2 ^ 16

-- What the calls of client.c return: `gethostbyname` gives an address, and `connect` is of that
-- address and a port.
pub record ClientCalls (Address : Type 0) : Type 0 where
  pub socket : ℤ
  pub gethostbyname : Option Address
  pub connect : Address → ℕ → ℤ
  pub written : ℤ
  pub answered : Option Bytes

abbrev pub connect_host :
    {Address : Type 0} → ClientCalls Address → ℕ → (input : Bytes) → Option Address → Session
connect_host c port input none = failed no_host
connect_host c port input (some host) =
    if is_negative (c.connect host port)
    then failed connecting
    else talk [] [] input c.written c.answered

-- client.c, where `number` is `atoi` of the port; the socket is never closed
unfoldable pub client :
    {Address : Type 0} → (argc : ℕ) (number : ℤ) → ClientCalls Address → (input : Bytes) → Session
client argc number c input =
    if ltb argc 3
    then failed usage
    else if is_negative c.socket
    then failed opening_socket
    else connect_host c (htons number) input c.gethostbyname

-- One address that `getaddrinfo` found: its family, its text, what `socket` returns for it, and
-- whether `connect` then succeeds.
pub record AddrInfo : Type 0 where
  pub ai_family : ℕ
  pub text : Bytes
  pub sock : ℤ
  pub connects : Bool

-- A line of `print_addrinfo`.
pub data Shown : Type 0 where
  ipv4 : Bytes → Shown
  ipv6 : Bytes → Shown
  unknown_family : ℕ → Shown

-- `print_addrinfo`; AF_INET is 2, and AF_INET6 is 10
unfoldable pub print_addrinfo : List AddrInfo → List Shown
print_addrinfo [] = []
print_addrinfo (a ∷ rest) =
    let line =
      if a.ai_family == 2
      then ipv4 a.text
      else if a.ai_family == 10
      then ipv6 a.text
      else unknown_family a.ai_family in
    line ∷ print_addrinfo rest

-- The sockets that the loop over the addresses closes, and the one that is connected; none if the
-- loop runs out of addresses.
abbrev pub also_closed : ℤ → List ℤ × Option ℤ → List ℤ × Option ℤ
also_closed fd (closed, found) = (fd ∷ closed, found)

unfoldable pub try_addresses : List AddrInfo → List ℤ × Option ℤ
try_addresses [] = ([], none)
try_addresses (a ∷ rest) =
    let later = try_addresses rest in
    if is_negative a.sock
    then later
    else if a.connects
    then ([], some a.sock)
    else also_closed a.sock later

abbrev pub talk_on :
    (input : Bytes) (written : ℤ) (answered : Option Bytes) → List ℤ × Option ℤ → Session
talk_on input written answered (closed, none) = record {
  printed = none;
  sent = [];
  closed = closed;
  failure = some connecting;
}
talk_on input written answered (closed, some fd) =
    talk closed (closed ++ fd ∷ []) input written answered

abbrev pub resolved :
    (input : Bytes) (written : ℤ) (answered : Option Bytes) → Option (List AddrInfo) → Session
resolved input written answered none = failed no_host
resolved input written answered (some addrs) = talk_on input written answered (try_addresses addrs)

-- client_solution.c; `getaddrinfo` gives the addresses
unfoldable pub client_solution :
    (argc : ℕ) (getaddrinfo : Option (List AddrInfo)) (input : Bytes) (written : ℤ)
    (answered : Option Bytes)
    → Session
client_solution argc getaddrinfo input written answered =
    if ltb argc 3 then failed usage else resolved input written answered getaddrinfo

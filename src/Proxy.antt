-- ===== src/Proxy.antt =====
-- Final/proxy_server/http_proxy.c: one client request, from `recv` to the answer. The network
-- comes in as arguments: what `recv` reads, what `getaddrinfo` finds, and which calls fail.
pub mod Connect
pub mod Sockets
pub mod Port
pub mod Handle
pub mod Served
pub mod Server
pub mod Shutdown
pub mod Interrupt
pub mod Scan
pub mod Librequest
pub mod Line
pub mod Forward
pub mod Url
pub mod Bounds
use sp327_alonso_a.Common.{
  ℕ, suc, ◌+◌, ◌-◌, Bool, true, false, ◌&&◌, ◌||◌, not, Option, none, some, List, [], ◌∷◌, ◌++◌,
  ltb, leb, ◌==◌, if◌then◌else◌, length, take, drop,
}
use sp327_alonso_a.Common.Bytes.{
  Bytes, codes, is_digit, span_max, starts_with, strchr, find_crlf, scan_word, read_digits,
}
pub use sp327_alonso_a.Common.Run.{Run, ok, fault, exits, ◌>>=◌}
use sp327_alonso_a.Common.Int.{ℤ, pos, sub_ℕ}

abbrev pub buffer_size : ℕ
buffer_size = 4096

-- A word that `%s` stores in an array of `size` bytes; its NUL has to fit too.
abbrev stored : ℕ → Bytes → Run Bytes
stored size w = if ltb (length w) size then ok w else fault

-- The three words of sscanf(buffer, "%s %s %s", method, url, protocol), `none` where the input
-- ended before.
pub record RequestLine : Type 0 where
  pub method : Option Bytes
  pub url : Option Bytes
  pub protocol : Option Bytes

abbrev pub line_of : Option Bytes → Option Bytes → Option Bytes → RequestLine
line_of m u p = record { method = m; url = u; protocol = p }

unfoldable pub with_protocol : (method url : Bytes) → Option (Bytes × Bytes) → Run RequestLine
with_protocol method url none = ok (line_of (some method) (some url) none)
with_protocol method url (some (w, rest)) =
    stored 10 w >>= λ protocol. ok (line_of (some method) (some url) (some protocol))

unfoldable pub with_url : (method : Bytes) → Option (Bytes × Bytes) → Run RequestLine
unfolding with_protocol
with_url method none = ok (line_of (some method) none none)
with_url method (some (w, rest)) =
    stored 1024 w >>= λ url. with_protocol method url (scan_word rest)

unfoldable pub with_method : Option (Bytes × Bytes) → Run RequestLine
unfolding with_url
with_method none = ok (line_of none none none)
with_method (some (w, rest)) = stored 10 w >>= λ method. with_url method (scan_word rest)

unfoldable pub scan_request_line : Bytes → Run RequestLine
unfolding with_method
scan_request_line buffer = with_method (scan_word buffer)

-- A use of an array that `sscanf` may have left unwritten.
abbrev written : Option Bytes → Run Bytes
written none = fault
written (some w) = ok w

-- `%d`: an optional sign and at least one digit. Past the range of `int` it is undefined. The
-- white space it would skip cannot follow: the string is a part of one word.
abbrev signed : Bytes → Bool × Bytes
signed [] = (false, [])
signed (c ∷ s) = if c == 45 then (true, s) else if c == 43 then (false, s) else (false, c ∷ s)

abbrev first_is_digit : Bytes → Bool
first_is_digit [] = false
first_is_digit (c ∷ s) = is_digit c

abbrev in_range : Bool → ℕ → Run (Option ℤ)
in_range negative n =
    if negative
    then (if leb n 2147483648 then ok (some (sub_ℕ 0 n)) else fault)
    else (if leb n 2147483647 then ok (some (pos n)) else fault)

unfoldable pub scan_int : Bytes → Run (Option ℤ)
scan_int s =
    if first_is_digit (signed s).1
    then in_range (signed s).0 (read_digits 0 (signed s).1)
    else ok none

abbrev pub in_host : ℕ → Bool
in_host c = not (c == 58 || c == 47)

abbrev pub not_slash : ℕ → Bool
not_slash c = not (c == 47)

abbrev pub with_host : Bytes → Option ℤ → Option (Bytes × ℤ)
with_host host none = none
with_host host (some n) = some (host, n)

-- `:%d` behind the host
unfoldable pub with_port : Bytes → Bytes → Run (Option (Bytes × ℤ))
unfolding scan_int
with_port host [] = ok none
with_port host (c ∷ rest) =
    if c == 58 then (scan_int rest >>= λ found. ok (with_host host found)) else ok none

abbrev pub host_port_of : Bytes × Bytes → Run (Option (Bytes × ℤ))
host_port_of ([], rest) = ok none
host_port_of (c ∷ host, rest) = with_port (c ∷ host) rest

-- sscanf(s, "%255[^:/]:%d", hostname, port): both values, if it returns 2.
unfoldable pub scan_host_port : Bytes → Run (Option (Bytes × ℤ))
scan_host_port s = host_port_of (span_max 255 in_host s)

abbrev pub host_of : Bytes → Option Bytes
host_of [] = none
host_of (c ∷ host) = some (c ∷ host)

-- sscanf(s, "%255[^/]", hostname), if it returns 1.
unfoldable pub scan_host : Bytes → Option Bytes
scan_host s = host_of (span_max 255 not_slash s).0

-- the port of the second scan: `*port` as it was set before, 80
abbrev pub default_port : Option Bytes → Option (Bytes × ℤ)
default_port none = none
default_port (some host) = some (host, pos 80)

abbrev pub or_default : Bytes → Option (Bytes × ℤ) → Option (Bytes × ℤ)
or_default s (some found) = some found
or_default s none = default_port (scan_host s)

-- The body of `parse_http_request` behind its first `sscanf`: hostname and port, `none` for false.
-- The two branches that refuse a URL differ in their message only.
unfoldable pub parse_url : Bytes → Run (Option (Bytes × ℤ))
parse_url url =
    if starts_with (codes "http://") url
    then (scan_host_port (drop 7 url) >>= λ both. ok (or_default (drop 7 url) both))
    else if starts_with (codes "https://") url
    then ok none
    else ok none

unfoldable pub parse_http_request : Bytes → Run (Option (Bytes × ℤ))
unfolding scan_request_line parse_url
parse_http_request buffer =
    scan_request_line buffer >>= λ line. written line.url >>= λ url. parse_url url

abbrev pub path_or_root : Option Bytes → Bytes
path_or_root (some path) = take 1023 path
path_or_root none = codes "/"

-- The path that the target server is asked for, `none` for a URL that is not absolute.
unfoldable pub path_of : Bytes → Option Bytes
path_of url =
    if starts_with (codes "http://") url then some (path_or_root (strchr 47 (drop 7 url))) else none

-- `snprintf` of the new request line
abbrev pub new_line : (method path protocol : Bytes) → Bytes
new_line method path protocol =
    take (buffer_size - 1) (method ++ (32 ∷ path ++ (32 ∷ protocol ++ (13 ∷ 10 ∷ []))))

-- `strncat` of the headers behind it, as far as they fit
abbrev pub add_headers : Bytes → Option Bytes → Bytes
add_headers line none = line
add_headers line (some headers) = line ++ take (buffer_size - length line - 1) (drop 2 headers)

-- `modified_request`
unfoldable pub rewrite_request : (method path protocol buffer : Bytes) → Bytes
rewrite_request method path protocol buffer =
    add_headers (new_line method path protocol) (find_crlf buffer)

-- `forward_request` behind its `sscanf`
unfoldable pub forward_line : Bytes → RequestLine → Option Bytes → Run (Option Bytes)
unfolding rewrite_request
forward_line buffer line none = ok none
forward_line buffer line (some path) = written line.method >>= λ method.
    written line.protocol >>= λ protocol. ok (some (rewrite_request method path protocol buffer))

-- `forward_request`: what is sent to the target, `none` if nothing is.
unfoldable pub forward_request : Bytes → Run (Option Bytes)
unfolding scan_request_line path_of forward_line
forward_request buffer = scan_request_line buffer >>= λ line.
    written line.url >>= λ url. forward_line buffer line (path_of url)

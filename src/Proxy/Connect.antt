-- ===== src/Proxy/Connect.antt =====
-- Final/proxy_server/http_proxy.c, `connect_to_target_server`: the loop over the addresses that
-- `getaddrinfo` found.
use sp327_alonso_a.Common.{
  ℕ, zero, suc, ◌+◌, ◌/◌, ◌%◌, Bool, Option, none, some, List, [], ◌∷◌, ◌++◌, ltb, if◌then◌else◌,
  take,
}
use sp327_alonso_a.Common.Bytes.{Bytes}
use sp327_alonso_a.Common.Int.{ℤ, pos, negsuc}
pub use sp327_alonso_a.Common.Int.{is_negative}

-- One address: what `socket` returns for it, and whether `connect` then succeeds.
pub record Addr : Type 0 where
  pub sock : ℤ
  pub connects : Bool

-- The descriptors that were closed, in order, and the value of `sockfd`; `none` where it was never
-- written.
abbrev pub Connected : Type 0
Connected = List ℤ × Option ℤ

abbrev pub also_closed : ℤ → Connected → Connected
also_closed fd (closed, result) = (fd ∷ closed, result)

unfoldable pub connect_loop : List Addr → Option ℤ → Connected
connect_loop [] sockfd = ([], sockfd)
connect_loop (a ∷ rest) sockfd =
    let later = connect_loop rest (some a.sock) in
    if is_negative a.sock
    then later
    else if a.connects
    then ([], some a.sock)
    else also_closed a.sock later

-- `%d` of a natural number; `fuel` bounds its digits.
unfoldable pub decimal : (fuel n : ℕ) → Bytes
decimal zero n = []
decimal (suc fuel) n =
    let front = decimal fuel (n / 10) in
    if ltb n 10 then (48 + n) ∷ [] else front ++ ((48 + n % 10) ∷ [])

-- snprintf(port_str, 6, "%d", port): an `int` has at most 10 digits, and 5 bytes are kept.
unfoldable pub port_string : ℤ → Bytes
unfolding decimal
port_string (pos n) = take 5 (decimal 10 n)
port_string (negsuc n) = take 5 (45 ∷ decimal 10 (suc n))

abbrev pub connect_found : Option (List Addr) → Connected
connect_found none = ([], some (negsuc 0))
connect_found (some addrs) = connect_loop addrs none

-- `resolve` is `getaddrinfo`: the addresses, `none` on an error.
unfoldable pub connect_to_target_server :
    (Bytes → Bytes → Option (List Addr)) → Bytes → ℤ → Connected
unfolding connect_loop port_string
connect_to_target_server resolve hostname port = connect_found (resolve hostname (port_string port))

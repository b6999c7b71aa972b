-- ===== src/Proxy/Sockets.antt =====
-- `connect_to_target_server`: which socket it returns, and which ones it has closed.
use sp327_alonso_a.Common.{
  not, ◌&&◌, if◌then◌else◌, ◌≡◌, refl, Bool, true, false, Option, some, List, [], ◌∷◌, ◌++◌, arith,
}
use sp327_alonso_a.Common.Int.{ℤ}
use sp327_alonso_a.Proxy.Connect.{Addr, is_negative, connect_loop}

-- An address that is passed over: no socket for it, or a connection refused.
abbrev pub refuses : Addr → Bool
refuses a = if is_negative a.sock then true else not a.connects

abbrev pub all_refuse : List Addr → Bool
all_refuse [] = true
all_refuse (a ∷ rest) = refuses a && all_refuse rest

-- the sockets that were opened for these addresses
abbrev pub opened : List Addr → List ℤ
opened [] = []
opened (a ∷ rest) = if is_negative a.sock then opened rest else (a.sock ∷ opened rest)

-- the value `sockfd` has behind the loop
abbrev pub last_socket : List Addr → Option ℤ → Option ℤ
last_socket [] sockfd = sockfd
last_socket (a ∷ rest) sockfd = last_socket rest (some a.sock)

-- Behind any number of addresses that fail, the first address that connects is taken: its socket
-- is returned, and exactly the sockets opened before it have been closed.
pub connect_loop-found :
    (before : List Addr) (a : Addr) (rest : List Addr) (sockfd : Option ℤ)
    → all_refuse before ≡ true
    → refuses a ≡ false
    → connect_loop (before ++ (a ∷ rest)) sockfd ≡ (opened before, some a.sock)
unfolding connect_loop
connect_loop-found [] a rest sockfd fail good = ground arith
connect_loop-found (b ∷ before) a rest sockfd fail good =
    let later = connect_loop-found before a rest (some b.sock) in ground (arith, later)

-- If every address fails, every socket that was opened has been closed, and the function still
-- returns the last value of `sockfd`, which is one of them unless the last `socket` failed.
pub connect_loop-refused :
    (addrs : List Addr) (sockfd : Option ℤ)
    → all_refuse addrs ≡ true
    → connect_loop addrs sockfd ≡ (opened addrs, last_socket addrs sockfd)
unfolding connect_loop
connect_loop-refused [] sockfd fail = refl
connect_loop-refused (b ∷ before) sockfd fail =
    let later = connect_loop-refused before (some b.sock) in ground (arith, later)

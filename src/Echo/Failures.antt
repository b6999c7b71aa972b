-- ===== src/Echo/Failures.antt =====
-- How the programs of Testing_server fail.
use sp327_alonso_a.Common.{ℕ, ◌≤◌, ◌≡◌, true, false, Option, none, some, List, [], arith}
use sp327_alonso_a.Common.Bytes.{Bytes}
use sp327_alonso_a.Common.Int.{ℤ, is_negative}
use sp327_alonso_a.Echo.{
  opening_socket, setting_options, connecting, ServerCalls, is_zero, server, server_solution,
  failed,
}
use sp327_alonso_a.Echo.Client.{AddrInfo, client_solution}
use sp327_alonso_a.Echo.Exchange.{all_fail, opened_for, try_addresses-none}

-- If no address connects, client_solution has closed every socket that it opened, has sent nothing,
-- and fails with the message about the connection.
pub client_solution-unreachable :
    (argc : ℕ) (bad : List AddrInfo) (input : Bytes) (written : ℤ) (answered : Option Bytes)
    → 3 ≤ argc
    → all_fail bad ≡ true
    → client_solution argc (some bad) input written answered
      ≡ record { printed = none; sent = []; closed = opened_for bad; failure = some connecting }
unfolding client_solution
client_solution-unreachable argc bad input written answered args fails =
    ground (arith, try_addresses-none bad fails)

-- `setsockopt` fails on a descriptor below 0. Where `socket` fails, server.c says so, but
-- server_solution.c says that it could not set the options: its own test of the socket comes later.
pub socket_failure-masked :
    (c : ServerCalls)
    → is_negative c.socket ≡ true
    → is_zero c.setsockopt ≡ false
    → (server c ≡ failed opening_socket) × (server_solution c ≡ failed setting_options)
unfolding server server_solution
socket_failure-masked c s o = (ground arith, ground arith)

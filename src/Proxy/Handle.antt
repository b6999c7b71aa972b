-- ===== src/Proxy/Handle.antt =====
-- Final/proxy_server/http_proxy.c, `handle_client_request`: receive, parse, connect, forward the
-- request, forward the response.
use sp327_alonso_a.Common.{
  ℕ, ◌-◌, Bool, not, Option, none, some, List, [], ◌∷◌, ◌++◌, map, ◌==◌, if◌then◌else◌, take,
}
use sp327_alonso_a.Common.Bytes.{Bytes, span}
use sp327_alonso_a.Common.Int.{ℤ}
use sp327_alonso_a.Proxy.{Run, ok, fault, exits, buffer_size, parse_http_request, forward_request}
use sp327_alonso_a.Proxy.Connect.{Addr, is_negative, Connected, connect_to_target_server}

-- The calls whose effect outlives the function, in order.
pub data Call : Type 0 where
  sends : ℤ → Bytes → Call
  closes : ℤ → Call

-- A run of the handler: its calls, and how it ends.
abbrev pub Handled : Type 0
Handled = List Call × Run Unit

-- What the network does with one request. A `recv` is `none` where it returns a negative number.
pub record Network : Type 0 where
  pub received : Option Bytes
  pub resolve : Bytes → Bytes → Option (List Addr)
  pub response : Option Bytes
  pub answered : Bool

-- `receive_client_request`: the buffer as a C string, `none` for false.
abbrev pub c_string : Bytes → Bytes
c_string data_read = (span (λ c. not (c == 0)) (take (buffer_size - 1) data_read)).0

unfoldable pub receive_client_request : Option Bytes → Option Bytes
receive_client_request none = none
receive_client_request (some []) = none
receive_client_request (some (c ∷ rest)) = some (c_string (c ∷ rest))

abbrev pub after : List Call → Handled → Handled
after calls (later, result) = (calls ++ later, result)

-- `forward_response`: one `recv` of at most 4,095 bytes and one `send`.
unfoldable pub forward_response : Option Bytes → Bool → ℤ → Handled
forward_response none answered client = ([], exits)
forward_response (some data_read) answered client =
    if answered then (sends client (take (buffer_size - 1) data_read) ∷ [], ok tt) else ([], exits)

-- `forward_request`, its `send` included; how that ends is only reported.
abbrev pub send_request : ℤ → Run (Option Bytes) → Handled
send_request target (ok none) = ([], ok tt)
send_request target (ok (some text)) = (sends target text ∷ [], ok tt)
send_request target fault = ([], fault)
send_request target exits = ([], exits)

infixl 5 ◌then_do◌
abbrev pub ◌then_do◌ : Handled → Handled → Handled
(calls, ok tt) then_do next = after calls next
(calls, fault) then_do next = (calls, fault)
(calls, exits) then_do next = (calls, exits)

unfoldable pub serve_target : Network → (client target : ℤ) → Bytes → Handled
unfolding forward_response
serve_target net client target buffer =
    send_request target (forward_request buffer)
    then_do forward_response net.response net.answered client
    then_do (closes target ∷ closes client ∷ [], ok tt)

-- Behind `connect_to_target_server`. A `sockfd` that was never written is an undefined value.
unfoldable pub after_connect : Network → ℤ → Bytes → Connected → Handled
unfolding serve_target
after_connect net client buffer (closed, none) = (map closes closed, fault)
after_connect net client buffer (closed, some target) =
    if is_negative target
    then (map closes closed, ok tt)
    else after (map closes closed) (serve_target net client target buffer)

unfoldable pub after_parse : Network → ℤ → Bytes → Run (Option (Bytes × ℤ)) → Handled
unfolding after_connect
after_parse net client buffer (ok none) = ([], ok tt)
after_parse net client buffer (ok (some (hostname, port))) =
    after_connect net client buffer (connect_to_target_server net.resolve hostname port)
after_parse net client buffer fault = ([], fault)
after_parse net client buffer exits = ([], exits)

unfoldable pub after_receive : Network → ℤ → Option Bytes → Handled
unfolding after_parse
after_receive net client none = ([], ok tt)
after_receive net client (some buffer) = after_parse net client buffer (parse_http_request buffer)

unfoldable pub handle_client_request : Network → ℤ → Handled
unfolding receive_client_request after_receive
handle_client_request net client = after_receive net client (receive_client_request net.received)

-- `handle_client_request_thread`: the descriptor is read out of the block that the accept loop has
-- allocated, and the block is freed. `boxes` are the blocks, by their addresses.
abbrev pub unboxed : Network → (ℕ → Option ℤ) → ℕ → Option ℤ → (ℕ → Option ℤ) × Handled
unboxed net boxes arg none = (boxes, ([], fault))
unboxed net boxes arg (some client) =
    ((λ p. if p == arg then none else boxes p), handle_client_request net client)

unfoldable pub handle_client_request_thread :
    Network → (boxes : ℕ → Option ℤ) → (arg : ℕ) → (ℕ → Option ℤ) × Handled
handle_client_request_thread net boxes arg = unboxed net boxes arg (boxes arg)

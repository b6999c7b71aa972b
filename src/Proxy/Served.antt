-- ===== src/Proxy/Served.antt =====
-- `handle_client_request` as a whole: what one request does to the sockets.
use sp327_alonso_a.Common.{
  ℕ, ◌-◌, ◌≡◌, refl, ap, ◌∙◌, Bool, true, false, not, none, some, List, [], ◌∷◌, ◌++◌, map, ◌==◌,
  if◌then◌else◌, length, take, arith, ltb, ltb→lt,
}
use sp327_alonso_a.Common.Bytes.{Bytes, span, all_of, starts_with, codes}
use sp327_alonso_a.Common.Int.{ℤ, pos}
use sp327_alonso_a.Proxy.{
  ok, exits, buffer_size, parse_http_request, forward_request, not_slash, in_host,
}
use sp327_alonso_a.Proxy.Connect.{
  Addr, is_negative, connect_to_target_server, connect_found, port_string,
}
use sp327_alonso_a.Proxy.Sockets.{
  refuses, all_refuse, opened, last_socket, connect_loop-found, connect_loop-refused,
}
use sp327_alonso_a.Proxy.Scan.{take-all, all_of-head, all_of-tail, all_of_mono}
use sp327_alonso_a.Proxy.Line.{request, http_url, IsLine}
use sp327_alonso_a.Proxy.Forward.{forward_request-http}
use sp327_alonso_a.Proxy.Url.{
  IsHost, in_host-not_slash, parse_http_request-default, parse_http_request-refused,
}
use sp327_alonso_a.Proxy.Handle.{
  Call, sends, closes, Network, receive_client_request, forward_response, serve_target,
  after_connect, after_parse, after_receive, handle_client_request, after,
}

abbrev not_nul : ℕ → Bool
not_nul c = not (c == 0)

span-all : (p : ℕ → Bool) (w : Bytes) → all_of p w ≡ true → span p w ≡ (w, [])
span-all p [] h = refl
span-all p (c ∷ w) h = rw (all_of-head p c w h, span-all p w (all_of-tail p c w h))

-- What `recv` reads: not empty, without NUL, and within the buffer.
pub record IsReceived (w : Bytes) : Type 0 where
  pub some_byte : ltb 0 (length w) ≡ true
  pub no_nul : all_of (λ c. not (c == 0)) w ≡ true
  pub fits : ltb (length w) buffer_size ≡ true

receive_client_request-all : (w : Bytes) → IsReceived w → receive_client_request (some w) ≡ some w
unfolding receive_client_request
receive_client_request-all [] h = cc
receive_client_request-all (c ∷ w) h =
    ap (λ s. some (span not_nul s).0)
      (take-all (buffer_size - 1) (c ∷ w)
        (omega (arith, ltb→lt (length (c ∷ w)) buffer_size h.fits)))
    ∙ ap (λ parts. some parts.0) (span-all not_nul (c ∷ w) h.no_nul)

handle-received :
    (net : Network) (client : ℤ) (w : Bytes)
    → IsReceived w
    → net.received ≡ some w
    → handle_client_request net client ≡ after_parse net client w (parse_http_request w)
unfolding handle_client_request after_receive
handle-received net client w whole eq1 =
    ap (after_receive net client)
      (ap receive_client_request eq1 ∙ receive_client_request-all w whole)

refuses-negative : (a : Addr) → refuses a ≡ false → is_negative a.sock ≡ false
refuses-negative a h = ground (arith, h)

-- the sockets of the addresses, closed
abbrev pub all_closed : List Addr → List Call
all_closed addrs = map closes (opened addrs)

module _ (net : Network) (client : ℤ) (m host path p rest : Bytes)
    (whole : IsReceived (request m (http_url host path) p rest))
    (line : IsLine m (http_url host path) p) (is_host : IsHost host)
    (received : net.received ≡ some (request m (http_url host path) p rest)) where
  abbrev buffer : Bytes
  buffer = request m (http_url host path) p rest

  handle-connected :
      (closed : List ℤ) (target : ℤ)
      → connect_to_target_server net.resolve host (pos 80) ≡ (closed, some target)
      → is_negative target ≡ false
      → handle_client_request net client
        ≡ after (map closes closed) (serve_target net client target buffer)
  unfolding after_parse after_connect
  handle-connected closed target connected good =
      handle-received net client buffer whole received
      ∙ ap (after_parse net client buffer)
          (parse_http_request-default m host path p rest line is_host)
      ∙ ap (after_connect net client buffer) connected
      ∙ ap
          (λ b.
            if b
            then (map closes closed, ok tt)
            else after (map closes closed) (serve_target net client target buffer))
          good

  forwarded : forward_request buffer ≡ ok (some (request m (47 ∷ path) p rest))
  forwarded =
      forward_request-http m host path p rest line
        (all_of_mono in_host not_slash host in_host-not_slash is_host.letters)
        (ltb→lt (length buffer) buffer_size whole.fits)

  serve_target-answered :
      (target : ℤ) (answer : Bytes)
      → net.response ≡ some answer
      → net.answered ≡ true
      → serve_target net client target buffer ≡ (
        sends target (request m (47 ∷ path) p rest)
            ∷ sends client (take (buffer_size - 1) answer)
            ∷ closes target
            ∷ closes client
            ∷ [],
        ok tt,
      )
  unfolding serve_target forward_response
  serve_target-answered target answer response answered = rw (forwarded, response, answered)

  serve_target-silent :
      (target : ℤ)
      → net.response ≡ none
      → serve_target net client target buffer
        ≡ (sends target (request m (47 ∷ path) p rest) ∷ [], exits)
  unfolding serve_target forward_response
  serve_target-silent target response = rw (forwarded, response)

  connected-found :
      (before : List Addr) (a : Addr) (others : List Addr)
      → net.resolve host (port_string (pos 80)) ≡ some (before ++ (a ∷ others))
      → all_refuse before ≡ true
      → refuses a ≡ false
      → connect_to_target_server net.resolve host (pos 80) ≡ (opened before, some a.sock)
  unfolding connect_to_target_server
  connected-found before a others found fail good =
      ap connect_found found ∙ connect_loop-found before a others none fail good

  connected-refused :
      (addrs : List Addr)
      → net.resolve host (port_string (pos 80)) ≡ some addrs
      → all_refuse addrs ≡ true
      → connect_to_target_server net.resolve host (pos 80) ≡ (opened addrs, last_socket addrs none)
  unfolding connect_to_target_server
  connected-refused addrs found fail = ap connect_found found ∙ connect_loop-refused addrs none fail

  -- One request from end to end. The client has sent a request for `http://host/path`, without NUL,
  -- that fits the buffer and whose words fit their arrays; the host name has 1 to 255 bytes without
  -- `:` and `/`, and an address that connects, before which any number of others fail; the target
  -- answers, and the client takes the answer. Then the target gets the request
  -- with `/path` for its URL, the client gets the first 4,095 bytes that the one `recv` has read,
  -- both sockets and those of the addresses that failed are closed, and the run ends normally.
  pub request_served :
      (before : List Addr) (a : Addr) (others : List Addr) (answer : Bytes)
      → net.resolve host (port_string (pos 80)) ≡ some (before ++ (a ∷ others))
      → all_refuse before ≡ true
      → refuses a ≡ false
      → net.response ≡ some answer
      → net.answered ≡ true
      → handle_client_request net client ≡ (
        all_closed before
            ++ (sends a.sock (request m (47 ∷ path) p rest)
                ∷ sends client (take (buffer_size - 1) answer)
                ∷ closes a.sock
                ∷ closes client
                ∷ []),
        ok tt,
      )
  request_served before a others answer found fail good response answered =
      handle-connected (opened before) a.sock (connected-found before a others found fail good)
        (refuses-negative a good)
      ∙ ap (after (all_closed before)) (serve_target-answered a.sock answer response answered)

  -- A client has sent a request for `http://host/path`, without NUL, that fits the buffer and whose
  -- words fit their arrays, with a host name of 1 to 255 bytes without `:` and `/`. If every address
  -- of the host refuses the connection and the last `socket` succeeded, the handler goes on with a
  -- descriptor that it has closed, and where `recv` fails on that, the whole server exits.
  pub unreachable_target-exits :
      (addrs : List Addr) (target : ℤ)
      → net.resolve host (port_string (pos 80)) ≡ some addrs
      → all_refuse addrs ≡ true
      → last_socket addrs none ≡ some target
      → is_negative target ≡ false
      → net.response ≡ none
      → handle_client_request net client
        ≡ (all_closed addrs ++ (sends target (request m (47 ∷ path) p rest) ∷ []), exits)
  unreachable_target-exits addrs target found fail last good response =
      handle-connected (opened addrs) target
        (connected-refused addrs found fail ∙ ap (λ l. (opened addrs, l)) last) good
      ∙ ap (after (all_closed addrs)) (serve_target-silent target response)

-- A request whose URL does not start with `http://`, without NUL, that fits the buffer and whose
-- words fit their arrays: the handler ends normally, but it has neither answered the client nor
-- closed its socket.
pub refused_request-leaks :
    (net : Network) (client : ℤ) (m u p rest : Bytes)
    → IsReceived (request m u p rest)
    → IsLine m u p
    → starts_with (codes "http://") u ≡ false
    → net.received ≡ some (request m u p rest)
    → handle_client_request net client ≡ ([], ok tt)
unfolding after_parse
refused_request-leaks net client m u p rest whole line other received =
    handle-received net client (request m u p rest) whole received
    ∙ ap (after_parse net client (request m u p rest))
        (parse_http_request-refused m u p rest line other)

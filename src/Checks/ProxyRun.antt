-- ===== src/Checks/ProxyRun.antt =====
-- The theorems on Final/proxy_server/http_proxy.c at one request, and what it does there.
use sp327_alonso_a.Common.{
  ◌≤◌, ◌≡◌, refl, true, false, none, some, List, [], ◌∷◌, ◌++◌, length, arith, ◌≢◌,
}
use sp327_alonso_a.Common.Bytes.{Bytes, codes}
use sp327_alonso_a.Common.Int.{pos, negsuc}
use sp327_alonso_a.Proxy.{ok, exits, parse_http_request, forward_request}
use sp327_alonso_a.Proxy.Connect.{Addr}
use sp327_alonso_a.Proxy.Line.{request, http_url, IsLine}
use sp327_alonso_a.Proxy.Forward.{forward_request-http}
use sp327_alonso_a.Proxy.Url.{IsHost, parse_http_request-port}
use sp327_alonso_a.Proxy.Bounds.{hostname_fits, parsed-forwarded}
use sp327_alonso_a.Proxy.Handle.{Network, sends, closes, handle_client_request}
use sp327_alonso_a.Proxy.Served.{
  IsReceived, request_served, unreachable_target-exits, refused_request-leaks,
}

abbrev get : Bytes
get = codes "GET"

abbrev http11 : Bytes
http11 = codes "HTTP/1.1"

abbrev host : Bytes
host = codes "a.org"

abbrev path : Bytes
path = codes "x/y"

abbrev headers : Bytes
headers = codes "Host: a" ++ (13 ∷ 10 ∷ 13 ∷ 10 ∷ [])

abbrev url : Bytes
url = http_url host path

abbrev port_url : Bytes
port_url = codes "http://a.org:8080/x/y"

abbrev https_url : Bytes
https_url = codes "https://a.org/"

abbrev message : Bytes
message = request get url http11 headers

abbrev port_message : Bytes
port_message = request get port_url http11 headers

abbrev https_message : Bytes
https_message = request get https_url http11 headers

url-IsLine : IsLine get url http11
url-IsLine = record {
  method_word = record { first = refl; letters = refl };
  url_word = record { first = refl; letters = refl };
  protocol_word = record { first = refl; letters = refl };
  method_fits = refl;
  url_fits = refl;
  protocol_fits = refl;
}

port_url-IsLine : IsLine get port_url http11
port_url-IsLine = record {
  method_word = record { first = refl; letters = refl };
  url_word = record { first = refl; letters = refl };
  protocol_word = record { first = refl; letters = refl };
  method_fits = refl;
  url_fits = refl;
  protocol_fits = refl;
}

https_url-IsLine : IsLine get https_url http11
https_url-IsLine = record {
  method_word = record { first = refl; letters = refl };
  url_word = record { first = refl; letters = refl };
  protocol_word = record { first = refl; letters = refl };
  method_fits = refl;
  url_fits = refl;
  protocol_fits = refl;
}

host-IsHost : IsHost host
host-IsHost = record { some_byte = refl; letters = refl; fits = refl }

message-IsReceived : IsReceived message
message-IsReceived = record { some_byte = refl; no_nul = refl; fits = refl }

https_message-IsReceived : IsReceived https_message
https_message-IsReceived = record { some_byte = refl; no_nul = refl; fits = refl }

-- no socket for the first address, a refusal by the second, and the third connects
abbrev failing : List Addr
failing =
    record { sock = negsuc 0; connects = false } ∷ record { sock = pos 7; connects = false } ∷ []

abbrev reached : Addr
reached = record { sock = pos 8; connects = true }

abbrev answer : Bytes
answer = codes "HTTP/1.1 200 OK"

abbrev good_network : Network
good_network = record {
  received = some message;
  resolve = λ name port. some (failing ++ (reached ∷ []));
  response = some answer;
  answered = true;
}

abbrev bad_network : Network
bad_network = record {
  received = some message;
  resolve = λ name port. some failing;
  response = none;
  answered = true;
}

abbrev https_network : Network
https_network = record good_network { received = some https_message }

request_served_example : handle_client_request good_network (pos 5) ≡ (
  closes (pos 7)
      ∷ sends (pos 8) (request get (codes "/x/y") http11 headers)
      ∷ sends (pos 5) answer
      ∷ closes (pos 8)
      ∷ closes (pos 5)
      ∷ [],
  ok tt,
)
request_served_example =
    request_served good_network (pos 5) get host path http11 headers message-IsReceived url-IsLine
      host-IsHost refl failing reached [] answer refl refl refl refl refl

unreachable_target-exits_example :
    handle_client_request bad_network (pos 5)
    ≡ (closes (pos 7) ∷ sends (pos 7) (request get (codes "/x/y") http11 headers) ∷ [], exits)
unreachable_target-exits_example =
    unreachable_target-exits bad_network (pos 5) get host path http11 headers message-IsReceived
      url-IsLine host-IsHost refl failing (pos 7) refl refl refl refl refl

refused_request-leaks_example : handle_client_request https_network (pos 5) ≡ ([], ok tt)
refused_request-leaks_example =
    refused_request-leaks https_network (pos 5) get https_url http11 headers
      https_message-IsReceived https_url-IsLine refl refl

forward_request-http_example :
    forward_request message ≡ ok (some (request get (codes "/x/y") http11 headers))
forward_request-http_example =
    forward_request-http get host path http11 headers url-IsLine refl (omega arith)

parse_http_request-port_example : parse_http_request port_message ≡ ok (some (host, pos 8080))
parse_http_request-port_example =
    parse_http_request-port get host path http11 headers 56 (codes "080") port_url-IsLine
      host-IsHost refl refl

hostname_fits_example : (1 ≤ length host) × (length host ≤ 255)
hostname_fits_example = hostname_fits port_message host (pos 8080) parse_http_request-port_example

parsed-forwarded_example : forward_request port_message ≢ ok none
parsed-forwarded_example =
    parsed-forwarded port_message (host, pos 8080) parse_http_request-port_example

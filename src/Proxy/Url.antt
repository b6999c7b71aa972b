-- ===== src/Proxy/Url.antt =====
-- `parse_http_request`: the target server that a URL names.
use sp327_alonso_a.Common.{
  ℕ, ◌+◌, ◌*◌, ◌-◌, ◌≤◌, ◌≡◌, ◌≢◌, refl, ap, ◌∙◌, true, false, Option, none, some, [], ◌∷◌, ◌++◌,
  arith, ltb, leb, if◌then◌else◌, length, leb→le,
}
use sp327_alonso_a.Common.Bytes.{Bytes, codes, all_of, starts_with, read_digits, is_digit}
use sp327_alonso_a.Common.Int.{ℤ, pos}
use sp327_alonso_a.Proxy.{
  Run, ok, ◌>>=◌, written, parse_url, parse_http_request, not_slash, in_host, scan_host_port,
  scan_host, scan_int, with_port, with_host, host_port_of, or_default, default_port, in_range,
  host_of, signed, first_is_digit,
}
use sp327_alonso_a.Proxy.Scan.{span_max-stop, all_of_mono}
use sp327_alonso_a.Proxy.Line.{request, http_url, IsLine, scan_request_line-words}

parse_http_request-words :
    (m u p rest : Bytes) → IsLine m u p → parse_http_request (request m u p rest) ≡ parse_url u
unfolding parse_http_request
parse_http_request-words m u p rest line =
    ap (λ r. r >>= λ l. written l.url >>= λ url. parse_url url)
      (scan_request_line-words m u p rest line)

signed-digit : (d : ℕ) (ds : Bytes) → is_digit d ≡ true → signed (d ∷ ds) ≡ (false, d ∷ ds)
signed-digit d ds digit = ground (arith, digit)

in_range-fits : (n : ℕ) → leb n 2147483647 ≡ true → in_range false n ≡ ok (some (pos n))
in_range-fits n le = rw le

scan_int-digits :
    (d : ℕ) (ds : Bytes)
    → is_digit d ≡ true
    → leb (read_digits 0 (d ∷ ds)) 2147483647 ≡ true
    → scan_int (d ∷ ds) ≡ ok (some (pos (read_digits 0 (d ∷ ds))))
unfolding scan_int
scan_int-digits d ds digit le =
    ap
      (λ parts.
        if first_is_digit parts.1 then in_range parts.0 (read_digits 0 parts.1) else ok none)
      (signed-digit d ds digit)
    ∙ ap (λ b. if b then in_range false (read_digits 0 (d ∷ ds)) else ok none) digit
    ∙ in_range-fits (read_digits 0 (d ∷ ds)) le

read_digits-stop :
    (ds rest : Bytes) (acc c : ℕ)
    → is_digit c ≡ false
    → read_digits acc (ds ++ (c ∷ rest)) ≡ read_digits acc ds
read_digits-stop [] rest acc c stop = rw stop
read_digits-stop (d ∷ ds) rest acc c stop =
    rw (read_digits-stop ds rest (10 * acc + (d - 48)) c stop)

parse_url-scan :
    (s : Bytes)
    → parse_url (codes "http://" ++ s) ≡ (scan_host_port s >>= λ both. ok (or_default s both))
unfolding parse_url
parse_url-scan s = refl

scan_host_port-port :
    (h : ℕ) (hs s : Bytes)
    → all_of in_host (h ∷ hs) ≡ true
    → length (h ∷ hs) ≤ 255
    → scan_host_port ((h ∷ hs) ++ (58 ∷ s))
      ≡ (scan_int s >>= λ found. ok (with_host (h ∷ hs) found))
unfolding scan_host_port with_port
scan_host_port-port h hs s letters le =
    ap host_port_of (span_max-stop in_host 255 (h ∷ hs) {c = 58} {s = s} letters refl le)

scan_host_port-slash :
    (h : ℕ) (hs s : Bytes)
    → all_of in_host (h ∷ hs) ≡ true
    → length (h ∷ hs) ≤ 255
    → scan_host_port ((h ∷ hs) ++ (47 ∷ s)) ≡ ok none
unfolding scan_host_port with_port
scan_host_port-slash h hs s letters le =
    ap host_port_of (span_max-stop in_host 255 (h ∷ hs) {c = 47} {s = s} letters refl le)

pub in_host-not_slash : (c : ℕ) → in_host c ≡ true → not_slash c ≡ true
in_host-not_slash c h = ground (arith, h)

scan_host-slash :
    (h : ℕ) (hs s : Bytes)
    → all_of in_host (h ∷ hs) ≡ true
    → length (h ∷ hs) ≤ 255
    → scan_host ((h ∷ hs) ++ (47 ∷ s)) ≡ some (h ∷ hs)
unfolding scan_host
scan_host-slash h hs s letters le =
    ap (λ parts. host_of parts.0)
      (span_max-stop not_slash 255 (h ∷ hs) {c = 47} {s = s}
        (all_of_mono in_host not_slash (h ∷ hs) in_host-not_slash letters) refl le)

pub parse_url-other : (u : Bytes) → starts_with (codes "http://") u ≡ false → parse_url u ≡ ok none
unfolding parse_url
parse_url-other u h = ground (arith, h)

pub refused :
    {r : Run (Option (Bytes × ℤ))} {target : Bytes × ℤ} → r ≡ ok none → r ≢ ok (some target)
refused nothing something = cc

-- A host name: 1 to 255 bytes, none of them `:` or `/`.
pub record IsHost (host : Bytes) : Type 0 where
  pub some_byte : ltb 0 (length host) ≡ true
  pub letters : all_of in_host host ≡ true
  pub fits : leb (length host) 255 ≡ true

parse_url-port :
    (host s : Bytes) (n : ℤ)
    → IsHost host
    → scan_int s ≡ ok (some n)
    → parse_url (codes "http://" ++ (host ++ (58 ∷ s))) ≡ ok (some (host, n))
parse_url-port [] s n h number = cc
parse_url-port (c ∷ host) s n h number =
    let le = leb→le (length (c ∷ host)) 255 h.fits in
    let rest = (c ∷ host) ++ (58 ∷ s) in
    parse_url-scan rest
    ∙ ap (λ r. r >>= λ both. ok (or_default rest both))
        (scan_host_port-port c host s h.letters le
          ∙ ap (λ r. r >>= λ found. ok (with_host (c ∷ host) found)) number)

parse_url-default :
    (host path : Bytes)
    → IsHost host
    → parse_url (codes "http://" ++ (host ++ (47 ∷ path))) ≡ ok (some (host, pos 80))
parse_url-default [] path h = cc
parse_url-default (c ∷ host) path h =
    let le = leb→le (length (c ∷ host)) 255 h.fits in
    let rest = (c ∷ host) ++ (47 ∷ path) in
    parse_url-scan rest
    ∙ ap (λ r. r >>= λ both. ok (or_default rest both))
        (scan_host_port-slash c host path h.letters le)
    ∙ ap (λ found. ok (default_port found)) (scan_host-slash c host path h.letters le)

-- In a request for `http://host:digits/path`, whose words fit their arrays and whose number fits an
-- `int`, `parse_http_request` finds that host and that port. A host name here is 1 to 255 bytes,
-- none of them `:` or `/`.
pub parse_http_request-port :
    (m host path p rest : Bytes) (d : ℕ) (ds : Bytes)
    → IsLine m (codes "http://" ++ (host ++ (58 ∷ (d ∷ ds) ++ (47 ∷ path)))) p
    → IsHost host
    → is_digit d ≡ true
    → leb (read_digits 0 (d ∷ ds)) 2147483647 ≡ true
    → parse_http_request
        (request m (codes "http://" ++ (host ++ (58 ∷ (d ∷ ds) ++ (47 ∷ path)))) p rest)
      ≡ ok (some (host, pos (read_digits 0 (d ∷ ds))))
parse_http_request-port m host path p rest d ds line h digit le =
    let same = read_digits-stop (d ∷ ds) path 0 47 refl in
    let number =
      scan_int-digits d (ds ++ (47 ∷ path)) digit (ap (λ n. leb n 2147483647) same ∙ le)
      ∙ ap (λ n. ok (some (pos n))) same in
    parse_http_request-words m (codes "http://" ++ (host ++ (58 ∷ (d ∷ ds) ++ (47 ∷ path)))) p rest
      line
    ∙ parse_url-port host ((d ∷ ds) ++ (47 ∷ path)) (pos (read_digits 0 (d ∷ ds))) h number

-- In a request for `http://host/path`, whose words fit their arrays, `parse_http_request` finds
-- that host, 1 to 255 bytes without `:` and `/`, and port 80.
pub parse_http_request-default :
    (m host path p rest : Bytes)
    → IsLine m (http_url host path) p
    → IsHost host
    → parse_http_request (request m (http_url host path) p rest) ≡ ok (some (host, pos 80))
parse_http_request-default m host path p rest line h =
    parse_http_request-words m (http_url host path) p rest line ∙ parse_url-default host path h

-- A request whose URL does not start with `http://` is refused, `https://` included, if its words
-- fit their arrays.
pub parse_http_request-refused :
    (m u p rest : Bytes)
    → IsLine m u p
    → starts_with (codes "http://") u ≡ false
    → parse_http_request (request m u p rest) ≡ ok none
parse_http_request-refused m u p rest line other =
    parse_http_request-words m u p rest line ∙ parse_url-other u other

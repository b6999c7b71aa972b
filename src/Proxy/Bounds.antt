-- ===== src/Proxy/Bounds.antt =====
-- `parse_http_request` on a request of any form: the array bound of the host name.
use sp327_alonso_a.Common.{
  ℕ, zero, suc, ◌≤◌, ◌≡◌, ◌≢◌, ap, Bool, Option, none, some, [], ◌∷◌, arith, length, drop,
  Bool-cases, Option-cases, inl, inr,
}
use sp327_alonso_a.Common.Bytes.{Bytes, codes, span_max, starts_with}
use sp327_alonso_a.Common.Int.{ℤ}
use sp327_alonso_a.Proxy.{
  Run, ok, fault, exits, ◌>>=◌, RequestLine, scan_request_line, written, parse_url,
  parse_http_request, not_slash, in_host, scan_host_port, scan_host, with_port, host_port_of,
  or_default, host_of, path_of, forward_line, forward_request,
}
use sp327_alonso_a.Proxy.Url.{parse_url-other, refused}

span_max-bound : (p : ℕ → Bool) (max : ℕ) (s : Bytes) → length (span_max max p s).0 ≤ max
span_max-bound p zero s = omega arith
span_max-bound p (suc max) [] = omega arith
span_max-bound p (suc max) (c ∷ s) = ground (arith, span_max-bound p max s)

host_port_of-bound :
    (parts : Bytes × Bytes) (host : Bytes) (port : ℤ)
    → length parts.0 ≤ 255
    → host_port_of parts ≡ ok (some (host, port))
    → (1 ≤ length host) × (length host ≤ 255)
unfolding with_port
host_port_of-bound parts host port le found = ground arith

host_of-bound :
    (w host : Bytes)
    → length w ≤ 255
    → host_of w ≡ some host
    → (1 ≤ length host) × (length host ≤ 255)
host_of-bound w host le found = ground arith

or_default-bound :
    (s host : Bytes) (port : ℤ) (both : Option (Bytes × ℤ))
    → (both ≡ some (host, port) → (1 ≤ length host) × (length host ≤ 255))
    → or_default s both ≡ some (host, port)
    → (1 ≤ length host) × (length host ≤ 255)
unfolding scan_host
or_default-bound s host port (some found) bound result = bound result
or_default-bound s host port none bound result = elim (Option-cases (scan_host s)) [
  | inl fails ↦ cc
  | inr (w, holds) ↦
      let named =
        host_of-bound (span_max 255 not_slash s).0 w (span_max-bound not_slash 255 s) holds in
      ground (arith, named, holds, result)
]

run_or_default-bound :
    (s host : Bytes) (port : ℤ) (run : Run (Option (Bytes × ℤ)))
    → (run ≡ ok (some (host, port)) → (1 ≤ length host) × (length host ≤ 255))
    → (run >>= λ both. ok (or_default s both)) ≡ ok (some (host, port))
    → (1 ≤ length host) × (length host ≤ 255)
run_or_default-bound s host port (ok both) bound result =
    or_default-bound s host port both (λ e. bound (ap ok e)) (cc)
run_or_default-bound s host port fault bound result = cc
run_or_default-bound s host port exits bound result = cc

parse_url-bound :
    (u host : Bytes) (port : ℤ)
    → parse_url u ≡ ok (some (host, port))
    → (1 ≤ length host) × (length host ≤ 255)
unfolding parse_url scan_host_port
parse_url-bound u host port found =
    let first =
      host_port_of-bound (span_max 255 in_host (drop 7 u)) host port
        (span_max-bound in_host 255 (drop 7 u)) in
    elim (Bool-cases (starts_with (codes "http://") u)) [
      | inl http ↦
          run_or_default-bound (drop 7 u) host port (scan_host_port (drop 7 u)) first
            (rw http at found)
      | inr other ↦ absurd (refused (parse_url-other u other) found)
    ]

parse_line-bound :
    (run : Run RequestLine) (host : Bytes) (port : ℤ)
    → (run >>= λ l. written l.url >>= λ u. parse_url u) ≡ ok (some (host, port))
    → (1 ≤ length host) × (length host ≤ 255)
parse_line-bound (ok l) host port found = elim (Option-cases l.url) [
  | inl missing ↦ cc
  | inr (u, given) ↦ parse_url-bound u host port (rw given at found)
]
parse_line-bound fault host port found = cc
parse_line-bound exits host port found = cc

-- Whatever the request is: if `parse_http_request` returns true, the host name has 1 to 255 bytes,
-- so that `hostname[256]` holds it with its final NUL.
pub hostname_fits :
    (buffer host : Bytes) (port : ℤ)
    → parse_http_request buffer ≡ ok (some (host, port))
    → (1 ≤ length host) × (length host ≤ 255)
unfolding parse_http_request
hostname_fits buffer host port found = parse_line-bound (scan_request_line buffer) host port found

-- Whatever the request is: if `parse_http_request` returns true, `forward_request` on the same
-- buffer does not give up for a URL that is not absolute.
pub parsed-forwarded :
    (buffer : Bytes) (target : Bytes × ℤ)
    → parse_http_request buffer ≡ ok (some target)
    → forward_request buffer ≢ ok none
unfolding parse_http_request parse_url forward_request path_of forward_line
parsed-forwarded buffer target parsed sent = ground arith

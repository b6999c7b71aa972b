-- ===== src/Proxy/Line.antt =====
-- What `sscanf` reads out of a request line.
use sp327_alonso_a.Common.{
  ◌≤◌, ◌≡◌, refl, ap, ◌∙◌, true, false, some, [], ◌∷◌, ◌++◌, arith, ltb, if◌then◌else◌, length,
}
use sp327_alonso_a.Common.Bytes.{Bytes, codes, scan_word}
use sp327_alonso_a.Proxy.{
  ok, fault, ◌>>=◌, line_of, scan_request_line, with_method, with_url, with_protocol, forward_line,
  written, parse_url, parse_http_request, path_of, forward_request,
}
use sp327_alonso_a.Proxy.Scan.{IsWord, scan_word-word}

-- a request with this request line
abbrev pub request : (method url protocol rest : Bytes) → Bytes
request m u p rest = m ++ (32 ∷ u ++ (32 ∷ p ++ (13 ∷ 10 ∷ rest)))

-- an absolute URL
abbrev pub http_url : (authority path : Bytes) → Bytes
http_url a path = codes "http://" ++ (a ++ (47 ∷ path))

-- Three words that fit the arrays `method[10]`, `url[1024]` and `protocol[10]`.
pub record IsLine (m u p : Bytes) : Type 0 where
  pub method_word : IsWord m
  pub url_word : IsWord u
  pub protocol_word : IsWord p
  pub method_fits : ltb (length m) 10 ≡ true
  pub url_fits : ltb (length u) 1024 ≡ true
  pub protocol_fits : ltb (length p) 10 ≡ true

with_method-fits :
    (w rest : Bytes)
    → ltb (length w) 10 ≡ true
    → with_method (some (w, rest)) ≡ with_url w (scan_word rest)
unfolding with_method
with_method-fits w rest h = rw h

with_url-fits :
    (m w rest : Bytes)
    → ltb (length w) 1024 ≡ true
    → with_url m (some (w, rest)) ≡ with_protocol m w (scan_word rest)
unfolding with_url
with_url-fits m w rest h = rw h

with_protocol-fits :
    (m u w rest : Bytes)
    → ltb (length w) 10 ≡ true
    → with_protocol m u (some (w, rest)) ≡ ok (line_of (some m) (some u) (some w))
unfolding with_protocol
with_protocol-fits m u w rest h = rw h

-- `sscanf(buffer, "%s %s %s", ...)` finds the three words of a request line.
pub scan_request_line-words :
    (m u p rest : Bytes)
    → IsLine m u p
    → scan_request_line (request m u p rest) ≡ ok (line_of (some m) (some u) (some p))
unfolding scan_request_line
scan_request_line-words m u p rest line =
    let s2 = 32 ∷ p ++ (13 ∷ 10 ∷ rest) in
    let s1 = 32 ∷ u ++ s2 in
    ap with_method (scan_word-word [] m 32 (u ++ s2) refl line.method_word refl)
    ∙ with_method-fits m s1 line.method_fits
    ∙ ap (with_url m)
        (scan_word-word (32 ∷ []) u 32 (p ++ (13 ∷ 10 ∷ rest)) refl line.url_word refl)
    ∙ with_url-fits m u s2 line.url_fits
    ∙ ap (with_protocol m u)
        (scan_word-word (32 ∷ []) p 13 (10 ∷ rest) refl line.protocol_word refl)
    ∙ with_protocol-fits m u p (13 ∷ 10 ∷ rest) line.protocol_fits

-- A method of 10 bytes or more, with a space behind it, overruns `method[10]` in both functions
-- that scan the request line.
pub long_method :
    (m rest : Bytes)
    → IsWord m
    → 10 ≤ length m
    → (scan_request_line (m ++ (32 ∷ rest)) ≡ fault)
      × (parse_http_request (m ++ (32 ∷ rest)) ≡ fault)
      × (forward_request (m ++ (32 ∷ rest)) ≡ fault)
unfolding scan_request_line parse_http_request forward_request with_method
long_method m rest word ge =
    let long : ltb (length m) 10 ≡ false = ground arith in
    let scanned =
      ap with_method (scan_word-word [] m 32 rest refl word refl)
      ∙ ap (λ b. (if b then ok m else fault) >>= λ method. with_url method (scan_word (32 ∷ rest)))
          long in
    (
      scanned,
      ap (λ r. r >>= λ l. written l.url >>= λ u. parse_url u) scanned,
      ap (λ r. r >>= λ l. written l.url >>= λ u. forward_line (m ++ (32 ∷ rest)) l (path_of u))
          scanned,
    )

-- ===== src/Proxy/Forward.antt =====
-- `forward_request`: the request that the target server gets.
use sp327_alonso_a.Common.{
  ◌+◌, ◌-◌, ◌≤◌, ◌<◌, ◌≡◌, refl, sym, ap, ◌∙◌, true, Option, none, some, [], ◌∷◌, ◌++◌, arith,
  length, take, drop, length-append, length-take, ltb→lt,
}
use sp327_alonso_a.Common.Bytes.{Bytes, codes, not_space, find_crlf, all_of}
use sp327_alonso_a.Proxy.{
  ok, ◌>>=◌, buffer_size, line_of, forward_line, written, path_of, rewrite_request, forward_request,
  new_line, add_headers, not_slash,
}
use sp327_alonso_a.Proxy.Scan.{
  IsWord, not_space-not_cr, strchr-none, find_crlf-line, strchr-skip, take-all, all_of-append,
  all_of_mono, not_cr,
}
use mathlib.Core.List.{append_assoc}
use sp327_alonso_a.Proxy.Line.{request, http_url, IsLine, scan_request_line-words}

pub path_of-http :
    (a path : Bytes)
    → all_of not_slash a ≡ true
    → length path < 1023
    → path_of (http_url a path) ≡ some (47 ∷ path)
unfolding path_of
path_of-http a path h lt = rw (strchr-skip a path h, take-all 1023 (47 ∷ path) (omega arith))

path_of-root :
    (a : Bytes) → all_of not_slash a ≡ true → path_of (codes "http://" ++ a) ≡ some (47 ∷ [])
unfolding path_of
path_of-root a h = rw (strchr-none a h)

-- the words of a request line, without its end
abbrev words : (method path protocol : Bytes) → Bytes
words m u p = m ++ (32 ∷ u ++ (32 ∷ p))

request-words : (m u p rest : Bytes) → request m u p rest ≡ words m u p ++ (13 ∷ 10 ∷ rest)
request-words m u p rest =
    ap (λ s. m ++ (32 ∷ s)) (sym (append_assoc u (32 ∷ p) (13 ∷ 10 ∷ rest)))
    ∙ sym (append_assoc m (32 ∷ u ++ (32 ∷ p)) (13 ∷ 10 ∷ rest))

length-request :
    (m u p rest : Bytes)
    → length (request m u p rest) ≡ length m + length u + length p + length rest + 4
length-request m u p rest = omega (
  arith,
  length-append m (32 ∷ u ++ (32 ∷ p ++ (13 ∷ 10 ∷ rest))),
  length-append u (32 ∷ p ++ (13 ∷ 10 ∷ rest)),
  length-append p (13 ∷ 10 ∷ rest),
)

no_cr : (w : Bytes) → IsWord w → all_of not_cr w ≡ true
no_cr w h = all_of_mono not_space not_cr w not_space-not_cr h.letters

find_crlf-request :
    (m u p rest : Bytes) → IsLine m u p → find_crlf (request m u p rest) ≡ some (13 ∷ 10 ∷ rest)
find_crlf-request m u p rest line =
    ap find_crlf (request-words m u p rest)
    ∙ find_crlf-line (words m u p) rest (
        all_of-append not_cr m (32 ∷ u ++ (32 ∷ p)) (no_cr m line.method_word)
          (all_of-append not_cr u (32 ∷ p) (no_cr u line.url_word) (no_cr p line.protocol_word)))

add_headers-fits :
    (line rest : Bytes)
    → length line + length rest < buffer_size
    → add_headers line (some (13 ∷ 10 ∷ rest)) ≡ line ++ rest
add_headers-fits line rest lt =
    ap (λ s. line ++ s) (take-all (buffer_size - length line - 1) rest (omega arith))

add_headers-bound :
    (line : Bytes) (found : Option Bytes)
    → length line < buffer_size
    → length (add_headers line found) < buffer_size
add_headers-bound line none lt = lt
add_headers-bound line (some headers) lt =
    let rest = take (buffer_size - length line - 1) (drop 2 headers) in
    omega
      (arith, length-append line rest, length-take (buffer_size - length line - 1) (drop 2 headers))

rewrite_request-fits :
    (m u p path rest : Bytes)
    → IsLine m u p
    → length path ≤ length u
    → length (request m u p rest) < buffer_size
    → rewrite_request m path p (request m u p rest) ≡ request m path p rest
unfolding rewrite_request
rewrite_request-fits m u p path rest line le lt =
    let whole = length-request m u p rest in
    let short = length-request m path p [] in
    ap (λ l. add_headers l (find_crlf (request m u p rest)))
      (take-all (buffer_size - 1) (request m path p []) (omega arith))
    ∙ ap (add_headers (request m path p [])) (find_crlf-request m u p rest line)
    ∙ add_headers-fits (request m path p []) rest (omega arith)
    ∙ ap (λ l. l ++ rest) (request-words m path p [])
    ∙ append_assoc (words m path p) (13 ∷ 10 ∷ []) rest
    ∙ sym (request-words m path p rest)

forward_line-words :
    (buffer m u p path : Bytes)
    → forward_line buffer (line_of (some m) (some u) (some p)) (some path)
      ≡ ok (some (rewrite_request m path p buffer))
unfolding forward_line
forward_line-words buffer m u p path = refl

forward_request-words :
    (m u p rest path : Bytes)
    → IsLine m u p
    → path_of u ≡ some path
    → length path ≤ length u
    → length (request m u p rest) < buffer_size
    → forward_request (request m u p rest) ≡ ok (some (request m path p rest))
unfolding forward_request
forward_request-words m u p rest path line found le lt =
    let b = request m u p rest in
    ap (λ r. r >>= λ l. written l.url >>= λ url. forward_line b l (path_of url))
      (scan_request_line-words m u p rest line)
    ∙ ap (forward_line b (line_of (some m) (some u) (some p))) found
    ∙ forward_line-words b m u p path
    ∙ ap (λ r. ok (some r)) (rewrite_request-fits m u p path rest line le lt)

length-http_url : (a path : Bytes) → length (http_url a path) ≡ 8 + length a + length path
length-http_url a path = omega (arith, length-append a (47 ∷ path))

-- A request for `http://authority/path`, with no `/` in the authority, whose words fit their arrays
-- and whose bytes fit the buffer, is sent to the target server by `forward_request` with
-- `/path` in place of the URL and is otherwise unchanged: method, protocol, headers and body are
-- forwarded byte by byte, and nothing is cut off.
pub forward_request-http :
    (m a path p rest : Bytes)
    → IsLine m (http_url a path) p
    → all_of not_slash a ≡ true
    → length (request m (http_url a path) p rest) < buffer_size
    → forward_request (request m (http_url a path) p rest)
      ≡ ok (some (request m (47 ∷ path) p rest))
forward_request-http m a path p rest line authority lt =
    let size = length-http_url a path in
    let fits = ltb→lt (length (http_url a path)) 1024 line.url_fits in
    forward_request-words m (http_url a path) p rest (47 ∷ path) line
      (path_of-http a path authority (omega arith)) (omega arith) lt

-- A request for `http://authority`, under the same conditions, asks the target server for `/`.
pub forward_request-root :
    (m a p rest : Bytes)
    → IsLine m (codes "http://" ++ a) p
    → all_of not_slash a ≡ true
    → length (request m (codes "http://" ++ a) p rest) < buffer_size
    → forward_request (request m (codes "http://" ++ a) p rest)
      ≡ ok (some (request m (47 ∷ []) p rest))
forward_request-root m a p rest line authority lt =
    forward_request-words m (codes "http://" ++ a) p rest (47 ∷ []) line (path_of-root a authority)
      (omega arith) lt

-- Whatever the words, the path and the buffer are, the request that is built has at most 4,095
-- bytes, so that `modified_request` holds it with its final NUL.
pub rewrite_request-bound :
    (m path p buffer : Bytes) → length (rewrite_request m path p buffer) < buffer_size
unfolding rewrite_request
rewrite_request-bound m path p buffer =
    add_headers-bound (new_line m path p) (find_crlf buffer)
      (omega (arith, length-take (buffer_size - 1) (request m path p [])))

-- ===== src/Echo/Exchange.antt =====
-- client_solution.c and server_solution.c on one connection.
use sp327_alonso_a.Common.{
  ℕ, zero, suc, ◌≤◌, ◌≡◌, refl, ap, Bool, true, false, ◌&&◌, ◌||◌, not, none, some, List, [], ◌∷◌,
  ◌++◌, length, take, ◌==◌, if◌then◌else◌, arith, Bool-cases, inl, inr,
}
use sp327_alonso_a.Common.Bytes.{Bytes}
use sp327_alonso_a.Common.Int.{ℤ, pos, is_negative}
use sp327_alonso_a.Echo.{c_string, fgets, message, reply, server_solution}
use sp327_alonso_a.Echo.Client.{AddrInfo, try_addresses, client_solution}

-- Addresses of which none connects, and the sockets that are opened for them.
abbrev pub all_fail : List AddrInfo → Bool
all_fail [] = true
all_fail (a ∷ rest) = (is_negative a.sock || not a.connects) && all_fail rest

abbrev pub opened_for : List AddrInfo → List ℤ
opened_for [] = []
opened_for (a ∷ rest) = if is_negative a.sock then opened_for rest else a.sock ∷ opened_for rest

and_right : (a b : Bool) → (a && b) ≡ true → b ≡ true
and_right a b h = ground arith

try_addresses-found :
    (bad : List AddrInfo) (good : AddrInfo) (rest : List AddrInfo)
    → all_fail bad ≡ true
    → is_negative good.sock ≡ false
    → good.connects ≡ true
    → try_addresses (bad ++ good ∷ rest) ≡ (opened_for bad, some good.sock)
unfolding try_addresses
try_addresses-found [] good rest h s c = ground arith
try_addresses-found (a ∷ bad) good rest h s c = ground (
  arith,
  try_addresses-found bad good rest
      (and_right (is_negative a.sock || not a.connects) (all_fail bad) h) s c,
)

pub try_addresses-none :
    (bad : List AddrInfo) → all_fail bad ≡ true → try_addresses bad ≡ (opened_for bad, none)
unfolding try_addresses
try_addresses-none [] h = refl
try_addresses-none (a ∷ bad) h = ground (
  arith,
  try_addresses-none bad (and_right (is_negative a.sock || not a.connects) (all_fail bad) h),
)

-- A cut string is a string.
c_string-take : (k : ℕ) (s : Bytes) → c_string (take k (c_string s)) ≡ take k (c_string s)
c_string-take zero s = refl
c_string-take (suc k) [] = refl
c_string-take (suc k) (c ∷ s) = elim (Bool-cases (c == 0)) [
  | inl e ↦ rw e
  | inr e ↦ rw (e, e) (ap (λ t. c ∷ t) (c_string-take k s))
]

length-fgets : (left : ℕ) (input : Bytes) → length (fgets left input) ≤ left
length-fgets zero input = omega arith
length-fgets (suc left) [] = omega arith
length-fgets (suc left) (c ∷ input) = ground (arith, length-fgets left input)

length-c_string : (s : Bytes) → length (c_string s) ≤ length s
length-c_string [] = omega arith
length-c_string (c ∷ s) = ground (arith, length-c_string s)

-- The client is started with a host whose addresses first fail, and then one connects; the server
-- with calls that succeed. The server receives the first `k` bytes of what the client has sent, and
-- the client the first `j` bytes of the answer. Then the client has sent the first line of its
-- input, up to a NUL and at most 254 bytes, the server prints just the bytes that it received, the
-- client those of the answer, both end normally, and both have closed every socket that they
-- opened.
pub exchange :
    (input : Bytes) (k j argc written sending accept socket : ℕ) (bad : List AddrInfo)
    (good : AddrInfo) (rest : List AddrInfo)
    → 3 ≤ argc
    → all_fail bad ≡ true
    → is_negative good.sock ≡ false
    → good.connects ≡ true
    → (client_solution argc (some (bad ++ good ∷ rest)) input (pos written) (some (take j reply))
        ≡ record {
          printed = some (take j reply);
          sent = message input;
          closed = opened_for bad ++ good.sock ∷ [];
          failure = none;
        })
      × (server_solution (record {
        socket = pos socket;
        setsockopt = pos 0;
        bind = pos 0;
        listen = pos 0;
        accept = pos accept;
        received = some (take k (message input));
        sending = pos sending;
      })
          ≡ record {
            printed = some (take k (message input));
            sent = reply;
            closed = pos accept ∷ pos socket ∷ [];
            failure = none;
          })
      × (length (message input) ≤ 254)
unfolding client_solution server_solution
exchange input k j argc written sending accept socket bad good rest args fails sock connects = (
  ground (arith, try_addresses-found bad good rest fails sock connects, c_string-take j reply),
  ground (arith, c_string-take k (fgets 254 input)),
  omega (arith, length-fgets 254 input, length-c_string (fgets 254 input)),
)

-- ===== src/Checks/SystemRun.antt =====
-- The theorems on Testing_server, M5, M6 and the start of M8 at concrete inputs.
use mathlib.Core.Path.{subst}
use sp327_alonso_a.Common.{
  ◌≤◌, ◌≡◌, refl, sym, ◌||◌, ◌&&◌, true, false, none, some, [], ◌∷◌, ◌++◌, length, arith, ◌==◌,
  if◌then◌else◌,
}
use sp327_alonso_a.Common.Bytes.{Bytes, codes}
use sp327_alonso_a.Common.Int.{pos}
use sp327_alonso_a.Common.Run.{ok}
use sp327_alonso_a.Echo.{message, reply, server_solution}
use sp327_alonso_a.Echo.Client.{AddrInfo, client_solution}
use sp327_alonso_a.Echo.Exchange.{exchange}
use sp327_alonso_a.SystemInfo.{lines, value, first_line, get_cpu_info, Cpu}
use sp327_alonso_a.SystemInfo.Fits.{AllLines, WellFormed, get_cpu_info_fits}
use sp327_alonso_a.Credentials.{Ids, Kernel, user, setuid_demo}
use sp327_alonso_a.Credentials.Drop.{may_take, Documented, ids_of, setuid_demo_lem}

abbrev refusing : AddrInfo
refusing = record { ai_family = 10; text = codes "::1"; sock = pos 3; connects = false }

abbrev accepting : AddrInfo
accepting = record { ai_family = 2; text = codes "127.0.0.1"; sock = pos 4; connects = true }

abbrev typed : Bytes
typed = codes "hello" ++ 10 ∷ codes "more"

exchange_example :
    (client_solution 3
        (some (refusing ∷ accepting ∷ []))
        typed
        (pos 6)
        (some (codes "I got your message"))
      ≡ record {
        printed = some (codes "I got your message");
        sent = codes "hello" ++ 10 ∷ [];
        closed = pos 3 ∷ pos 4 ∷ [];
        failure = none;
      })
    × (server_solution (record {
      socket = pos 5;
      setsockopt = pos 0;
      bind = pos 0;
      listen = pos 0;
      accept = pos 6;
      received = some (codes "hell");
      sending = pos 18;
    })
        ≡ record {
          printed = some (codes "hell");
          sent = reply;
          closed = pos 6 ∷ pos 5 ∷ [];
          failure = none;
        })
    × (length (message typed) ≤ 254)
exchange_example =
    exchange typed 4 18 3 6 18 6 5 (refusing ∷ []) accepting [] (omega arith) refl refl refl

abbrev cpuinfo : Bytes
cpuinfo = codes "vendor_id : Ex" ++ 10 ∷ codes "cpu cores : 4" ++ 10 ∷ []

cpuinfo_lines :
    lines 255 255 cpuinfo
    ≡ (codes "vendor_id : Ex" ++ 10 ∷ []) ∷ (codes "cpu cores : 4" ++ 10 ∷ []) ∷ []
unfolding lines
cpuinfo_lines = refl

get_cpu_info_fits_example :
    (c : Cpu) × (get_cpu_info (some cpuinfo) ≡ ok (value c))
    × (length c.model ≤ 253)
    × (length c.model_type ≤ 253)
get_cpu_info_fits_example =
    get_cpu_info_fits cpuinfo (subst (AllLines WellFormed) (sym cpuinfo_lines) (refl, (refl, tt)))

abbrev uptime : Bytes
uptime = codes "90061.5 1.0"

uptime_line : first_line 255 uptime ≡ some uptime
unfolding lines
uptime_line = refl

-- a kernel that keeps the three IDs
abbrev plain : Kernel
plain = record {
  State = Ids;
  getresuid = λ i. some i;
  getuid = λ i. i.ruid;
  seteuid = λ u i. if may_take u i then some (record i { euid = u }) else none;
  setresuid =
      λ r e s i. if may_take r i && may_take e i && may_take s i then some (ids_of r e s) else none;
  setuid = λ u i.
      if i.euid == 0
      then some (ids_of u u u)
      else if u == i.ruid || u == i.suid
      then some (record i { euid = u })
      else none;
}

plain-Documented : Documented plain
plain-Documented = record {
  ids = λ i. i;
  getresuid_ids = λ s. refl;
  getuid_real = λ s. refl;
  seteuid_allowed = λ u s h. (record s { euid = u }, rw h, refl);
  setresuid_allowed = λ u s h. (ids_of u u u, rw h, refl);
  setuid_privileged = λ u s h. (ids_of u u u, rw h, refl);
  setuid_denied = λ u s h. ground arith;
}

setuid_demo_lem_example : setuid_demo plain (ids_of 1001 0 0) ≡ record {
  printed =
      ids_of 1001 0 0
      ∷ ids_of 1001 user 0
      ∷ ids_of 1001 0 0
      ∷ ids_of 1001 user 0
      ∷ ids_of 1001 1001 1001
      ∷ [];
  succeeded = false;
}
unfolding plain-Documented
setuid_demo_lem_example = setuid_demo_lem plain plain-Documented (ids_of 1001 0 0) 1001 refl

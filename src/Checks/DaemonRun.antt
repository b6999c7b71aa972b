-- ===== src/Checks/DaemonRun.antt =====
-- daemon_trad.c, started as process 100 with five descriptors open and signal 2 blocked.
use sp327_alonso_a.Common.{◌≡◌, ◌≢◌, refl, arith, true, some, none, ltb, ◌==◌, if◌then◌else◌, false}
use sp327_alonso_a.Daemon.{
  other_file, Process, Calls, exited, pausing, three, daemonize_traditional,
}
use sp327_alonso_a.Daemon.Started.{Reset, Descriptors, daemonized}

abbrev started : Process
started = record {
  pid = 100;
  session = 90;
  fds = λ i. if ltb i 5 then some (other_file i) else none;
  default_handler = λ _. false;
  blocked = λ i. i == 2;
  umask = 18;
  in_root = false;
}

abbrev calls : Calls
calls = record {
  prlimit = some 1024;
  sigaction = λ _. true;
  sigemptyset = true;
  first_fork = some 101;
  setsid = true;
  second_fork = some 102;
  open_null = some 3;
  dup2 = λ _. true;
  chdir = true;
}

daemonized_example :
    (d : Process) × (daemonize_traditional calls started ≡ three exited exited (pausing d))
    × Descriptors 1024 3 started.fds d.fds
    × Reset 64 1 started.default_handler d.default_handler
    × (d.pid ≡ 102)
    × (d.session ≡ 101)
    × (d.pid ≢ d.session)
    × (d.umask ≡ 0)
    × (d.in_root ≡ true)
    × (d.blocked ≡ started.blocked)
daemonized_example =
    daemonized calls started 1024 101 102 3 (omega arith) (omega arith) refl (λ j e. refl) refl refl
      refl refl (omega arith) refl (omega arith) (λ j. refl) refl

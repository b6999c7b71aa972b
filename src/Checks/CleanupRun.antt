-- ===== src/Checks/CleanupRun.antt =====
-- cleanup_hdlr.c with five rounds, in the third of which the first thread is canceled.
use sp327_alonso_a.Common.{◌+◌, ◌≡◌, refl, some, true, false, [], ◌∷◌}
use sp327_alonso_a.Common.Int.{pos}
use sp327_alonso_a.Cleanup.{written, joined, success, Calls, cleanup_hdlr}
use sp327_alonso_a.Cleanup.Freed.{buffers_freed}

abbrev calls : Calls
calls = record {
  fopen = λ _. true;
  create = λ _. true;
  malloc = λ t. some (t + 50);
  rounds = λ _ _. written;
  pthread_cancel = true;
  cancel_at = 2;
  pthread_join = λ _. 0;
}

buffers_freed_example :
    cleanup_hdlr calls (pos 5 ∷ pos 1 ∷ [])
    ≡ success (joined 0 true ∷ joined 1 false ∷ []) (50 ∷ []) (51 ∷ [])
buffers_freed_example =
    buffers_freed calls 4 (pos 1) 50 51 (λ _. refl) (λ _. refl) refl refl (λ _ _. refl) refl
      (λ _. refl)

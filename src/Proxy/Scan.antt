-- ===== src/Proxy/Scan.antt =====
-- How `sscanf`, `strchr` and `strstr` read a string that is put together from known parts.
use sp327_alonso_a.Common.{
  ℕ, zero, suc, inl, inr, ◌≤◌, ◌≡◌, refl, ap, Bool, true, false, not, none, some, [], ◌∷◌, ◌++◌,
  arith, ltb, ◌==◌, length, take, Bool-cases,
}
use sp327_alonso_a.Common.Bytes.{
  Bytes, is_space, not_space, span, span_max, strchr, find_crlf, scan_word, all_of,
}
use sp327_alonso_a.Proxy.{not_slash}

pub all_of-head : (p : ℕ → Bool) (c : ℕ) (w : Bytes) → all_of p (c ∷ w) ≡ true → p c ≡ true
all_of-head p c w h = elim (Bool-cases (p c)) [ inl holds ↦ holds | inr fails ↦ cc ]

pub all_of-tail : (p : ℕ → Bool) (c : ℕ) (w : Bytes) → all_of p (c ∷ w) ≡ true → all_of p w ≡ true
all_of-tail p c w h = rw (all_of-head p c w h) at h

pub span-stop :
    (p : ℕ → Bool) (w : Bytes) {c : ℕ} {s : Bytes}
    → all_of p w ≡ true
    → p c ≡ false
    → span p (w ++ (c ∷ s)) ≡ (w, c ∷ s)
span-stop p [] h stop = rw stop
span-stop p (d ∷ w) {c} {s} h stop =
    rw (all_of-head p d w h, span-stop p w {c = c} {s = s} (all_of-tail p d w h) stop)

pub span_max-stop :
    (p : ℕ → Bool) (max : ℕ) (w : Bytes) {c : ℕ} {s : Bytes}
    → all_of p w ≡ true
    → p c ≡ false
    → length w ≤ max
    → span_max max p (w ++ (c ∷ s)) ≡ (w, c ∷ s)
span_max-stop p zero [] h stop le = refl
span_max-stop p zero (d ∷ w) h stop le = absurd (omega arith)
span_max-stop p (suc max) [] h stop le = rw stop
span_max-stop p (suc max) (d ∷ w) {c} {s} h stop le = rw (
  all_of-head p d w h,
  span_max-stop p max w {c = c} {s = s} (all_of-tail p d w h) stop (omega arith),
)

-- A word: at least one byte, and no white space.
pub record IsWord (w : Bytes) : Type 0 where
  pub first : ltb 0 (length w) ≡ true
  pub letters : all_of not_space w ≡ true

not_space-false : (c : ℕ) → is_space c ≡ true → not_space c ≡ false
not_space-false c h = rw h

is_space-false : (c : ℕ) → not_space c ≡ true → is_space c ≡ false
is_space-false c h = elim (Bool-cases (is_space c)) [ inl holds ↦ cc | inr fails ↦ fails ]

-- `%s` skips the white space before a word and stops behind it.
pub scan_word-word :
    (gap w : Bytes) (c : ℕ) (s : Bytes)
    → all_of is_space gap ≡ true
    → IsWord w
    → is_space c ≡ true
    → scan_word (gap ++ (w ++ (c ∷ s))) ≡ some (w, c ∷ s)
scan_word-word gap [] c s blank h stop = cc
scan_word-word gap (d ∷ w) c s blank h stop =
    let letter = all_of-head not_space d w h.letters in
    rw (
      span-stop is_space gap {c = d} {s = w ++ (c ∷ s)} blank (is_space-false d letter),
      letter,
      span-stop not_space w {c = c} {s = s} (all_of-tail not_space d w h.letters)
          (not_space-false c stop),
    )

-- `strstr` finds the first CR LF behind a part without CR.
abbrev pub not_cr : ℕ → Bool
not_cr c = not (c == 13)

pub find_crlf-line :
    (line rest : Bytes)
    → all_of not_cr line ≡ true
    → find_crlf (line ++ (13 ∷ 10 ∷ rest)) ≡ some (13 ∷ 10 ∷ rest)
find_crlf-line [] rest h = refl
find_crlf-line (c ∷ []) rest h = ground (arith, all_of-head not_cr c [] h)
find_crlf-line (c ∷ d ∷ line) rest h =
    let tail = find_crlf-line (d ∷ line) rest (all_of-tail not_cr c (d ∷ line) h) in
    ground (arith, all_of-head not_cr c (d ∷ line) h, tail)

pub strchr-skip :
    (w s : Bytes) → all_of not_slash w ≡ true → strchr 47 (w ++ (47 ∷ s)) ≡ some (47 ∷ s)
strchr-skip [] s h = refl
strchr-skip (d ∷ w) s h =
    let tail = strchr-skip w s (all_of-tail not_slash d w h) in
    ground (arith, all_of-head not_slash d w h, tail)

pub take-all : (n : ℕ) (w : Bytes) → length w ≤ n → take n w ≡ w
take-all zero [] le = refl
take-all zero (c ∷ w) le = absurd (omega arith)
take-all (suc n) [] le = refl
take-all (suc n) (c ∷ w) le = ap (λ s. c ∷ s) (take-all n w (omega arith))

pub all_of-append :
    (p : ℕ → Bool) (v w : Bytes) → all_of p v ≡ true → all_of p w ≡ true → all_of p (v ++ w) ≡ true
all_of-append p [] w hv hw = hw
all_of-append p (c ∷ v) w hv hw =
    rw (all_of-head p c v hv, all_of-append p v w (all_of-tail p c v hv) hw)

pub all_of_mono :
    (p q : ℕ → Bool) (w : Bytes)
    → ((c : ℕ) → p c ≡ true → q c ≡ true)
    → all_of p w ≡ true
    → all_of q w ≡ true
all_of_mono p q [] imp h = refl
all_of_mono p q (c ∷ w) imp h =
    rw (imp c (all_of-head p c w h), all_of_mono p q w imp (all_of-tail p c w h))

pub strchr-none : (w : Bytes) → all_of not_slash w ≡ true → strchr 47 w ≡ none
strchr-none [] h = refl
strchr-none (d ∷ w) h =
    let tail = strchr-none w (all_of-tail not_slash d w h) in
    ground (arith, all_of-head not_slash d w h, tail)

pub not_space-not_cr : (c : ℕ) → not_space c ≡ true → not_cr c ≡ true
not_space-not_cr c h = ground (arith, h)

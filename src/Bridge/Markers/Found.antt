-- ===== src/Bridge/Markers/Found.antt =====
-- The marker matcher (hw_bringup/ps_linux_boot.c) against the places of the marker in a text.
use zynq_cpu.Base.{
  ℕ, zero, suc, ◌+◌, ◌-◌, ◌≤◌, ◌<◌, ◌≡◌, ◌≢◌, refl, ap, ◌↔◌, not, ◌||◌, ◌==◌, if◌then◌else◌, Bool,
  true, false, List, length, arith,
}
use zynq_cpu.Base.Bits.{all_below, all_below_sound}
use native.Mathlib.Decide.{ℕ_discrete, dec_lt}
use zynq_cpu.Console.Writer.{char_at}
use zynq_cpu.Bridge.Markers.{match_step, idle_marker, welcome_marker, login_marker}

-- The first character of the marker stands nowhere else in it.
abbrev pub StartsOnce : List ℕ → Type 0
StartsOnce marker = (i : ℕ) → 0 < i → i < length marker → char_at marker i ≢ char_at marker 0

-- The last `k` of the first `n` bytes of a text are the first `k` of the marker.
abbrev pub Ends : List ℕ → (ℕ → ℕ) → ℕ → ℕ → Type 0
Ends marker text n k = (k ≤ n) × ((i : ℕ) → i < k → text (n - k + i) ≡ char_at marker i)

-- The characters matched after `n` bytes.
unfoldable pub matched : List ℕ → (ℕ → ℕ) → ℕ → ℕ
matched marker text zero = 0
matched marker text (suc n) = (match_step marker (matched marker text n) (text n)).0

module _ (marker : List ℕ) (once : StartsOnce marker) (long : 1 < length marker) where
  -- The state is the longest match that is not the whole marker.
  record Longest (text : ℕ → ℕ) (n m : ℕ) : Type 0 where
    short : m < length marker
    ends : Ends marker text n m
    most : (k : ℕ) → m < k → k < length marker → Ends marker text n k → ⊥

  longer : (text : ℕ → ℕ) (n k : ℕ) → Ends marker text (suc n) (suc k) → Ends marker text n k
  longer text n k (le, e) = (
    omega arith,
    λ i h. let at : suc n - suc k + i ≡ n - k + i = omega arith in rw at at (e i (omega arith)),
  )

  last : (text : ℕ → ℕ) (n k : ℕ) → Ends marker text (suc n) (suc k) → text n ≡ char_at marker k
  last text n k (le, e) =
      let at : suc n - suc k + k ≡ n = omega arith in rw at at (e k (omega arith))

  grown :
      (text : ℕ → ℕ) (n k : ℕ)
      → Ends marker text n k
      → text n ≡ char_at marker k
      → Ends marker text (suc n) (k + 1)
  grown text n k (le, e) t = (
    omega arith,
    λ i h. elim (ℕ_discrete i k) [
      | yes q ↦ let at : suc n - (k + 1) + i ≡ n = omega arith in rw (at, q) t
      | no ne ↦ let at : suc n - (k + 1) + i ≡ n - k + i = omega arith in rw at (e i (omega arith))
    ],
  )

  -- A shorter match cannot start inside a longer one.
  inside :
      (text : ℕ → ℕ) (n m k : ℕ)
      → m ≤ length marker
      → Ends marker text n m
      → 0 < k
      → k < m
      → Ends marker text n k
      → ⊥
  inside text n m k h (le, e) pos lt (le', e') =
      let at : n - m + (m - k) ≡ n - k + 0 = omega arith in
      let same = e (m - k) (omega arith) in
      let first = e' 0 pos in
      once (m - k) (omega arith) (omega arith) (ground (arith, ap text at, same, first))

  -- After a byte that is not the next one, no match is left but one of the byte alone.
  broken :
      (text : ℕ → ℕ) (n m k : ℕ)
      → Longest text n m
      → text n ≢ char_at marker m
      → 1 < k
      → k ≤ length marker
      → Ends marker text (suc n) k
      → ⊥
  broken text n m zero w ne lo hi e = absurd (omega arith)
  broken text n m (suc k) w ne lo hi e = elim (ℕ_discrete k m) [
    | yes q ↦ ne (rw q at (last text n k e))
    | no nq ↦ elim (dec_lt k m) [
      | yes lt ↦
          inside text n m k (omega (arith, w.short)) w.ends (omega arith) lt (longer text n k e)
      | no nlt ↦ w.most k (omega arith) (omega arith) (longer text n k e)
    ]
  ]

  record Correct (text : ℕ → ℕ) (n : ℕ) (r : ℕ × Bool) : Type 0 where
    longest : Longest text (suc n) r.0
    found : (r.1 ≡ true) ↔ Ends marker text (suc n) (length marker)

  complete :
      (text : ℕ → ℕ) (n m : ℕ)
      → Longest text n m
      → text n ≡ char_at marker m
      → m + 1 ≡ length marker
      → Correct text n (0, true)
  complete text n m w t e =
      let whole : Ends marker text (suc n) (length marker) = rw (← e) (grown text n m w.ends t) in
      record {
        longest = record {
          short = omega arith;
          ends = (omega arith, λ i h. absurd (omega arith));
          most = λ k lo hi f. inside text (suc n) (length marker) k (omega arith) whole lo hi f;
        };
        found = (λ q. whole, λ q. refl);
      }

  extended :
      (text : ℕ → ℕ) (n m : ℕ)
      → Longest text n m
      → text n ≡ char_at marker m
      → m + 1 ≢ length marker
      → Correct text n (m + 1, false)
  extended text n m w t e =
      let longest_still : (k : ℕ) → m + 1 < k → k ≤ length marker → Ends marker text (suc n) k → ⊥ =
        beyond in
      record {
        longest = record {
          short = omega (arith, w.short);
          ends = grown text n m w.ends t;
          most = λ k lo hi f. longest_still k lo (omega arith) f;
        };
        found = (
          λ q. absurd (ground (arith, q)),
          λ f. absurd (longest_still (length marker) (omega (arith, w.short)) (omega arith) f),
        );
      }
    where
      beyond : (k : ℕ) → m + 1 < k → k ≤ length marker → Ends marker text (suc n) k → ⊥
      beyond zero lo hi f = absurd (omega arith)
      beyond (suc k) lo hi f = w.most k (omega arith) (omega arith) (longer text n k f)

  restarted :
      (text : ℕ → ℕ) (n m : ℕ)
      → Longest text n m
      → text n ≢ char_at marker m
      → Correct text n (if text n == char_at marker 0 then 1 else 0, false)
  restarted text n m w ne = elim (ℕ_discrete (text n) (char_at marker 0)) [
    | yes e ↦
        let t : (text n == char_at marker 0) ≡ true = ground arith in
        rw t (record {
          longest = record {
            short = long;
            ends = grown text n 0 (omega arith, λ i h. absurd (omega arith)) e;
            most = λ k lo hi f. broken text n m k w ne lo (omega arith) f;
          };
          found = never;
        })
    | no e ↦
        let t : (text n == char_at marker 0) ≡ false = ground arith in
        rw t (record {
          longest = record {
            short = omega arith;
            ends = (omega arith, λ i h. absurd (omega arith));
            most = λ k lo hi f. elim (ℕ_discrete k 1) [
              | yes one ↦ absurd (e (last text n 0 (rw one at f)))
              | no more ↦ broken text n m k w ne (omega arith) (omega arith) f
            ];
          };
          found = never;
        })
  ]
    where
      never : (false ≡ true) ↔ Ends marker text (suc n) (length marker)
      never = (
        λ q. absurd (ground (arith, q)),
        λ f. absurd (broken text n m (length marker) w ne long (omega arith) f),
      )

  step-Correct :
      (text : ℕ → ℕ) (n m : ℕ) → Longest text n m → Correct text n (match_step marker m (text n))
  unfolding match_step
  step-Correct text n m w = elim (ℕ_discrete (text n) (char_at marker m)) [
    | no ne ↦
        let t : (text n == char_at marker m) ≡ false = ground arith in
        rw t (restarted text n m w ne)
    | yes e ↦
        let t : (text n == char_at marker m) ≡ true = ground arith in
        elim (ℕ_discrete (m + 1) (length marker)) [
          | yes full ↦
              let f : (m + 1 == length marker) ≡ true = ground arith in
              rw (t, f) (complete text n m w e full)
          | no more ↦
              let f : (m + 1 == length marker) ≡ false = ground arith in
              rw (t, f) (extended text n m w e more)
        ]
  ]

  matched-Longest : (text : ℕ → ℕ) (n : ℕ) → Longest text n (matched marker text n)
  unfolding matched
  matched-Longest text zero = record {
    short = omega arith;
    ends = (omega arith, λ i h. absurd (omega arith));
    most = λ k lo hi (le, e). absurd (omega arith);
  }
  matched-Longest text (suc n) =
      (step-Correct text n (matched marker text n) (matched-Longest text n)).longest

  -- The matcher reports the marker at a byte exactly when the text read up to that byte, the byte
  -- included, ends in the marker. The marker is longer than one character, and its first character
  -- stands nowhere else in it.
  pub match_step_lem :
      (text : ℕ → ℕ) (n : ℕ)
      → ((match_step marker (matched marker text n) (text n)).1 ≡ true)
        ↔ Ends marker text (suc n) (length marker)
  match_step_lem text n =
      (step-Correct text n (matched marker text n) (matched-Longest text n)).found

starts_once :
    (marker : List ℕ)
    → all_below (length marker) (λ i. i == 0 || not (char_at marker i == char_at marker 0)) ≡ true
    → StartsOnce marker
starts_once marker table i pos lt = ground (
  arith,
  all_below_sound (length marker) (λ i. i == 0 || not (char_at marker i == char_at marker 0)) i
      table lt,
)

-- The three markers of the boot's progress start with a character that they do not repeat.
pub markers-StartsOnce :
    StartsOnce idle_marker × StartsOnce welcome_marker × StartsOnce login_marker
unfolding all_below
markers-StartsOnce =
    (starts_once idle_marker refl, starts_once welcome_marker refl, starts_once login_marker refl)

-- ===== src/Pow/Search.antt =====
-- internal/pow/pow.go, `Search`: the workers, one atomic step of one worker at a time, under any
-- schedule.
use nexum.Prelude.{
  ℕ, ◌+◌, ◌-◌, ◌%◌, ◌^◌, ◌≡◌, refl, Bool, true, false, List, [], ◌∷◌, arith, ltb, nat_eq,
  if◌then◌else◌, if_rule, subst, if_cases,
}
use nexum.Errors.{ok}
use nexum.Std.{Bytes}
use nexum.Pow
use nexum.Pow.{Header, valid, in_bounds}

-- Where a worker stands: before `ok.Load()` with its next nonce, before the test of the nonce, before
-- `found.Store(n)`, before `ok.Store(true)`, and returned.
pub data Worker : Type 0 where
  searching testing storing stored : ℕ → Worker
  finished : Worker

-- The two shared variables, and the workers by number.
pub record State : Type 0 where
  pub found : ℕ
  pub is_ok : Bool
  pub worker : ℕ → Worker

abbrev pub set : (ℕ → Worker) → ℕ → Worker → ℕ → Worker
set f i w j = if nat_eq i j then w else f j

module _ (keccak : Bytes → Bytes) (h : Header) (workers : ℕ) where
  abbrev pub start : State
  start = record { found = 2 ^ 64 - 1; is_ok = false; worker = λ w. searching (w % 2 ^ 64) }

  abbrev pub hits : ℕ → Bool
  hits n = valid keccak (record h { nonce = n })

  -- One step of worker `i`, whose place is given. The nonce is a uint64 and wraps.
  unfoldable pub advance : State → ℕ → Worker → State
  advance s i (searching n) = record s {
    worker = set s.worker i (if s.is_ok then finished else testing n);
  }
  advance s i (testing n) = record s {
    worker = set s.worker i (if hits n then storing n else searching ((n + workers) % 2 ^ 64));
  }
  advance s i (storing n) = record s { found = n; worker = set s.worker i (stored n) }
  advance s i (stored n) = record s { is_ok = true; worker = set s.worker i finished }
  advance s i finished = s

  unfoldable pub step : State → ℕ → State
  unfolding advance
  step s i = if ltb i workers then advance s i (s.worker i) else s

  -- The workers take their steps in the order of a schedule.
  unfoldable pub run : List ℕ → State → State
  unfolding step
  run [] s = s
  run (i ∷ rest) s = run rest (step s i)

  -- What the place of a worker says of the shared variables.
  abbrev Fits : ℕ → Bool → Worker → Type 0
  Fits found is_ok (searching n) = Unit
  Fits found is_ok (testing n) = Unit
  Fits found is_ok (storing n) = hits n ≡ true
  Fits found is_ok (stored n) = hits found ≡ true
  Fits found is_ok finished = is_ok ≡ true

  record Inv (s : State) : Type 0 where
    pub answered : s.is_ok ≡ true → hits s.found ≡ true
    pub fits : (i : ℕ) → Fits s.found s.is_ok (s.worker i)

  -- The places of the others still fit where a hit is found, or all is answered.
  Fits-found : (w : Worker) (found n : ℕ) (b : Bool) → hits n ≡ true → Fits found b w → Fits n b w
  Fits-found (searching k) found n b hit f = tt
  Fits-found (testing k) found n b hit f = tt
  Fits-found (storing k) found n b hit f = f
  Fits-found (stored k) found n b hit f = hit
  Fits-found finished found n b hit f = f

  Fits-ok : (w : Worker) (found : ℕ) (b : Bool) → Fits found b w → Fits found true w
  Fits-ok (searching k) found b f = tt
  Fits-ok (testing k) found b f = tt
  Fits-ok (storing k) found b f = f
  Fits-ok (stored k) found b f = f
  Fits-ok finished found b f = refl

  advance-Inv :
      (s : State) (i : ℕ) (w : Worker) → Inv s → Fits s.found s.is_ok w → Inv (advance s i w)
  unfolding advance
  advance-Inv s i (searching n) v f = record {
    answered = v.answered;
    fits = λ j.
        if_rule (Fits s.found s.is_ok) (nat_eq i j)
          (if_cases (Fits s.found s.is_ok) s.is_ok (λ e. e) (λ e. tt)) (v.fits j);
  }
  advance-Inv s i (testing n) v f = record {
    answered = v.answered;
    fits = λ j.
        if_rule (Fits s.found s.is_ok) (nat_eq i j)
          (if_cases (Fits s.found s.is_ok) (hits n) (λ e. e) (λ e. tt)) (v.fits j);
  }
  advance-Inv s i (storing n) v f = record {
    answered = λ e. f;
    fits = λ j.
        if_rule (Fits n s.is_ok) (nat_eq i j) f
          (Fits-found (s.worker j) s.found n s.is_ok f (v.fits j));
  }
  advance-Inv s i (stored n) v f = record {
    answered = λ e. f;
    fits = λ j.
        if_rule (Fits s.found true) (nat_eq i j) refl
          (Fits-ok (s.worker j) s.found s.is_ok (v.fits j));
  }
  advance-Inv s i finished v f = v

  step-Inv : (s : State) (i : ℕ) → Inv s → Inv (step s i)
  unfolding step
  step-Inv s i v = if_rule Inv (ltb i workers) (advance-Inv s i (s.worker i) v (v.fits i)) v

  run-Inv : (schedule : List ℕ) (s : State) → Inv s → Inv (run schedule s)
  unfolding run
  run-Inv [] s v = v
  run-Inv (i ∷ rest) s v = run-Inv rest (step s i) (step-Inv s i v)

  start-Inv : Inv start
  start-Inv = record { answered = λ e. cc; fits = λ i. tt }

  -- Whatever the schedule and whichever worker has returned, no search fails: for a difficulty in
  -- bounds, what Search makes of the number that the workers have left by then is the header with that
  -- nonce, and that header is valid. Two workers that both hit, and store in any order, do no harm.
  pub search_returns :
      (schedule : List ℕ) (i : ℕ)
      → in_bounds h ≡ true
      → (run schedule start).worker i ≡ finished
      → let n = (run schedule start).found in
        (hits n ≡ true) × (Pow.search_result keccak h n ≡ ok (record h { nonce = n }, n))
  unfolding Pow.search_result
  search_returns schedule i bounds returned =
      let v = run-Inv schedule start start-Inv in
      let answer : (run schedule start).is_ok ≡ true =
        subst (Fits (run schedule start).found (run schedule start).is_ok) returned (v.fits i) in
      let hit = v.answered answer in (hit, ground (arith, hit, bounds))

-- ===== src/Errors/Recovery/Laws.antt =====
-- What a retry and a fallback come to, in terms of the calls they make.
use chain_forge.Errors.Recovery.{
  Result, Callable, timeout, attempts, retry_loop, retry_with_backoff, scale, fallback,
  fallback_chain, Ended, returned, thrown, with_bulkhead,
}
use chain_forge.Errors.Info.{ErrorInfo}
use chain_forge.Errors.Expected.{Expected, of_value, of_error, has_value}
use chain_forge.Base.Double.{Double}
use chain_forge.Base.{
  nat_eq, nat_eq, ◌&&◌, ◌==◌, not, ap, if◌then◌else◌, ℕ, zero, suc, ◌-◌, ◌<◌, ℤ, Bool, true, false,
  List, [], ◌∷◌, ◌≡◌, ◌⊎◌, inl, inr, refl, arith,
}

-- How many pauses stand between so many calls.
abbrev pub gaps : ℕ → ℕ
gaps zero = 0
gaps (suc n) = n

pub Expected-cases :
    {T E : Type 0} (r : Expected T E) → ((v : T) × (r ≡ of_value v)) ⊎ ((e : E) × (r ≡ of_error e))
Expected-cases (of_value v) = inl (v, refl)
Expected-cases (of_error e) = inr (e, refl)

module _ {S T : Type 0} (func : Callable S T) where
  -- The state after some calls.
  abbrev pub runs : ℕ → S → S
  runs zero s = s
  runs (suc k) s = runs k (func s).1

  -- The first calls all fail.
  abbrev pub AllFail : ℕ → S → Type 0
  AllFail zero s = Unit {0}
  AllFail (suc k) s = (has_value (func s).0 ≡ false) × AllFail k (func s).1

  -- The first call that succeeds, among the first `n`, is call `k`, with the value `v`.
  pub record Succeeds (n : ℕ) (s : S) : Type 0 where
    pub call : ℕ
    pub result : T
    pub in_time : call < n
    pub before : AllFail call s
    pub at_call : (func (runs call s)).0 ≡ of_value result

  module _ {G : Type 0} (pause : G → ℕ × G) where
    abbrev pub pauses : ℕ → G → List ℕ
    pauses zero g = []
    pauses (suc k) g = (pause g).0 ∷ pauses k (pause g).1

    -- The loop ends in one of two ways.
    abbrev pub Retried : ℕ → G → S → Type 0
    Retried n g s =
        (AllFail n s × (retry_loop pause func n g s ≡ (timeout, pauses (gaps n) g, runs n s)))
        ⊎ ((w : Succeeds n s) × (retry_loop pause func n g s
              ≡ (of_value w.result, pauses w.call g, runs (suc w.call) s)))

    step_value :
        (n : ℕ) (g : G) (s : S) (v : T)
        → (func s).0 ≡ of_value v
        → retry_loop pause func (suc n) g s ≡ (of_value v, [], (func s).1)
    unfolding retry_loop
    step_value zero g s v e = rw (e, retry_loop) refl
    step_value (suc n) g s v e = rw (e, retry_loop) refl

    step_last :
        (g : G) (s : S) (x : ErrorInfo)
        → (func s).0 ≡ of_error x
        → retry_loop pause func 1 g s ≡ (timeout, [], (func s).1)
    unfolding retry_loop
    step_last g s x e = rw (e, retry_loop) refl

    step_error :
        (n : ℕ) (g : G) (s : S) (x : ErrorInfo) (r : Result T) (slept : List ℕ) (t : S)
        → (func s).0 ≡ of_error x
        → retry_loop pause func (suc n) (pause g).1 (func s).1 ≡ (r, slept, t)
        → retry_loop pause func (suc (suc n)) g s ≡ (r, (pause g).0 ∷ slept, t)
    unfolding retry_loop
    step_error n g s x r slept t e more = ground (arith, e, more)

    retry_again :
        (n : ℕ) (g : G) (s : S) (x : ErrorInfo)
        → (func s).0 ≡ of_error x
        → Retried n (pause g).1 (func s).1
        → Retried (suc n) g s
    retry_again zero g s x e (inl (f, h)) = inl ((rw e refl, tt), step_last g s x e)
    retry_again zero g s x e (inr (w, h)) = absurd (omega (arith, w.in_time))
    retry_again (suc n) g s x e (inl (f, h)) = inl ((rw e refl, f), step_error n g s x _ _ _ e h)
    retry_again (suc n) g s x e (inr (w, h)) = inr (
      record {
        call = suc w.call;
        result = w.result;
        in_time = omega (arith, w.in_time);
        before = (rw e refl, w.before);
        at_call = w.at_call;
      },
      step_error n g s x _ _ _ e h,
    )

    retry_loop-Retried : (n : ℕ) (g : G) (s : S) → Retried n g s
    unfolding retry_loop
    retry_loop-Retried zero g s = inl (tt, refl)
    retry_loop-Retried (suc n) g s = elim (Expected-cases (func s).0) [
      | inl (v, e) ↦ inr (
        record { call = 0; result = v; in_time = omega arith; before = tt; at_call = e },
        step_value n g s v e,
      )
      | inr (x, e) ↦ retry_again n g s x e (retry_loop-Retried n (pause g).1 (func s).1)
    ]

-- The delays of a backoff: each is the one before, scaled.
abbrev pub delays : {D : Type 0} → Double D → D → ℕ → ℕ → List ℕ
delays double multiplier zero delay = []
delays double multiplier (suc k) delay =
    delay ∷ delays double multiplier k (scale double multiplier delay)

pauses-delays :
    {D S T : Type 0} (double : Double D) (func : Callable S T) (multiplier : D) (k delay : ℕ)
    → pauses func (λ d. (d, scale double multiplier d)) k delay ≡ delays double multiplier k delay
pauses-delays double func multiplier zero delay = refl
pauses-delays double func multiplier (suc k) delay =
    ap (◌∷◌ delay) (pauses-delays double func multiplier k (scale double multiplier delay))

-- A retry with backoff either makes all its calls, which all fail, sleeps between them for delays
-- of which each is the one before times the multiplier, and returns the error TIMEOUT; or it
-- returns the value of the first call that succeeds, after that call and as many sleeps as calls
-- failed before it.
pub retry_with_backoff-first_success :
    {D S T : Type 0} (double : Double D) (max_attempts : ℤ) (delay : ℕ) (multiplier : D)
    (func : Callable S T) (s : S)
    → (AllFail func (attempts max_attempts) s
        × (retry_with_backoff double max_attempts delay multiplier func s ≡ (
          timeout,
          delays double multiplier (gaps (attempts max_attempts)) delay,
          runs func (attempts max_attempts) s,
        )))
      ⊎ ((w : Succeeds func (attempts max_attempts) s) × (retry_with_backoff double max_attempts
              delay multiplier func s
            ≡ (of_value w.result, delays double multiplier w.call delay, runs func (suc w.call) s)))
unfolding retry_with_backoff
retry_with_backoff-first_success double max_attempts delay multiplier func s =
    let pause : ℕ → ℕ × ℕ = λ d. (d, scale double multiplier d) in
    elim (retry_loop-Retried func pause (attempts max_attempts) delay s) [
      | inl (f, h) ↦
          inl
            (f, rw (pauses-delays double func multiplier (gaps (attempts max_attempts)) delay) at h)
      | inr (w, h) ↦ inr (w, rw (pauses-delays double func multiplier w.call delay) at h)
    ]

fallback-has_value :
    {S T : Type 0} (primary secondary : Callable S T) (s : S)
    → has_value (fallback primary secondary s).0 ≡ true
unfolding fallback
fallback-has_value primary secondary s = elim (Expected-cases (primary s).0) [
  | inl (v, e) ↦ rw (e, fallback) refl
  | inr (x, e) ↦ rw (e, fallback) refl
]

-- `fallback` and `fallback_chain` always return a result that holds a value, even where every
-- callable fails: the result of the last call is inside.
pub fallback_chain-has_value :
    {S T : Type 0} (primary secondary tertiary : Callable S T) (s : S)
    → (has_value (fallback primary secondary s).0 ≡ true)
      × (has_value (fallback_chain primary secondary tertiary s).0 ≡ true)
unfolding fallback fallback_chain
fallback_chain-has_value primary secondary tertiary s = (
  fallback-has_value primary secondary s,
  elim (Expected-cases (primary s).0) [
    | inl (v, e) ↦ rw (e, fallback_chain) refl
    | inr (x, e) ↦ rw (e, fallback_chain) (fallback-has_value secondary tertiary (primary s).1)
  ],
)

abbrev pub has_thrown : {R : Type 0} → Ended R → Bool
has_thrown (returned r) = false
has_thrown thrown = true

Ended-cases : {R : Type 0} (x : Ended R) → ((r : R) × (x ≡ returned r)) ⊎ (x ≡ thrown)
Ended-cases (returned r) = inl (r, refl)
Ended-cases thrown = inr refl

-- A callable under the bulkhead that returns gives its permit back, and one that throws keeps it.
pub with_bulkhead-permits :
    {S : Type 0} (func : S → Ended (Result (Unit {0})) × S) (free : ℕ) (s : S)
    → (with_bulkhead func (free, s)).1
      ≡ (if not (free == 0) && has_thrown (func s).0 then free - 1 else free)
unfolding with_bulkhead
with_bulkhead-permits func zero s = refl
with_bulkhead-permits func (suc free) s = elim (Ended-cases (func s).0) [
  | inl (r, e) ↦ ground (arith, e)
  | inr e ↦ ground (arith, e)
]

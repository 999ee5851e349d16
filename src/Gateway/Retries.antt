-- ===== src/Gateway/Retries.antt =====
-- The retry loop of `_request` in src/dfir_workbench/model_gateway.py.
use dfir_evidence_workbench.Base.{
  ℕ, zero, suc, ◌+◌, ◌-◌, ◌≤◌, ◌<◌, ◌≡◌, refl, sym, Bool, true, false, not, ◌&&◌, eqb, eqb→eq,
  arith, Bool-cases, inl, inr,
}
use dfir_evidence_workbench.Gateway.Completion.{Reply, attempts, is_transient, outcome}

above : (a k : ℕ) → a ≤ k → eqb a k ≡ false → suc a ≤ k
above a k p h = ground arith

module _ (reply : ℕ → Reply) where
  -- What the loop comes to: the outcome of attempt `last`, all earlier ones having been transient,
  -- and that one decisive or the last that is allowed.
  pub record IsSettled (attempt left last : ℕ) : Type 0 where
    pub first : attempt ≤ last
    pub bound : last < attempt + left
    pub sent : (attempts reply attempt left).1 ≡ suc last - attempt
    pub answer : (attempts reply attempt left).0 ≡ outcome (reply last)
    pub earlier : (k : ℕ) → attempt ≤ k → k < last → is_transient (reply k) ≡ true
    pub decisive : last + 1 < attempt + left → is_transient (reply last) ≡ false

  stop :
      (attempt left : ℕ)
      → (is_transient (reply attempt) && not (eqb left 0)) ≡ false
      → IsSettled attempt (suc left) attempt
  unfolding attempts
  stop attempt left h = record {
    first = omega arith;
    bound = omega arith;
    sent = rw h (omega arith);
    answer = rw h refl;
    earlier = λ k p q. absurd (omega (arith, p, q));
    decisive = λ p. decided (is_transient (reply attempt)) left (omega (arith, p)) h;
  }
    where
      decided : (b : Bool) (n : ℕ) → 0 < n → (b && not (eqb n 0)) ≡ false → b ≡ false
      decided b n p h = ground arith

  continue :
      (attempt left last : ℕ)
      → (is_transient (reply attempt) && not (eqb left 0)) ≡ true
      → IsSettled (suc attempt) left last
      → IsSettled attempt (suc left) last
  unfolding attempts
  continue attempt left last h s = record {
    first = omega (arith, s.first);
    bound = omega (arith, s.bound);
    sent = rw h (omega (arith, s.sent, s.first));
    answer = rw h s.answer;
    earlier = λ k p q. before k p q (eqb attempt k) refl;
    decisive = λ p. s.decisive (omega (arith, p));
  }
    where
      transient : (b : Bool) (n : ℕ) → (b && not (eqb n 0)) ≡ true → b ≡ true
      transient b n h = ground arith

      before :
          (k : ℕ)
          → attempt ≤ k
          → k < last
          → (b : Bool) → eqb attempt k ≡ b
          → is_transient (reply k) ≡ true
      before k p q true e =
          rw (sym (eqb→eq attempt k e)) (transient (is_transient (reply attempt)) left h)
      before k p q false e = s.earlier k (above attempt k p e) q

  -- The loop with `left` attempts left always comes to an answer, that of one attempt among them,
  -- and has sent a request for each attempt up to it. All replies before it were transient, and it
  -- is so itself only if it is the last attempt.
  pub attempts-IsSettled : (attempt left : ℕ) → (last : ℕ) × IsSettled attempt (suc left) last
  attempts-IsSettled attempt zero = (attempt, stop attempt 0 (ground arith))
  attempts-IsSettled attempt (suc n) =
      elim (Bool-cases (is_transient (reply attempt) && not (eqb (suc n) 0))) [
        | inr h ↦ (attempt, stop attempt (suc n) h)
        | inl h ↦
            let rest = attempts-IsSettled (suc attempt) n in
            (rest.0, continue attempt (suc n) (rest.0) h (rest.1))
      ]

-- ===== src/Server/PortSearch.antt =====
-- Which port the server gets.
use localsend_rs.Base.{
  ℕ, zero, suc, ◌+◌, ◌≤◌, ◌<◌, ◌≡◌, refl, ◌⊎◌, inl, inr, Bool, true, false, arith, min, Bool-cases,
}
use localsend_rs.Server.Ports.{
  max_port_retry, saturating_add, BindResult, bound, no_free_port, probe, bind_port,
}

-- The port `p` was the `tries`-th to be tried, and the first that could be bound.
pub record FirstBound (binds : ℕ → ℕ → Bool) (base p : ℕ) : Type 0 where
  pub tries : ℕ
  pub near : tries ≤ max_port_retry
  pub is_port : p ≡ min 65535 (base + tries)
  pub free : binds tries p ≡ true
  pub first : (k : ℕ) → k < tries → binds k (min 65535 (base + k)) ≡ false

unfoldable pub Explains : (ℕ → ℕ → Bool) → ℕ → BindResult → Type 0
Explains binds base (bound p) = FirstBound binds base p
Explains binds base (no_free_port low high) =
    (low ≡ base)
    × (high ≡ min 65535 (base + max_port_retry))
    × ((k : ℕ) → k ≤ max_port_retry → binds k (min 65535 (base + k)) ≡ false)

lt_cases : (k n : ℕ) → k < suc n → (k < n) ⊎ (k ≡ n)
lt_cases k n h = ground arith

probe-Explains :
    (binds : ℕ → ℕ → Bool) (base left offset : ℕ)
    → left + offset ≡ suc max_port_retry
    → ((k : ℕ) → k < offset → binds k (min 65535 (base + k)) ≡ false)
    → Explains binds base (probe binds base left offset)
unfolding probe Explains saturating_add
probe-Explains binds base zero offset total failed = (refl, refl, λ k h. failed k (omega arith))
probe-Explains binds base (suc left) offset total failed =
    elim (Bool-cases (binds offset (min 65535 (base + offset)))) [
      | inl works ↦ rw works (record {
        tries = offset;
        near = omega arith;
        is_port = refl;
        free = works;
        first = failed;
      })
      | inr taken ↦
          rw taken
            (probe-Explains binds base left (suc offset) (omega arith) (further failed taken))
    ]
  where
    further :
        ((k : ℕ) → k < offset → binds k (min 65535 (base + k)) ≡ false)
        → binds offset (min 65535 (base + offset)) ≡ false
        → (k : ℕ) → k < suc offset
        → binds k (min 65535 (base + k)) ≡ false
    further failed taken k h = elim (lt_cases k offset h) [
      | inl older ↦ failed k older
      | inr now ↦ rw now taken
    ]

-- The server is bound to the first of the eleven ports from the configured one on that can be
-- bound, counted up to 65535 and then staying there; when the error names a range, it is theirs
-- and none of the attempts could bind.
pub bind_port-Explains :
    (binds : ℕ → ℕ → Bool) (base : ℕ) → Explains binds base (bind_port binds base)
unfolding bind_port
bind_port-Explains binds base =
    probe-Explains binds base (suc max_port_retry) 0 refl (λ k h. absurd (omega arith))

-- ===== src/Server/Ports.antt =====
-- The search for a free port in `run_http_actor` of rust/core/src/server.rs. The parameter
-- `binds` is the operating system: whether an attempt, numbered from 0, binds the port.
use localsend_rs.Base.{ℕ, zero, suc, ◌+◌, Bool, min, if◌then◌else◌}

abbrev pub max_port_retry : ℕ
max_port_retry = 10

-- `u16::saturating_add`
unfoldable pub saturating_add : ℕ → ℕ → ℕ
saturating_add a b = min 65535 (a + b)

pub data BindResult : Type 0 where
  bound : ℕ → BindResult
  no_free_port : ℕ → ℕ → BindResult

-- The attempts from `offset` on, of which `left` are left.
unfoldable pub probe : (ℕ → ℕ → Bool) → ℕ → ℕ → ℕ → BindResult
unfolding saturating_add
probe binds base zero offset = BindResult.no_free_port base (saturating_add base max_port_retry)
probe binds base (suc left) offset =
    let rest = probe binds base left (suc offset) in
    if binds offset (saturating_add base offset)
    then BindResult.bound (saturating_add base offset)
    else rest

unfoldable pub bind_port : (ℕ → ℕ → Bool) → ℕ → BindResult
unfolding probe
bind_port binds base = probe binds base (suc max_port_retry) 0

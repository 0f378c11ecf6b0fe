-- ===== src/Base/Int.antt =====
-- Go's signed integers, within their range.
use cline_pass_bridge.Base.{ℕ}

pub data ℤ : Type 0 where
  pos : ℕ → ℤ
  negsuc : ℕ → ℤ

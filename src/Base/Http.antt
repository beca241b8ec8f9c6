-- ===== src/Base/Http.antt =====
-- What a request handler answers: a value, or the status code of the HTTPException that it raises.
use Prim.Native.Nat.{ℕ}

pub data Response {ℓ} (A : Type ℓ) : Type ℓ where
  ok : A → Response A
  http_error : ℕ → Response A

-- ===== src/Crypto.antt =====
-- The cryptographic functions that the source takes from other packages. They are parameters: the
-- model says nothing of what they return.
use bitmarkd.Common.{List, ℕ, Bool}

pub record Crypto : Type 0 where
  -- sha256.Sum256 and sha3.Sum256
  pub sha256 : List ℕ → List ℕ
  pub sha3_256 : List ℕ → List ℕ
  -- ed25519.Verify(publicKey, message, signature), for a public key of 32 bytes
  pub verify : List ℕ → List ℕ → List ℕ → Bool

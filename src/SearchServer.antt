-- ===== src/SearchServer.antt =====
-- search-server/src/main.rs, the backend of the search demo. ed25519, SHA-256, base64, JSON and the
-- Unicode tables of `str` are parameters.
pub mod Channel
pub mod Query
pub mod Corpus
pub mod Http
use wasibrowser.Prelude.{ℕ, Bool, Option}
use wasibrowser.Bytes.{Bytes}

-- The cryptography that a verifier uses. `key_from` is `VerifyingKey::from_bytes` on 32 bytes,
-- `sha256_hex` is `hex::encode(Sha256::digest(body))`, and `decode` is the standard base64.
pub record Verifier : Type 1 where
  pub Key : Type 0
  pub key_from : Bytes → Option Key
  pub verify_strict : Key → (message sig : Bytes) → Bool
  pub sha256_hex : Bytes → Bytes
  pub decode : Bytes → Option Bytes

-- `str::to_lowercase`, and `char::is_alphanumeric` on the bytes of a character.
pub record Tables : Type 0 where
  pub to_lowercase : Bytes → Bytes
  pub is_alphanumeric : Bytes → Bool

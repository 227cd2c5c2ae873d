-- ===== src/Contracts/Json.antt =====
-- The values of event and intent payloads (`map[string]any`), with what the sources put in them, and
-- the operations on them that reducers use: kernel/canonicaljson and crypto/sha256.
use Prim.Native.String.{◌++◌}
use xgc2_orchestration_core.Base.{ℕ, String, Bool, Time, Result, ok, ◌>>=◌}

mutual
  pub data Json : Type 0 where
    null : Json
    flag : Bool → Json
    num : ℕ → Json
    text : String → Json
    time : Time → Json
    arr : Items → Json
    obj : Fields → Json

  pub data Items : Type 0 where
    nil : Items
    cons : Json → Items → Items

  pub data Fields : Type 0 where
    end : Fields
    field : String → Json → Fields → Fields

-- What the reducers take from below: `canonicaljson.Marshal`, which fails past its limits, and the
-- hexadecimal SHA-256 digest of a text.
pub record Canonical : Type 0 where
  pub marshal : Json → Result String
  pub sha256_hex : String → String

module _ (c : Canonical) where
  -- `canonicaljson.DigestValue`.
  unfoldable pub digest_value : Json → Result String
  digest_value value = do canonical ← c.marshal value; ok ("sha256:" ++ c.sha256_hex canonical)

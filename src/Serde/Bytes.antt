-- ===== src/Serde/Bytes.antt =====
-- src/serde/mod.rs: `to_vec`, then `from_slice`.
use oasis_cbor.Prelude.{ℕ, pos, ◌≡◌, ◌≤◌, refl, some, List, [], arith}
use oasis_cbor.Value.{Value}
use oasis_cbor.Encoding.Canonical.{encoding, depth, IsCanonical}
use oasis_cbor.Encoding.Normal.{normalize, depth-normalize}
use oasis_cbor.Writer.{write}
use oasis_cbor.Writer.Normal.{write_nested-normalize}
use oasis_cbor.Codec.{read_nested-encoding}
use oasis_cbor.Serde.{Result, ok, Datum, to_value, to_vec, from_value, from_slice}

-- Let a datum be serialized to a value that is canonical once its maps are sorted, and nested at most
-- 64 deep. Then `to_vec` gives bytes for it, and for every `Deserialize`, whatever it makes of a value,
-- `from_slice` gives on the bytes what `from_value` gives on the value with its maps sorted.
pub from_slice-to_vec_serde {ℓ} :
    {A : Type ℓ} (deserialize : Value → Result A) (d : Datum) (v : Value)
    → to_value d ≡ ok v
    → IsCanonical (normalize v)
    → depth v ≤ 64
    → (cbor : List ℕ) × (to_vec d ≡ ok cbor)
      × (from_slice deserialize cbor ≡ from_value deserialize (normalize v))
unfolding to_vec write from_slice from_value
from_slice-to_vec_serde deserialize d v e c shallow = (
  encoding (normalize v),
  rw e (rw (write_nested-normalize v [] (some (pos 127)) c (omega arith)) refl),
  rw (read_nested-encoding (normalize v) (some (pos 64)) c (rw (depth-normalize v) shallow)) refl,
)

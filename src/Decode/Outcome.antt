-- ===== src/Decode/Outcome.antt =====
-- The results of src/decode.rs: what a chain that returned has done.
use oasis_cbor.Prelude.{◌≡◌, refl}
use oasis_cbor.Decode.{Result, ok, err, panicked, ◌>>=◌}

pub bind-ok {ℓ κ} :
    {A : Type ℓ} {B : Type κ} (r : Result A) (f : A → Result B) (b : B)
    → (r >>= f) ≡ ok b
    → (a : A) × (r ≡ ok a) × (f a ≡ ok b)
bind-ok (ok a) f b h = (a, refl, h)
bind-ok (err e) f b h = cc
bind-ok panicked f b h = cc

-- ===== src/Common/Throwing.antt =====
-- Results of code that may throw. An exception is the text of its `what()`.
use Prim.Native.String.{String}

pub data Result {ℓ} (A : Type ℓ) : Type ℓ where
  ok : A → Result A
  throw : String → Result A

infixl 5 ◌>>=◌
abbrev pub ◌>>=◌ {ℓ κ} : {X : Type ℓ} {Y : Type κ} → Result X → (X → Result Y) → Result Y
throw what >>= next = throw what
ok x >>= next = next x

infixl 5 ◌>>◌
abbrev pub ◌>>◌ {ℓ} : {Y : Type ℓ} → Result (Unit {0}) → Result Y → Result Y
first >> second = first >>= λ _. second

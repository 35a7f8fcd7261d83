-- ===== src/Json/Defs.antt =====
use workbenches_operator.Prelude.{ℕ, String, Bool}

-- An int64: `negsuc n` is -(n + 1).
pub data ℤ : Type 0 where
  pos : ℕ → ℤ
  negsuc : ℕ → ℤ

mutual
  pub data Value : Type 0 where
    null : Value
    bool : Bool → Value
    int : ℤ → Value
    -- the bits of a float64
    float : ℕ → Value
    str : String → Value
    obj : Fields → Value
    -- a nil slice that was stored as a value
    nil_arr : Value
    arr : Items → Value

  pub data Fields : Type 0 where
    end : Fields
    field : String → Value → Fields → Fields

  pub data Items : Type 0 where
    nil : Items
    cons : Value → Items → Items

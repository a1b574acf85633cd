-- ===== src/Value.antt =====
-- The values of the program's `any` and `unknown`, as far as the code looks into them. A number
-- and a big integer stand as the text that `String(value)` gives.
use kaja.Prelude.{String, Bool}

mutual
  -- The entries of an object, in the order of `Object.entries`.
  pub data Fields : Type 0 where
    end : Fields
    field : String → Value → Fields → Fields

  pub data Elements : Type 0 where
    no_elements : Elements
    element : Value → Elements → Elements

  pub data Value : Type 0 where
    undefined null : Value
    bool : Bool → Value
    num : String → Value
    bigint : String → Value
    str : String → Value
    arr : Elements → Value
    obj : Fields → Value

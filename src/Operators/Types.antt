-- ===== src/Operators/Types.antt =====
-- codegen/Type.h and algebra/IU.h: the types of columns, and information units.
--
-- An IU is a pointer in the source; here its `id` stands for the pointer. `Struct`, which no IU has
-- as its type, is left out, and so is the text that a type prints.
use inkfuse.Base.{ℕ}

pub data IrType : Type 0 where
  signed_int unsigned_int float : ℕ → IrType
  boolean char string date void : IrType
  byte_array : ℕ → IrType
  pointer : IrType → IrType

unfoldable pub num_bytes : IrType → ℕ
num_bytes (signed_int size) = size
num_bytes (unsigned_int size) = size
num_bytes (float size) = size
num_bytes boolean = 1
num_bytes char = 1
num_bytes string = 8
num_bytes date = 4
num_bytes void = 0
num_bytes (byte_array size) = size
num_bytes (pointer pointed_to) = 8

pub record Iu : Type 0 where
  pub id : ℕ
  pub type : IrType

-- ===== src/Bytecode.antt =====
-- The bytecode set: the field layouts of vm/BytecodeSets.hpp, the instruction sizes of
-- vm/BytecodeSets.cpp, and the opcodes in the children.
mod OneByte
mod Messages
mod Jumps
mod Long
pub use OneByte.*
pub use Messages.*
pub use Jumps.*
pub use Long.*
use Prim.Native.Nat.{ℕ}
use lodtalk.Prelude.{ltb, if◌then◌else◌}

abbrev pub send_argument_count_mask : ℕ
send_argument_count_mask = 7

abbrev pub send_argument_count_count : ℕ
send_argument_count_count = 8

abbrev pub send_literal_index_shift : ℕ
send_literal_index_shift = 3

abbrev pub send_literal_index_mask : ℕ
send_literal_index_mask = 31

abbrev pub send_literal_index_count : ℕ
send_literal_index_count = 32

abbrev pub push_closure_num_extensions_mask : ℕ
push_closure_num_extensions_mask = 3

abbrev pub push_closure_num_extensions_shift : ℕ
push_closure_num_extensions_shift = 6

abbrev pub push_closure_num_copied_mask : ℕ
push_closure_num_copied_mask = 3

abbrev pub push_closure_num_copied_shift : ℕ
push_closure_num_copied_shift = 7

abbrev pub push_closure_num_args_mask : ℕ
push_closure_num_args_mask = 7

abbrev pub push_closure_num_args_shift : ℕ
push_closure_num_args_shift = 0

-- `getSistaBytecodeSize`
unfoldable pub sista_bytecode_size : ℕ → ℕ
sista_bytecode_size bytecode = if ltb bytecode 224 then 1 else if ltb bytecode 248 then 2 else 3

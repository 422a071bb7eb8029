-- ===== src/Assembler/Emission/Method.antt =====
-- The method that `Assembler::generate` returns.
use Prim.Native.Nat.{bit_and}
use lodtalk.Prelude.{ℕ, ◌+◌, ◌*◌, ◌≡◌, refl, sym, arith, Bool, List, length}
use mathlib.Core.Path.{subst}
use mathlib.Core.Logic.{◌≢◌}
use lodtalk.Prelude.Bits.{bit_and-mask}
use lodtalk.Outcome.{
  Outcome, ok, abort, out_of_fuel, Abort, unimplemented, memory_corruption, assertion,
  uninitialised, interpreter_error, null_pointer, signed_overflow, ◌>>=◌,
}
use lodtalk.ObjectModel.MethodHeader
use lodtalk.ObjectModel.HeaderFields.{create-fields}
use lodtalk.Assembler.Instruction.{Node}
use lodtalk.Assembler.Sizes.{label_last_position}
use lodtalk.Assembler.Encode.{label_position}
use lodtalk.Assembler.Generate.{
  CompiledMethod, method_slot_count, method_format, byte_elements, byte_data_size, encode_stream,
  new_method_with_header, generate, word_size,
}
use lodtalk.Assembler.Relaxation.Pass.{instructions}
use lodtalk.Assembler.Relaxation.Placed.{IsAssemblable}
use lodtalk.Assembler.Relaxation.Start.{compute_instructions_size-IsSettled}
use lodtalk.Assembler.Emission.Stream.{Fills, encode_stream-Fills, label_position-Agrees}

-- The slots and the format of a method object give back its size in bytes.
pub byte_elements_method : (n : ℕ) → byte_elements (method_slot_count n) (method_format n) ≡ n
unfolding byte_elements method_slot_count method_format
byte_elements_method n = ground (arith, bit_and-mask 3 n, bit_and-mask 3 (24 + bit_and n 7))

-- What `generate` may return for a stream: a method with the literals, the counts and the flag that
-- it was given, whose byte data is its bytecodes and the extra bytes; or one of two aborts.
abbrev pub IsGenerated : List ℕ → ℕ → ℕ → Bool → ℕ → Outcome CompiledMethod → Type 0
IsGenerated ls t a p x (ok m) =
    (m.literals ≡ ls)
    × (MethodHeader.get_literal_count m.header ≡ length ls)
    × (MethodHeader.get_temporal_count m.header ≡ t)
    × (MethodHeader.get_argument_count m.header ≡ a)
    × (MethodHeader.has_primitive m.header ≡ p)
    × (byte_data_size m ≡ length m.bytecodes + x)
IsGenerated ls t a p x (abort unimplemented) = Unit
IsGenerated ls t a p x (abort assertion) = Unit
IsGenerated ls t a p x _ = ⊥

create-aborts : (l t a f : ℕ) (r : Abort) → MethodHeader.create l t a f ≡ abort r → (r ≡ assertion)
unfolding MethodHeader.create
create-aborts l t a f r e = ground arith

create-ends : (l t a f : ℕ) → MethodHeader.create l t a f ≢ out_of_fuel
unfolding MethodHeader.create
create-ends l t a f e = ground arith

module _ (ls : List ℕ) (t a : ℕ) (p : Bool) (x : ℕ) where
  method-IsGenerated :
      (header size : ℕ) (bytes : List ℕ)
      → MethodHeader.create (length ls) t a (MethodHeader.primitive_flags p) ≡ ok header
      → length bytes ≡ size
      → IsGenerated ls t a p x
          (ok (new_method_with_header (length ls * word_size + size + x) header ls bytes))
  unfolding new_method_with_header byte_data_size
  method-IsGenerated header size bytes e h =
      let (l, t', a', p') = create-fields (length ls) t a p header e in
      (
        refl,
        l,
        t',
        a',
        p',
        rw (byte_elements_method (length ls * 8 + size + x + 8), l) (omega arith),
      )

  -- After the layout: the header, then the bytes.
  emitted-IsGenerated :
      (size : ℕ) (h : Outcome ℕ) (bytes : Outcome (List ℕ))
      → MethodHeader.create (length ls) t a (MethodHeader.primitive_flags p) ≡ h
      → Fills 0 size bytes
      → IsGenerated ls t a p x (
          h >>= λ header. bytes >>= λ bs.
          ok (new_method_with_header (length ls * word_size + size + x) header ls bs))
  emitted-IsGenerated size (ok header) (ok bs) e f =
      method-IsGenerated header size bs e (omega arith)
  emitted-IsGenerated size (ok header) (abort unimplemented) e f = tt
  emitted-IsGenerated size (ok header) (abort memory_corruption) e f = absurd f
  emitted-IsGenerated size (ok header) (abort assertion) e f = absurd f
  emitted-IsGenerated size (ok header) (abort uninitialised) e f = absurd f
  emitted-IsGenerated size (ok header) (abort interpreter_error) e f = absurd f
  emitted-IsGenerated size (ok header) (abort null_pointer) e f = absurd f
  emitted-IsGenerated size (ok header) (abort signed_overflow) e f = absurd f
  emitted-IsGenerated size (ok header) out_of_fuel e f = absurd f
  emitted-IsGenerated size (abort r) bytes e f =
      subst (λ r. IsGenerated ls t a p x (abort r)) (sym (create-aborts _ _ _ _ r e)) tt
  emitted-IsGenerated size out_of_fuel bytes e f = absurd (create-ends _ _ _ _ e)

  -- For every stream without super sends whose sends have a selector index of at most 31 and at most
  -- 7 arguments, and whose destinations are labels in the stream, `generate` either stops at
  -- unimplemented code or at an assertion of the header, or returns a method: with the literals,
  -- counts and primitive flag that it was given, and with as many bytes as its bytecodes and the extra
  -- size. It never runs out of fuel, finds memory corrupted or reads an uninitialised position.
  pub generate-IsGenerated :
      (stream : List Node)
      → IsAssemblable (instructions stream)
      → IsGenerated ls t a p x (generate stream ls t a p x)
  unfolding generate
  generate-IsGenerated stream h =
      let (ns, total, run, settled) = compute_instructions_size-IsSettled stream h in
      rw run (
        emitted-IsGenerated total _ _ refl (
          subst
            (λ q. Fills 0 q (encode_stream (label_position ns) (label_last_position ns) ns 0 total))
            (sym settled.ends)
            (encode_stream-Fills (label_position ns) (label_last_position ns)
              (label_position-Agrees ns settled.laid) ns 0 total settled.laid settled.fixed
              (omega (arith, settled.ends)))))

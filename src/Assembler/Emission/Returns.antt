-- ===== src/Assembler/Emission/Returns.antt =====
-- Streams for which `Assembler::generate` (vm/MethodBuilder.cpp) returns a method.
use lodtalk.Prelude.{
  ℕ, ◌+◌, ◌*◌, ◌^◌, ◌≤◌, ◌<◌, ◌≡◌, ◌⊎◌, inl, inr, refl, sym, ◌∙◌, arith, Bool, true, false, Option,
  none, some, List, [], ◌∷◌, ◌++◌, ltb, if◌then◌else◌, length, All,
}
use mathlib.Core.Path.{subst}
use lodtalk.Outcome.{Outcome, ok, abort, memory_corruption, ◌>>=◌, ok-injective}
use lodtalk.ObjectModel.HeaderFields.{create-defined}
use lodtalk.Assembler.Instruction.{
  Instruction, label, push_closure, unconditional_jump, conditional_jump, Node,
}
use lodtalk.Assembler.Sizes.{
  mark, Labels, last_position_from, label_last_position, jump_delta_value,
}
use lodtalk.Assembler.Layout.{compute_instructions_size}
use lodtalk.Assembler.Encode.{encode_as, encode, encode_jump, label_position}
use lodtalk.Assembler.Generate.{encode_stream, new_method_with_header, generate, word_size}
use lodtalk.Assembler.Relaxation.Labels.{IsLaid, end_of}
use lodtalk.Assembler.Relaxation.Monotone.{Aims, IsKnown}
use lodtalk.Assembler.Relaxation.Pass.{instructions}
use lodtalk.Assembler.Relaxation.Loop.{IsSettled}
use lodtalk.Assembler.Relaxation.Placed.{
  Aims-map, IsAssemblable, IsSupported, IsPlaced, label_last_position-IsKnown,
}
use lodtalk.Assembler.Relaxation.Start.{compute_instructions_size-IsSettled}
use lodtalk.Assembler.Emission.Stream.{Agrees, Fills, encode_stream-Fills, label_position-Agrees}
use lodtalk.Assembler.Emission.Success.{
  IsOk, NeedsNoExtension, encode_plain-IsOk, encode_jump-IsOk, encode_closure-IsOk, delta_near,
}

-- No label lies behind the end of a layout.
abbrev AtMost : ℕ → Option ℕ → Type 0
AtMost b none = Unit
AtMost b (some t) = t ≤ b

mark-AtMost :
    (i : Instruction) (d p b : ℕ) (a : Option ℕ) → p ≤ b → AtMost b a → AtMost b (mark i d p a)
mark-AtMost (label j) d p b none h k = ground arith
mark-AtMost (label j) d p b (some t) h k = ground arith
mark-AtMost _ d p b a h k = k

end_of-ge : (ns : List Node) (p : ℕ) → p ≤ end_of p ns
end_of-ge [] p = omega arith
end_of-ge (n ∷ ns) p = omega (arith, end_of-ge ns (p + n.size))

last_position-AtMost :
    (ns : List Node) (p d b : ℕ) (a : Option ℕ)
    → IsLaid p ns
    → end_of p ns ≤ b
    → AtMost b a
    → AtMost b (last_position_from ns d a)
unfolding last_position_from
last_position-AtMost [] p d b a laid le h = h
last_position-AtMost (n ∷ ns) p d b a (hp, hl, hs, laid) le h =
    last_position-AtMost ns (p + n.size) d b (mark n.instruction d n.last_position a) laid le
      (mark-AtMost n.instruction d n.last_position b a (omega (arith, end_of-ge ns (p + n.size))) h)

Known-AtMost : (labels : Labels) (d t b : ℕ) → labels d ≡ some t → AtMost b (labels d) → t ≤ b
Known-AtMost labels d t b e h = subst (AtMost b) e h

written :
    (bytes : List ℕ) (full : Bool) (rest : Outcome (List ℕ))
    → IsOk rest ⊎ (rest ≡ abort memory_corruption)
    → IsOk (if full then abort memory_corruption else (rest >>= λ r. ok (bytes ++ r)))
      ⊎ ((if full then abort memory_corruption else (rest >>= λ r. ok (bytes ++ r)))
          ≡ abort memory_corruption)
written bytes true rest h = inr refl
written bytes false rest (inl (r, e)) = inl (bytes ++ r, rw e refl)
written bytes false rest (inr e) = inr (rw e refl)

-- A stream that fills its buffer exactly is written.
Fills-IsOk :
    (p q : ℕ) (r : Outcome (List ℕ)) → IsOk r ⊎ (r ≡ abort memory_corruption) → Fills p q r → IsOk r
Fills-IsOk p q r (inl h) f = h
Fills-IsOk p q r (inr e) f = absurd (subst (Fills p q) e f)

module _ (positions : ℕ → ℕ) (labels : Labels) (agrees : Agrees positions labels) (b : ℕ)
    (lt : b < 256) (within : (d : ℕ) → AtMost b (labels d)) where
  jump-IsOk :
      (short long : ℕ) (n : Node) (d : ℕ)
      → n.position + n.size ≤ b
      → IsKnown labels d
      → IsOk (encode_jump short long (jump_delta_value (positions d) n.position n.size))
  jump-IsOk short long n d le (t, known) =
      encode_jump-IsOk short long (jump_delta_value (positions d) n.position n.size) (
        delta_near (positions d) n.position n.size b
          (rw (agrees d t known) (Known-AtMost labels d t b known (within d))) le lt)

  encode_as-IsOk :
      (n : Node) (i : Instruction)
      → n.position + n.size ≤ b
      → n.last_position ≡ n.position
      → NeedsNoExtension i
      → Aims (IsKnown labels) i
      → IsOk (encode_as positions labels n i)
  unfolding encode_as
  encode_as-IsOk n (unconditional_jump d) le same small known = jump-IsOk 176 237 n d le known
  encode_as-IsOk n (conditional_jump d true) le same small known = jump-IsOk 184 238 n d le known
  encode_as-IsOk n (conditional_jump d false) le same small known = jump-IsOk 192 239 n d le known
  encode_as-IsOk n (push_closure c a d x) le same (hc, ha) (t, known) = rw known (
      encode_closure-IsOk c a x (jump_delta_value t n.last_position n.size) hc ha (
        delta_near t n.last_position n.size b (Known-AtMost labels d t b known (within d))
          (omega (arith, same)) lt))
  encode_as-IsOk n i le same small known = encode_plain-IsOk i small

  -- The stream is written, or the check of the buffer stops.
  encode_stream-IsOk :
      (ns : List Node) (p limit : ℕ)
      → IsLaid p ns
      → end_of p ns ≤ b
      → All NeedsNoExtension (instructions ns)
      → All (Aims (IsKnown labels)) (instructions ns)
      → (q : ℕ)
      → IsOk (encode_stream positions labels ns q limit)
        ⊎ (encode_stream positions labels ns q limit ≡ abort memory_corruption)
  unfolding encode_stream encode
  encode_stream-IsOk [] p limit laid le small known q = inl ([], refl)
  encode_stream-IsOk (n ∷ ns) p limit (hp, hl, hs, laid) le (s, small) (k, known) q =
      let (bytes, e) =
        encode_as-IsOk n n.instruction (omega (arith, hp, end_of-ge ns (p + n.size))) (hl ∙ sym hp)
          s k in
      rw e (
        written bytes (ltb limit (q + length bytes)) _
          (encode_stream-IsOk ns (p + n.size) limit laid le small known (q + length bytes)))

Aims-IsKnown :
    (ns : List Node) (stream is : List Instruction)
    → instructions ns ≡ stream
    → All (λ i. IsSupported i × Aims (IsPlaced stream) i) is
    → All (Aims (IsKnown (label_last_position ns))) is
Aims-IsKnown ns stream [] same h = tt
Aims-IsKnown ns stream (i ∷ is) same (h, hs) = (
  Aims-map (IsPlaced stream) (IsKnown (label_last_position ns)) i
      (λ d placed. label_last_position-IsKnown ns d (subst (λ s. IsPlaced s d) (sym same) placed))
      h.1,
  Aims-IsKnown ns stream is same hs,
)

compute-IsSettled :
    (stream ns : List Node) (total : ℕ)
    → IsAssemblable (instructions stream)
    → compute_instructions_size stream ≡ ok (ns, total)
    → IsSettled (instructions stream) ns total
compute-IsSettled stream ns total h run =
    let (ns', total', run', settled) = compute_instructions_size-IsSettled stream h in
    subst (λ w. IsSettled (instructions stream) w.0 w.1) (ok-injective (sym run' ∙ run)) settled

-- A stream without super sends, whose sends have a selector index of at most 31 and at most 7
-- arguments, whose other indices are below 256, whose closures have less than 8 copied values and
-- less than 8 arguments, whose destinations are labels in the stream, and which the layout gives less
-- than 256 bytes, is generated: where the literals, temporaries and arguments fit 16, 6 and 4 bits,
-- `generate` returns a method.
pub generate-IsOk :
    (stream ns : List Node) (total : ℕ) (ls : List ℕ) (t a : ℕ) (p : Bool) (x : ℕ)
    → IsAssemblable (instructions stream)
    → All NeedsNoExtension (instructions stream)
    → compute_instructions_size stream ≡ ok (ns, total)
    → total < 256
    → (length ls < 2 ^ 16) × (t < 2 ^ 6) × (a < 2 ^ 4)
    → IsOk (generate stream ls t a p x)
unfolding generate label_last_position
generate-IsOk stream ns total ls t a p x h small run lt fits =
    let settled = compute-IsSettled stream ns total h run in
    let (header, made) = (create-defined (length ls) t a p).0 fits in
    let agrees = label_position-Agrees ns settled.laid in
    let within : (d : ℕ) → AtMost total (label_last_position ns d) =
      λ d. last_position-AtMost ns 0 d total none settled.laid (omega (arith, settled.ends)) tt in
    let known : All (Aims (IsKnown (label_last_position ns))) (instructions ns) =
      subst (All (Aims (IsKnown (label_last_position ns)))) (sym settled.same)
        (Aims-IsKnown ns (instructions stream) (instructions stream) settled.same h) in
    let (bytes, emitted) =
      Fills-IsOk 0 (end_of 0 ns) _
        (encode_stream-IsOk (label_position ns) (label_last_position ns) agrees total lt within ns 0
          total settled.laid (omega (arith, settled.ends))
          (subst (All NeedsNoExtension) (sym settled.same) small) known 0)
        (encode_stream-Fills (label_position ns) (label_last_position ns) agrees ns 0 total
          settled.laid settled.fixed (omega (arith, settled.ends))) in
    (
      new_method_with_header (length ls * word_size + total + x) header ls bytes,
      rw (run, made, emitted) refl,
    )

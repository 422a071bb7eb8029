-- ===== src/Assembler/Relaxation/Sizes.antt =====
-- Bounds and monotonicity of the sizes of extensions and jumps.
use lodtalk.Prelude.{ℕ, zero, suc, ◌+◌, ◌*◌, ◌/◌, ◌≤◌, ◌≡◌, refl, arith, if◌then◌else◌}
use lodtalk.Prelude.Int.{ℤ, pos, negsuc, nat_abs, tdiv}
use lodtalk.Assembler.Sizes.{
  ext_a_loop, sizeof_ext_a, ext_b_loop, sizeof_ext_b, is_zero, is_short_delta, jump_better_size,
}

ext_a_loop_grows : (f v r : ℕ) → r ≤ ext_a_loop f v r
unfolding ext_a_loop
ext_a_loop_grows zero v r = omega arith
ext_a_loop_grows (suc f) v r = ground (arith, ext_a_loop_grows f (v / 256) (r + 2))

ext_a_loop_mono : (f v w r s : ℕ) → v ≤ w → r ≤ s → ext_a_loop f v r ≤ ext_a_loop f w s
unfolding ext_a_loop
ext_a_loop_mono zero v w r s h k = k
ext_a_loop_mono (suc f) v w r s h k = ground (
  arith,
  ext_a_loop_mono f (v / 256) (w / 256) (r + 2) (s + 2),
  ext_a_loop_grows f (w / 256) (s + 2),
)

ext_a_loop_bound : (f v r : ℕ) → ext_a_loop f v r ≤ 2 * f + r
unfolding ext_a_loop
ext_a_loop_bound zero v r = omega arith
ext_a_loop_bound (suc f) v r = ground (arith, ext_a_loop_bound f (v / 256) (r + 2))

-- The loop over a signed value goes by its magnitude.
ext_b_loop-abs : (f : ℕ) (v : ℤ) (r : ℕ) → ext_b_loop f v r ≡ ext_a_loop f (nat_abs v) r
unfolding ext_b_loop ext_a_loop
ext_b_loop-abs zero v r = refl
ext_b_loop-abs (suc f) (pos n) r = ground (arith, ext_b_loop-abs f (pos (n / 256)) (r + 2))
ext_b_loop-abs (suc f) (negsuc n) r =
    ground (arith, ext_b_loop-abs f (tdiv (negsuc n) (pos 256)) (r + 2))

pub sizeof_ext_a_mono : (v w : ℕ) → v ≤ w → sizeof_ext_a v ≤ sizeof_ext_a w
unfolding sizeof_ext_a
sizeof_ext_a_mono v w h = ext_a_loop_mono 8 v w 0 0 h (omega arith)

pub sizeof_ext_b-abs : (v : ℤ) → sizeof_ext_b v ≡ sizeof_ext_a (nat_abs v)
unfolding sizeof_ext_a sizeof_ext_b
sizeof_ext_b-abs v = ext_b_loop-abs 8 v 0

pub sizeof_ext_b_bound : (v : ℤ) → sizeof_ext_b v ≤ 16
unfolding sizeof_ext_a
sizeof_ext_b_bound v = omega (arith, sizeof_ext_b-abs v, ext_a_loop_bound 8 (nat_abs v) 0)

pub nat_abs-tdiv : (v : ℤ) → nat_abs (tdiv v (pos 256)) ≡ nat_abs v / 256
unfolding tdiv
nat_abs-tdiv (pos n) = refl
nat_abs-tdiv (negsuc n) = ground arith

pub jump_better_size_bound : (d : ℤ) → jump_better_size d ≤ 18
unfolding jump_better_size
jump_better_size_bound d = ground (arith, sizeof_ext_b_bound (tdiv d (pos 256)))

-- Extension B for a quotient by 256.
pub sizeof_ext_b-tdiv : (d : ℤ) → sizeof_ext_b (tdiv d (pos 256)) ≡ sizeof_ext_a (nat_abs d / 256)
sizeof_ext_b-tdiv d = rw (sizeof_ext_b-abs (tdiv d (pos 256)), nat_abs-tdiv d)

pub block_ext_mono :
    (d e : ℤ)
    → nat_abs e ≤ nat_abs d
    → sizeof_ext_b (tdiv e (pos 256)) ≤ sizeof_ext_b (tdiv d (pos 256))
block_ext_mono d e h =
    rw (sizeof_ext_b-tdiv d, sizeof_ext_b-tdiv e)
      (sizeof_ext_a_mono (nat_abs e / 256) (nat_abs d / 256) (omega arith))

-- The size by the distance, with extension B by its magnitude.
jump_better_size_lem :
    (d : ℤ)
    → jump_better_size d ≡ (
        if is_zero d then 0 else if is_short_delta d then 1 else 2 + sizeof_ext_a (nat_abs d / 256))
jump_better_size_lem d = rw (← sizeof_ext_b-tdiv d) (unfold jump_better_size in refl)

-- A jump does not grow where its distance shrinks and keeps its direction.
pub jump_better_size_forward :
    (m n : ℕ) → n ≤ m → jump_better_size (pos n) ≤ jump_better_size (pos m)
jump_better_size_forward m n h =
    rw (jump_better_size_lem (pos m), jump_better_size_lem (pos n))
      (ground (arith, sizeof_ext_a_mono (n / 256) (m / 256) (omega arith)))

pub jump_better_size_backward :
    (m n : ℕ) → n ≤ m → jump_better_size (negsuc n) ≤ jump_better_size (negsuc m)
jump_better_size_backward m n h =
    rw (jump_better_size_lem (negsuc m), jump_better_size_lem (negsuc n))
      (ground (arith, sizeof_ext_a_mono (suc n / 256) (suc m / 256) (omega arith)))

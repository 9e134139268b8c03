-- ===== src/Threads/FixedPoint/Laws.antt =====
-- Laws of the fixed-point operations: what each gives where no 32-bit result wraps.
use native.Mathlib.Nat.{div-lt_iff_lt-mul}
use pintos_project.Base.{ℕ, ◌+◌, ◌-◌, ◌*◌, ◌/◌, ◌^◌, ◌≤◌, ◌<◌, ◌≡◌, refl, false, arith}
use pintos_project.Base.Int.{
  int_laws, ℤ, pos, pos_part, neg_part, ◌+ℤ◌, ◌-ℤ◌, ◌*ℤ◌, ◌/ℤ◌, ◌≤ℤ◌, int32, InInt32,
  int32_of_InInt32, eq_of_parts, parts_zero, pos_mul, pos_div,
}
use pintos_project.Threads.FixedPoint.{
  raw_priority, fp_format, pri_max, fp_convert_to_fp, rounds_up, fp_convert_to_int, fp_add, fp_mult,
  fp_devide, clamp_priority, calc_priority_this, next_load_avg, decay_coef, next_recent_cpu,
}

never-rounds_up : (x : ℤ) → rounds_up x ≡ false
unfolding rounds_up int32
never-rounds_up x = refl

fp_convert_to_int_lem :
    (x : ℤ) → fp_convert_to_int x ≡ int32 (x -ℤ pos fp_format /ℤ pos 2) /ℤ pos fp_format
unfolding fp_convert_to_int
fp_convert_to_int_lem x = rw (never-rounds_up x)

-- fp_convert_to_int (fp_convert_to_fp (n)) is n - 1 for a whole number n from 1 to 131071, and 0 for 0:
-- the conversion that is to round to the nearest number never takes its rounding up branch.
pub convert_to_int-convert_to_fp :
    (n : ℕ) → n < 131072 → fp_convert_to_int (fp_convert_to_fp (pos n)) ≡ pos (n - 1)
unfolding fp_convert_to_fp
convert_to_int-convert_to_fp n h = rw (fp_convert_to_int_lem) (eq_of_parts _ _ (omega int_laws))

-- The nice values that `thread_set_nice` asserts.
abbrev pub NiceOk : ℤ → Type 0
NiceOk n = (neg_part n ≤ 20) × (pos_part n ≤ 20)

-- No 32-bit result wraps on the way to a priority.
raw_priority_exact :
    (r n : ℤ)
    → InInt32 r
    → NiceOk n
    → raw_priority r n
      ≡ ((pos pri_max -ℤ n *ℤ pos 2) *ℤ pos fp_format -ℤ r /ℤ pos 4) /ℤ pos fp_format
unfolding raw_priority
raw_priority_exact r n hr hn = eq_of_parts _ _ (omega int_laws)

clamp_mono : (a b : ℤ) → a ≤ℤ b → clamp_priority a ≤ clamp_priority b
clamp_mono a b h = ground (arith, parts_zero a, parts_zero b)

-- More recent CPU time or a larger nice value never gives a higher priority, for 32-bit CPU times and
-- nice values from -20 to 20.
pub calc_priority_this_mono :
    (r s m n : ℤ)
    → InInt32 r
    → InInt32 s
    → r ≤ℤ s
    → m ≤ℤ n
    → NiceOk m
    → NiceOk n
    → calc_priority_this s n ≤ calc_priority_this r m
unfolding calc_priority_this
calc_priority_this_mono r s m n hr hs rs mn lo hi =
    clamp_mono (raw_priority s n) (raw_priority r m)
      (rw (raw_priority_exact r m hr lo, raw_priority_exact s n hs hi) (omega int_laws))

abbrev pub d59_60 : ℤ
d59_60 = fp_devide (fp_convert_to_fp (pos 59)) (pos 60) false

abbrev pub d1_60 : ℤ
d1_60 = fp_devide (fp_convert_to_fp (pos 1)) (pos 60) false

d59_60_lem : d59_60 ≡ pos 16110
unfolding fp_devide fp_convert_to_fp int32 ◌*ℤ◌ ◌/ℤ◌
d59_60_lem = refl

d1_60_lem : d1_60 ≡ pos 273
unfolding fp_devide fp_convert_to_fp int32 ◌*ℤ◌ ◌/ℤ◌
d1_60_lem = refl

next_load_avg_lem :
    (l k : ℕ)
    → l * 16110 / 16384 + 273 * k < 2 ^ 31
    → next_load_avg (pos l) k ≡ pos (l * 16110 / 16384 + 273 * k)
unfolding next_load_avg fp_mult fp_add
next_load_avg_lem l k h = rw (d59_60_lem, d1_60_lem) (eq_of_parts _ _ (omega int_laws))

-- With at most m < 131072 ready threads, a load average between 0 and m stays between 0 and m, and no
-- 32-bit result wraps to a negative one.
pub next_load_avg_bounds :
    (m l k : ℕ)
    → m < 131072
    → l ≤ m * fp_format
    → k ≤ m
    → (v : ℕ) × (next_load_avg (pos l) k ≡ pos v) × (v ≤ m * fp_format)
next_load_avg_bounds m l k hm hl hk =
    (l * 16110 / 16384 + 273 * k, next_load_avg_lem l k (omega arith), omega arith)

quotient_lt : (t : ℕ) → t * 16384 / (t + 16384) < 16384
quotient_lt t = (div-lt_iff_lt-mul {k = t + 16384} (omega arith)).1 (omega arith)

-- The coefficient is a proper fraction.
decay_coef_lem : (l : ℕ) → l < 1073733632 → (c : ℕ) × (decay_coef (pos l) ≡ pos c) × (c < fp_format)
unfolding decay_coef fp_mult fp_devide fp_add
decay_coef_lem l h = (
  2 * l * 16384 / (2 * l + 16384),
  rw (twice, bigger, pos_mul, pos_div)
      (int32_of_InInt32 (pos (2 * l * 16384 / (2 * l + 16384)))
        (omega (arith, quotient_lt (2 * l)))),
  quotient_lt (2 * l),
)
  where
    twice : int32 (pos l *ℤ pos 2) ≡ pos (2 * l)
    twice = eq_of_parts _ _ (omega int_laws)

    bigger : int32 (pos (2 * l) +ℤ int32 (pos 1 *ℤ pos fp_format)) ≡ pos (2 * l + 16384)
    bigger = eq_of_parts _ _ (omega int_laws)

decayed_lt : (c r : ℕ) → c < 16384 → 0 < r → c * r / 16384 < r
decayed_lt c r h p = grind arith

-- One second's decay of a thread's CPU time, with a load average from 0 up to 65535 and a nice value
-- from -20 to 20: what remains of a positive CPU time, before the nice value is added, is not negative
-- and less than it was.
pub next_recent_cpu_decays :
    (l r : ℕ) (nice : ℤ)
    → l < 1073733632
    → 0 < r
    → r < 2147155968
    → NiceOk nice
    → (d : ℕ) × (next_recent_cpu (decay_coef (pos l)) (pos r) nice ≡ pos d +ℤ nice *ℤ pos fp_format)
      × (d < r)
unfolding next_recent_cpu fp_mult fp_add
next_recent_cpu_decays l r nice hl p hr hn =
    let (c, e, lt) = decay_coef_lem l hl in
    (
      c * r / 16384,
      rw
          (
            e,
            pos_mul,
            pos_div,
            int32_of_InInt32 (pos (c * r / 16384)) (omega (arith, decayed_lt c r lt p)),
          )
          (eq_of_parts _ _ (omega (int_laws, decayed_lt c r lt p))),
      decayed_lt c r lt p,
    )

pub calc_priority_this-le : (r n : ℤ) → calc_priority_this r n ≤ pri_max
unfolding calc_priority_this
calc_priority_this-le r n = ground (arith, parts_zero (raw_priority r n))

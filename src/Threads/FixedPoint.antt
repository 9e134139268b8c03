-- ===== src/Threads/FixedPoint.antt =====
-- The 17.14 fixed-point numbers of threads/thread.c (`fp_t`, an `int`) and the arithmetic of the
-- BSD scheduler. Each `int` result wraps at 32 bits; the products of `fp_mult` and `fp_devide` are
-- made in 64 bits.
pub mod Laws
use pintos_project.Base.{ℕ, ◌+◌, ◌*◌, ◌^◌, ◌%◌, Bool, true, false, ◌==◌, if◌then◌else◌}
use pintos_project.Base.Int.{
  ℤ, pos, negsuc, pos_part, neg_part, ◌+ℤ◌, ◌-ℤ◌, ◌*ℤ◌, ◌/ℤ◌, int32, ltb_ℤ,
}

-- FP_FORMAT_32BIT
abbrev pub fp_format : ℕ
fp_format = 16384

abbrev pub pri_min : ℕ
pri_min = 0

abbrev pub pri_max : ℕ
pri_max = 63

pub fp_convert_to_fp : ℤ → ℤ
fp_convert_to_fp n = int32 (n *ℤ pos fp_format)

-- `x & 1024*1024*1024*2==0`: `==` binds tighter than `&`, so `x` meets the truth value of the
-- comparison, 0 or 1, and `x & 1` is the lowest bit of `x`.
pub rounds_up : ℤ → Bool
rounds_up x =
    let big = int32 (pos (1024 * 1024 * 1024 * 2)) in
    if pos_part big + neg_part big == 0 then (pos_part x + neg_part x) % 2 == 1 else false

pub fp_convert_to_int : ℤ → ℤ
unfolding rounds_up
fp_convert_to_int x =
    if rounds_up x
    then int32 (x +ℤ pos fp_format /ℤ pos 2) /ℤ pos fp_format
    else int32 (x -ℤ pos fp_format /ℤ pos 2) /ℤ pos fp_format

pub fp_convert_to_int_down : ℤ → ℤ
fp_convert_to_int_down x = x /ℤ pos fp_format

-- The last argument is true if the second operand is a fixed-point number (FP_REAR).
pub fp_add : ℤ → ℤ → Bool → ℤ
fp_add a b true = int32 (a +ℤ b)
fp_add a b false = int32 (a +ℤ int32 (b *ℤ pos fp_format))

pub fp_sub : ℤ → ℤ → Bool → ℤ
fp_sub a b true = int32 (a -ℤ b)
fp_sub a b false = int32 (a -ℤ int32 (b *ℤ pos fp_format))

pub fp_mult : ℤ → ℤ → Bool → ℤ
fp_mult a b true = int32 (a *ℤ b /ℤ pos fp_format)
fp_mult a b false = int32 (a *ℤ b)

-- The kernel divides by 4, 60 and `coef + 1` only; a zero divisor is a trap in C.
pub fp_devide : ℤ → ℤ → Bool → ℤ
fp_devide a b true = int32 (a *ℤ pos fp_format /ℤ b)
fp_devide a b false = int32 (a /ℤ b)

-- if (p > PRI_MAX) p = PRI_MAX; if (p < PRI_MIN) p = PRI_MIN; as a queue index.
abbrev pub clamp_priority : ℤ → ℕ
clamp_priority p =
    if ltb_ℤ (pos pri_max) p then pri_max else if ltb_ℤ p (pos pri_min) then pri_min else pos_part p

-- PRI_MAX - (recent_cpu / 4) - (nice * 2), rounded toward zero: the formula that
-- BSD_calc_priority_this and the loop of BSD_calc_priority share.
pub raw_priority : ℤ → ℤ → ℤ
unfolding fp_devide fp_sub fp_convert_to_fp fp_convert_to_int_down
raw_priority recent_cpu nice =
    let rcpu_4 = fp_devide recent_cpu (pos 4) false in
    let base = fp_convert_to_fp (int32 (pos pri_max -ℤ int32 (nice *ℤ pos 2))) in
    fp_convert_to_int_down (fp_sub base rcpu_4 true)

-- BSD_calc_priority_this
pub calc_priority_this : ℤ → ℤ → ℕ
calc_priority_this recent_cpu nice = clamp_priority (raw_priority recent_cpu nice)

-- The new `load_avg` of BSD_calc_load_average, from the old one and the count of ready threads.
pub next_load_avg : ℤ → ℕ → ℤ
unfolding fp_devide fp_convert_to_fp fp_mult fp_add
next_load_avg load_avg ready_threads =
    let d59_60 = fp_devide (fp_convert_to_fp (pos 59)) (pos 60) false in
    let d1_60 = fp_devide (fp_convert_to_fp (pos 1)) (pos 60) false in
    fp_add (fp_mult load_avg d59_60 true) (fp_mult d1_60 (pos ready_threads) false) true

-- `coef` of BSD_calc_recent_cpu: 2 load_avg / (2 load_avg + 1).
pub decay_coef : ℤ → ℤ
unfolding fp_mult fp_devide fp_add
decay_coef load_avg =
    let twice = fp_mult load_avg (pos 2) false in fp_devide twice (fp_add twice (pos 1) false) true

-- One thread's step of BSD_calc_recent_cpu.
pub next_recent_cpu : ℤ → ℤ → ℤ → ℤ
unfolding fp_mult fp_add
next_recent_cpu coef recent_cpu nice = fp_add (fp_mult coef recent_cpu true) nice false

-- thread_get_load_avg and thread_get_recent_cpu report 100 times a fixed-point number.
pub report_100 : ℤ → ℤ
unfolding fp_mult fp_convert_to_int
report_100 x = fp_convert_to_int (fp_mult x (pos 100) false)

-- ===== src/Threads/Tests/Numbers.antt =====
-- The arithmetic of the BSD scheduler at concrete numbers.
use pintos_project.Base.{ℕ, ◌*◌, ◌≤◌, ◌≡◌, arith}
use pintos_project.Base.Int.{pos}
use pintos_project.Threads.FixedPoint.{
  fp_format, fp_convert_to_fp, fp_convert_to_int, next_load_avg,
}
use pintos_project.Threads.FixedPoint.Laws.{convert_to_int-convert_to_fp, next_load_avg_bounds}

convert_to_int_example : fp_convert_to_int (fp_convert_to_fp (pos 7)) ≡ pos 6
convert_to_int_example = convert_to_int-convert_to_fp 7 (omega arith)

next_load_avg_example : (v : ℕ) × (next_load_avg (pos 50000) 3 ≡ pos v) × (v ≤ 10 * fp_format)
next_load_avg_example = next_load_avg_bounds 10 50000 3 (omega arith) (omega arith) (omega arith)

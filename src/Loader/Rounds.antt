-- ===== src/Loader/Rounds.antt =====
-- The rounds of the loop of load_segment.
use pintos_project.Base.{
  ℕ, zero, suc, ◌+◌, ◌-◌, ◌*◌, ◌%◌, ◌^◌, ◌<◌, ◌≡◌, refl, sym, ap, ◌∙◌, Bool, true, false, ◌&&◌,
  Option, none, some, ◌>>=◌, ◌==◌, ltb, if◌then◌else◌, arith, if_true,
}
use pintos_project.Palloc.{pg_size}
use pintos_project.Loader.{Segment, Process, load_page, load_pages}

-- The bytes that a round reads, and the segment behind it.
abbrev first_read : Segment → ℕ
first_read g = if ltb g.read_bytes pg_size then g.read_bytes else pg_size

abbrev behind_page : Segment → Segment
behind_page g = record g {
  upage = (g.upage + pg_size) % 2 ^ 32;
  read_bytes = g.read_bytes - first_read g;
  zero_bytes = (g.zero_bytes + 2 ^ 32 - (pg_size - first_read g)) % 2 ^ 32;
}

one_page_less :
    (n : ℕ) (g : Segment)
    → g.read_bytes + g.zero_bytes ≡ pg_size * suc n
    → pg_size * suc n < 2 ^ 32
    → (behind_page g).read_bytes + (behind_page g).zero_bytes ≡ pg_size * n
one_page_less n g h small = ground (arith, h, small)

-- What stands behind a round is needed at the states that it leaves only.
round_same :
    (r : Option (Bool × Process)) (f f' : Process → Option (Bool × Process))
    → ((s : Process) → f s ≡ f' s)
    → (r >>= λ q. if q.0 then f q.1 else some (false, q.1))
      ≡ (r >>= λ q. if q.0 then f' q.1 else some (false, q.1))
round_same none f f' h = refl
round_same (some (true, s)) f f' h = h s
round_same (some (false, s)) f f' h = refl

module _ (ram_pages init_page_dir : ℕ) (room : Bool) (file : ℕ) where
  abbrev loaded : ℕ → Segment → Process → Option (Bool × Process)
  loaded n g s = load_pages ram_pages init_page_dir room n file g s

  -- A segment of `n` pages is loaded in `n` rounds: more rounds return the same, so the loop of
  -- load_segment does not run out of them.
  pub load_pages_enough :
      (n k : ℕ) (g : Segment) (s : Process)
      → g.read_bytes + g.zero_bytes ≡ pg_size * n
      → pg_size * n < 2 ^ 32
      → loaded (n + k) g s ≡ loaded n g s
  unfolding load_pages
  load_pages_enough zero zero g s h small = refl
  load_pages_enough zero (suc k) g s h small =
      let e : 0 + suc k ≡ suc k = omega arith in
      ap (λ n. loaded n g s) e
      ∙ if_true (g.read_bytes == 0 && g.zero_bytes == 0) _ _ (ground (arith, h))
      ∙ sym (if_true (g.read_bytes == 0 && g.zero_bytes == 0) _ none (ground (arith, h)))
  load_pages_enough (suc n) k g s h small =
      let e : suc n + k ≡ suc (n + k) = omega arith in
      ap (λ m. loaded m g s) e
      ∙ ap (λ x. if g.read_bytes == 0 && g.zero_bytes == 0 then some (true, s) else x)
          (round_same
            (load_page ram_pages init_page_dir room file g.upage (first_read g) g.writable s)
            (loaded (n + k) (behind_page g)) (loaded n (behind_page g))
            (λ s'.
              load_pages_enough n k (behind_page g) s' (one_page_less n g h small)
                (omega (arith, small))))

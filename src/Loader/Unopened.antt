-- ===== src/Loader/Unopened.antt =====
-- load of a file that filesys_open does not open.
use pintos_project.Base.{ℕ, ◌≡◌, refl, Bool, none, List, Option-cases, inl, inr, ◌==◌, Bool-cases}
use pintos_project.Files.{file_deny_write}
use pintos_project.Paging.{pagedir_create}
use pintos_project.Loader.{Process, load, load_done}

-- load panics where the file cannot be opened, in place of returning false.
pub load_unopened :
    (ram_pages init_page_dir : ℕ) (room : Bool) (args_room : ℕ → Bool) (made junk : Bool) (n : ℕ)
    (argv_list : List ℕ) (s : Process)
    → load ram_pages init_page_dir room args_room made junk n 0 argv_list s ≡ none
unfolding load load_done file_deny_write
load_unopened ram_pages init_page_dir room args_room made junk n argv_list s =
    elim (Option-cases (pagedir_create init_page_dir s.memory)) [
      | inl e ↦ rw e refl
      | inr ((pd, m), e) ↦ elim (Bool-cases (pd == 0)) [
        | inl y ↦ rw e (rw y refl)
        | inr y ↦ rw e (rw y refl)
      ]
    ]

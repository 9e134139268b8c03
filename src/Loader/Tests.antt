-- ===== src/Loader/Tests.antt =====
-- A segment of a program at 0x8048000, and the command line "ls -l ".
use pintos_project.Base.{ℕ, ◌+◌, ◌-◌, ◌≤◌, ◌≡◌, refl, true, false, List, [], ◌∷◌, arith}
use pintos_project.Palloc.{phys_base}
use pintos_project.Loader.{Phdr, validate_segment, segment_of}
use pintos_project.Loader.Segments.{IsUserSegment, validate_segment_lem}
use pintos_project.Loader.Arguments.{Stack, parse_arguments, construct_esp}
use pintos_project.Loader.Arguments.Parsing.{
  empty, more, HasParsed, Splits, AreArguments, none_left, one_more, concat, command_line,
  parse_arguments_lem,
}
use pintos_project.Loader.Arguments.Frame.{HasConstructed, construct_esp_lem}

abbrev text : Phdr
text = record {
  type = 1;
  offset = 0x1054;
  vaddr = 0x8049054;
  filesz = 0x100;
  memsz = 0x2000;
  flags = 6;
}

text_valid : validate_segment text 0x2000 ≡ true
unfolding validate_segment
text_valid = refl

validate_segment_example :
    IsUserSegment (segment_of text)
    × ((segment_of text).upage ≤ 0x8049054)
    × (0x8049054 + 0x2000
        ≤ (segment_of text).upage + ((segment_of text).read_bytes + (segment_of text).zero_bytes))
    × ((segment_of text).ofs ≤ 0x1054)
    × ((segment_of text).read_bytes ≡ 0x1054 - (segment_of text).ofs + 0x100)
validate_segment_example =
    validate_segment_lem text 0x2000
      (record {
        offset = omega arith;
        vaddr = omega arith;
        filesz = omega arith;
        memsz = omega arith;
      })
      text_valid

abbrev two : List (List ℕ)
two = (108 ∷ 115 ∷ []) ∷ (45 ∷ 108 ∷ []) ∷ []

two-AreArguments : AreArguments two
two-AreArguments =
    one_more (more (omega arith) (more (omega arith) empty))
      (one_more (more (omega arith) (more (omega arith) empty)) none_left)

parse_arguments_example :
    (args : List (List ℕ)) × HasParsed
      (λ i. true)
      0
      args
      (parse_arguments (λ i. true) 0 7 (command_line two))
    × Splits (command_line two) args
    × AreArguments args
    × (concat args ≡ 108 ∷ 115 ∷ 45 ∷ 108 ∷ [])
parse_arguments_example = parse_arguments_lem (λ i. true) 0 7 (command_line two) (omega arith)

abbrev top_of_stack : Stack
top_of_stack = record { esp = phys_base; bytes = λ a. 0 }

construct_esp_example :
    HasConstructed
      (λ i. true)
      true
      false
      two
      top_of_stack
      (construct_esp (λ i. true) true false 3 (command_line two) top_of_stack)
construct_esp_example =
    construct_esp_lem (λ i. true) true false two top_of_stack two-AreArguments (omega arith)
      (omega arith) (omega arith)

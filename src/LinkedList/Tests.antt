-- ===== src/LinkedList/Tests.antt =====
-- A list with its head at 1 and its tail at 2, and series of calls on it.
use pintos_project.Base.{ℕ, ◌≡◌, refl, true, false, some, List, [], ◌∷◌, ltb, arith}
use pintos_project.LinkedList.{Links, Ends, list_init, list_insert_ordered}
use pintos_project.LinkedList.Chain.{IsList}
use pintos_project.LinkedList.Editing.{HasBecome}
use pintos_project.LinkedList.Walking.{Sorted, list_insert_ordered_lem}
use pintos_project.LinkedList.Refinement.{
  Call, push_front, push_back, remove, pop_front, pop_back, calls, calls_lem, list_init_lem,
}

abbrev ends : Ends
ends = record { head = 1; tail = 2 }

abbrev blank : Links
blank = record { prev = λ e. 0; next = λ e. 0 }

abbrev fresh : Links
fresh = list_init ends blank

fresh-IsList : IsList fresh ends []
fresh-IsList = list_init_lem blank ends (omega arith) (omega arith) (omega arith)

abbrev program : List Call
program = push_back 30 ∷ push_front 10 ∷ push_back 40 ∷ remove 30 ∷ pop_back ∷ pop_front ∷ []

calls_example :
    (t : Links) × (calls ends program fresh ≡ some (0 ∷ 0 ∷ 0 ∷ 40 ∷ 40 ∷ 10 ∷ [], t))
    × IsList t ends []
calls_example = calls_lem ends program fresh [] fresh-IsList (
  (omega arith, refl),
  (
    (omega arith, refl),
    ((omega arith, refl), (omega arith, ((λ e. absurd (cc)), ((λ e. absurd (cc)), tt)))),
  ),
)

-- A list of 10, 30 and 40.
abbrev fill : List Call
fill = push_back 10 ∷ push_back 30 ∷ push_back 40 ∷ []

filled :
    (t : Links) × (calls ends fill fresh ≡ some (0 ∷ 0 ∷ 0 ∷ [], t))
    × IsList t ends (10 ∷ 30 ∷ 40 ∷ [])
filled =
    calls_lem ends fill fresh [] fresh-IsList
      ((omega arith, refl), ((omega arith, refl), ((omega arith, refl), tt)))

asymmetric : (a b : ℕ) → ltb a b ≡ true → ltb b a ≡ false
asymmetric a b h = ground (arith, h)

list_insert_ordered_example :
    (t : Links) × (list_insert_ordered ltb 4 ends 35 filled.0 ≡ some t)
    × HasBecome filled.0 ends (10 ∷ 30 ∷ 40 ∷ []) (10 ∷ 30 ∷ 35 ∷ 40 ∷ []) t
    × (Sorted ltb (10 ∷ 30 ∷ 40 ∷ []) → Sorted ltb (10 ∷ 30 ∷ 35 ∷ 40 ∷ []))
list_insert_ordered_example =
    list_insert_ordered_lem ltb 4 filled.0 ends 35 (10 ∷ 30 ∷ 40 ∷ []) asymmetric filled.2
      (omega arith) (omega arith) refl

-- ===== src/BaseCase.antt =====
-- include/ips4o/base_case.hpp: insertion sort, its wrapper, and the test for simple inputs.
-- The range `[begin, it)` that is already sorted is kept as a list read from `it` towards `begin`,
-- the way the inner loop walks; the elements from `it` on are a second list. `none` stands for
-- undefined behaviour: an access outside `[begin, end)`.
pub mod Insertion
pub mod Simple
use ips4o.Prelude.{
  Bool, true, false, not, Option, none, some, List, [], ◌∷◌, ◌++◌, reverse, ◌>>=◌, if◌then◌else◌,
  get_last?, ◌&&◌,
}
use mathlib.Core.Option

module _ {ℓ} {A : Type ℓ} (comp : A → A → Bool) where
  -- `for (next = it - 1; comp(val, *next); --next) { *cur = move(*next); cur = next; }` and the
  -- final `*cur = move(val)`: the list is `[begin, next]` from right to left. The loop has no test
  -- for `begin`.
  shift_right : A → List A → Option (List A)
  shift_right val [] = none
  shift_right val (next ∷ left) =
      if comp val next
      then Option.map (◌∷◌ next) (shift_right val left)
      else some (val ∷ next ∷ left)

  -- One round of the outer loop. The `move_backward` case puts `val` at `begin`.
  place : A → List A → Option (List A)
  unfolding shift_right
  place val done = do
    first ← get_last? done
    if comp val first then some (done ++ val ∷ []) else shift_right val done

  -- `for (it = begin + 1; it < end; ++it)`: `rest` is `[it, end)`.
  sort_rest : List A → List A → Option (List A)
  sort_rest done [] = some done
  sort_rest done (val ∷ rest) = do done' ← place val done; sort_rest done' rest

  -- `IPS4OML_ASSUME_NOT(begin >= end)`: an empty range is undefined behaviour.
  insertion_sort : List A → Option (List A)
  insertion_sort [] = none
  insertion_sort (x ∷ xs) = Option.map reverse (sort_rest (x ∷ []) xs)

  unfoldable pub base_case_sort : List A → Option (List A)
  unfolding insertion_sort sort_rest place
  base_case_sort [] = some []
  base_case_sort (x ∷ xs) = insertion_sort (x ∷ xs)

  -- `std::is_sorted` (and the parallel `isSorted`'s stripes): no element is less than the one
  -- before it.
  unfoldable pub is_sorted : List A → Bool
  is_sorted (x ∷ y ∷ xs) = not (comp y x) && is_sorted (y ∷ xs)
  is_sorted _ = true

  -- The loop of the `else` branch: some element is less than the one after it.
  has_ascent : List A → Bool
  has_ascent (x ∷ y ∷ xs) = if comp x y then true else has_ascent (y ∷ xs)
  has_ascent _ = false

  -- The range after `sortSimpleCases`, and whether it is done.
  unfoldable pub sort_simple_cases : List A → Bool × List A
  unfolding has_ascent is_sorted
  sort_simple_cases [] = (true, [])
  sort_simple_cases (x ∷ xs) = elim (get_last? (x ∷ xs)) [
    | none ↦ (false, x ∷ xs)
    | some last ↦
        if not (comp last x)
        then (is_sorted (x ∷ xs), x ∷ xs)
        else if has_ascent (x ∷ xs)
        then (false, x ∷ xs)
        else (true, reverse (x ∷ xs))
  ]

-- ===== src/Rule/Criteria.antt =====
-- The criteria lists: what an addition and a removal do to the values that are present.
use irccd.Base.{
  ◌≡◌, refl, ◌≢◌, inl, inr, true, false, not, ◌&&◌, ◌||◌, Option, none, some, List, [], ◌∷◌, ◌++◌,
  arith, Bool-cases, Bytes, str_case_eq, str_case_eq_iff,
}
use irccd.Rule.{contains_loop, list_contains, entries, list_add, remove_loop, list_remove}

pub contains_loop-append :
    (l m : List Bytes) (v : Bytes)
    → contains_loop (l ++ m) v ≡ contains_loop l v || contains_loop m v
unfolding contains_loop
contains_loop-append [] m v = refl
contains_loop-append (x ∷ l) m v = ground (arith, contains_loop-append l m v)

-- Values that are equal up to case are in the same lists.
pub contains_loop-case :
    (l : List Bytes) (v w : Bytes) → str_case_eq v w ≡ true → contains_loop l v ≡ contains_loop l w
unfolding contains_loop
contains_loop-case [] v w h = refl
contains_loop-case (x ∷ l) v w h = ground (
  arith,
  contains_loop-case l v w h,
  str_case_eq_iff v w,
  str_case_eq_iff x v,
  str_case_eq_iff x w,
)

list_contains-entries :
    (l : Option (List Bytes)) (v : Bytes) → list_contains l v ≡ contains_loop (entries l) v
unfolding list_contains
list_contains-entries none v = refl
list_contains-entries (some l) v = refl

list_contains-case :
    (l : Option (List Bytes)) (v w : Bytes)
    → str_case_eq v w ≡ true
    → list_contains l v ≡ list_contains l w
unfolding list_contains
list_contains-case none v w h = refl
list_contains-case (some l) v w h = contains_loop-case l v w h

-- After an addition exactly the old values and the new one are present, up to case.
pub list_contains-list_add :
    (l : Option (List Bytes)) (v w : Bytes)
    → list_contains (list_add l v) w ≡ list_contains l w || str_case_eq v w
unfolding list_add list_contains contains_loop
list_contains-list_add l v w = elim (Bool-cases (list_contains l v)) [
  | inl old ↦ rw old (ground (arith, list_contains-case l v w))
  | inr new ↦
      rw new
        (ground (arith, contains_loop-append (entries l) (v ∷ []) w, list_contains-entries l w))
]

list_contains-remove_loop :
    (rc : Option (List Bytes)) (l : List Bytes) (v w : Bytes)
    → list_contains (remove_loop rc l v) w
      ≡ list_contains rc w || (contains_loop l w && not (str_case_eq v w))
unfolding remove_loop contains_loop
list_contains-remove_loop rc [] v w = ground arith
list_contains-remove_loop rc (x ∷ l) v w = elim (Bool-cases (str_case_eq x v)) [
  | inl gone ↦ rw gone (
      ground (
        arith,
        list_contains-remove_loop rc l v w,
        str_case_eq_iff x v,
        str_case_eq_iff x w,
        str_case_eq_iff v w,
      ))
  | inr kept ↦ rw kept (
      ground (
        arith,
        list_contains-remove_loop (list_add rc x) l v w,
        list_contains-list_add rc x w,
        str_case_eq_iff x v,
        str_case_eq_iff x w,
        str_case_eq_iff v w,
      ))
]

-- After a removal exactly the old values that differ from the removed one, up to case, are
-- present.
pub list_contains-list_remove :
    (l : Option (List Bytes)) (v w : Bytes)
    → list_contains (list_remove l v) w ≡ list_contains l w && not (str_case_eq v w)
unfolding list_remove list_contains
list_contains-list_remove none v w = refl
list_contains-list_remove (some l) v w = list_contains-remove_loop none l v w

-- Up to case, after an addition exactly the old values and the new one are present, and after a
-- removal exactly the old values that differ from the removed one.
pub list_contains-edited :
    (l : Option (List Bytes)) (v w : Bytes)
    → (list_contains (list_add l v) w ≡ (list_contains l w || str_case_eq v w))
      × (list_contains (list_remove l v) w ≡ (list_contains l w && not (str_case_eq v w)))
list_contains-edited l v w = (list_contains-list_add l v w, list_contains-list_remove l v w)

-- No two entries are equal up to case.
abbrev pub IsDistinct : List Bytes → Type 0
IsDistinct [] = Unit
IsDistinct (x ∷ l) = (contains_loop l x ≡ false) × IsDistinct l

-- A criterion is NULL, or a list of at least one value and of no value twice.
abbrev pub IsCriterion : Option (List Bytes) → Type 0
IsCriterion none = Unit
IsCriterion (some l) = (l ≢ []) × IsDistinct l

contains_loop-sym :
    (x v : Bytes) (l : List Bytes) → contains_loop (x ∷ l) v ≡ false → str_case_eq v x ≡ false
unfolding contains_loop
contains_loop-sym x v l h = ground (arith, str_case_eq_iff x v, str_case_eq_iff v x)

append-IsDistinct :
    (l : List Bytes) (v : Bytes)
    → IsDistinct l
    → contains_loop l v ≡ false
    → IsDistinct (l ++ v ∷ [])
unfolding contains_loop
append-IsDistinct [] v d h = (refl, tt)
append-IsDistinct (x ∷ l) v d h = (
  ground (arith, contains_loop-append l (v ∷ []) x, contains_loop-sym x v l h),
  append-IsDistinct l v d.1 (ground arith),
)

append-ne-nil : (l : List Bytes) (v : Bytes) → l ++ v ∷ [] ≢ []
append-ne-nil [] v e = cc
append-ne-nil (x ∷ l) v e = cc

list_add-new :
    (l : Option (List Bytes)) (v : Bytes)
    → IsCriterion l
    → list_contains l v ≡ false
    → IsCriterion (some (entries l ++ v ∷ []))
unfolding list_contains contains_loop
list_add-new none v c h = (append-ne-nil [] v, (refl, tt))
list_add-new (some l) v c h = (append-ne-nil l v, append-IsDistinct l v c.1 h)

pub list_add-IsCriterion :
    (l : Option (List Bytes)) (v : Bytes) → IsCriterion l → IsCriterion (list_add l v)
unfolding list_add
list_add-IsCriterion l v c = elim (Bool-cases (list_contains l v)) [
  | inl old ↦ rw old c
  | inr new ↦ rw new (list_add-new l v c new)
]

remove_loop-IsCriterion :
    (rc : Option (List Bytes)) (l : List Bytes) (v : Bytes)
    → IsCriterion rc
    → IsCriterion (remove_loop rc l v)
unfolding remove_loop
remove_loop-IsCriterion rc [] v c = c
remove_loop-IsCriterion rc (x ∷ l) v c = elim (Bool-cases (str_case_eq x v)) [
  | inl gone ↦ rw gone (remove_loop-IsCriterion rc l v c)
  | inr kept ↦ rw kept (remove_loop-IsCriterion (list_add rc x) l v (list_add-IsCriterion rc x c))
]

-- A removal cleans the duplicates of any list up, and leaves NULL rather than an empty list.
pub list_remove-IsCriterion : (l : Option (List Bytes)) (v : Bytes) → IsCriterion (list_remove l v)
unfolding list_remove
list_remove-IsCriterion none v = tt
list_remove-IsCriterion (some l) v = remove_loop-IsCriterion none l v tt

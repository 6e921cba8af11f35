-- ===== src/Config/TypeCheck/Reference.antt =====
-- The loop of traverseAndCheckTypes (src/tase2_client_config.cpp) against a recursion on the tree.
use fledge_south_tase.Common.{
  ℕ, zero, suc, ◌+◌, ◌≤◌, String, Bool, true, ◌&&◌, [], ◌∷◌, some, ◌≡◌, refl, ap, ◌∙◌, arith,
}
use fledge_south_tase.Json.{
  Json, null, bool, int, number, str, arr, obj, Items, nil, cons, Members, end, member,
}
use fledge_south_tase.Config.TypeCheck.{
  is_correct_type, member_path, index_path, Stack, push_members, push_items, visit, traverse, size,
  size_items, size_members, traverse_and_check_types,
}

-- Every leaf of the tree has the type that is expected at its path.
unfoldable mutual
  pub check : String → Json → Bool
  check parent (obj ms) = check_members parent ms
  check parent (arr xs) = check_items parent 0 xs
  check parent null = is_correct_type parent null
  check parent (bool b) = is_correct_type parent (bool b)
  check parent (int z) = is_correct_type parent (int z)
  check parent number = is_correct_type parent number
  check parent (str s) = is_correct_type parent (str s)

  pub check_members : String → Members → Bool
  check_members parent end = true
  check_members parent (member k v ms) = check (member_path parent k) v && check_members parent ms

  pub check_items : String → ℕ → Items → Bool
  check_items parent i nil = true
  check_items parent i (cons v xs) = check (index_path parent i) v && check_items parent (suc i) xs

check_all : Stack → Bool
check_all [] = true
check_all ((p, v) ∷ s) = check p v && check_all s

total : Stack → ℕ
total [] = 0
total ((p, v) ∷ s) = size v + total s

and_swap : (a b c : Bool) → (a && (b && c)) ≡ (b && (a && c))
and_swap a b c = ground arith

push_members-total :
    (p : String) (ms : Members) (s : Stack)
    → total (push_members p ms s) ≡ size_members ms + total s
unfolding push_members total size
push_members-total p end s = omega arith
push_members-total p (member k v ms) s =
    omega (arith, push_members-total p ms ((member_path p k, v) ∷ s))

push_items-total :
    (p : String) (i : ℕ) (xs : Items) (s : Stack)
    → total (push_items p i xs s) ≡ size_items xs + total s
unfolding push_items total size
push_items-total p i nil s = omega arith
push_items-total p i (cons v xs) s =
    omega (arith, push_items-total p (suc i) xs ((index_path p i, v) ∷ s))

push_members-check :
    (p : String) (ms : Members) (s : Stack)
    → check_all (push_members p ms s) ≡ (check_members p ms && check_all s)
unfolding push_members check_all check
push_members-check p end s = refl
push_members-check p (member k v ms) s =
    ground (arith, push_members-check p ms ((member_path p k, v) ∷ s))

push_items-check :
    (p : String) (i : ℕ) (xs : Items) (s : Stack)
    → check_all (push_items p i xs s) ≡ (check_items p i xs && check_all s)
unfolding push_items check_all check
push_items-check p i nil s = refl
push_items-check p i (cons v xs) s =
    ground (arith, push_items-check p (suc i) xs ((index_path p i, v) ∷ s))

-- One round uses up one unit of the measure and keeps the conjunction.
visit_lem :
    (p : String) (v : Json) (s : Stack) (r : Bool)
    → (suc (total (visit p v s r).0) ≡ size v + total s)
      × (((visit p v s r).1 && check_all (visit p v s r).0) ≡ (r && (check p v && check_all s)))
unfolding visit size check
visit_lem p (obj ms) s r = ground (arith, push_members-total p ms s, push_members-check p ms s)
visit_lem p (arr xs) s r = ground (arith, push_items-total p 0 xs s, push_items-check p 0 xs s)
visit_lem p v s r = ground arith

size_pos : (v : Json) → 1 ≤ size v
unfolding size
size_pos (obj ms) = omega arith
size_pos v = omega arith

traverse-check_all :
    (fuel : ℕ) (s : Stack) (r : Bool) → total s ≤ fuel → traverse fuel s r ≡ some (r && check_all s)
unfolding traverse check_all total
traverse-check_all fuel [] r le = ground arith
traverse-check_all zero ((p, v) ∷ s) r le = absurd (omega (arith, size_pos v))
traverse-check_all (suc fuel) ((p, v) ∷ s) r le =
    let (smaller, same) = visit_lem p v s r in
    traverse-check_all fuel (visit p v s r).0 (visit p v s r).1 (omega arith) ∙ ap some same

-- The number of values of the document is fuel enough: the loop ends with an empty stack, and it
-- answers true exactly if every leaf has the type that is expected at its path.
pub traverse-check :
    (v : Json) (fuel : ℕ) → size v ≤ fuel → traverse fuel (("", v) ∷ []) true ≡ some (check "" v)
unfolding total check_all
traverse-check v fuel le =
    traverse-check_all fuel (("", v) ∷ []) true (measured v fuel le) ∙ ap some (single v)
  where
    measured : (v : Json) (fuel : ℕ) → size v ≤ fuel → total (("", v) ∷ []) ≤ fuel
    measured v fuel le = omega arith

    single : (v : Json) → (true && check_all (("", v) ∷ [])) ≡ check "" v
    single v = ground arith

-- The check of a document is the conjunction of the tests of its leaves.
pub traverse_and_check_types-check : (v : Json) → traverse_and_check_types v ≡ check "" v
unfolding traverse_and_check_types
traverse_and_check_types-check v = rw (traverse-check v (size v) (omega arith))

-- ===== src/Dynamic/FixVec/Examples.antt =====
-- The laws of FixVec at a vector of three slots, the second free, over lists of bits.
use zust.Prelude.{
  ℕ, ◌≡◌, refl, arith, Bool, true, false, none, some, List, [], ◌∷◌, ◌++◌, length, get_elem?, set,
  replicate,
}
use zust.Dynamic.FixVec.{BitVec, IsLawful, FixVec, push, remove, pop, first_false, all_zero}
use zust.Dynamic.FixVec.Slots.{place, free_slot}
use zust.Dynamic.FixVec.Refine.{IsValid, view, push-place, remove-free}

abbrev bit_list : BitVec
bit_list = record {
  Bits = List Bool;
  bools = λ bs. bs;
  bit = λ bs i. get_elem? bs i;
  put = λ bs i x. set bs i x;
  grow = λ bs x. bs ++ x ∷ [];
  fill = λ bs x. replicate (length bs) x;
  first_zero = first_false;
  not_any = all_zero;
}

abbrev bit_list-IsLawful : IsLawful bit_list
bit_list-IsLawful = record {
  bit_lem = λ b i. refl;
  bools-put = λ b i x h. refl;
  bools-grow = λ b x. refl;
  bools-fill = λ b x. refl;
  first_zero_lem = λ b. refl;
  not_any_lem = λ b. refl;
}

abbrev three : FixVec bit_list ℕ
three = record { buf = 7 ∷ 0 ∷ 9 ∷ []; useds = true ∷ false ∷ true ∷ []; len = 2 }

abbrev three-IsValid : IsValid bit_list bit_list-IsLawful 0 three
three-IsValid = record { same = refl; counted = refl; small = omega arith }

-- The freed index is used again, and `pop` takes the last value.
reused :
    push bit_list 0 three 8
    ≡ some (record { buf = 7 ∷ 8 ∷ 9 ∷ []; useds = true ∷ true ∷ true ∷ []; len = 3 }, 1)
unfolding push
reused = refl

popped :
    pop bit_list 0 three
    ≡ some (record { buf = 7 ∷ 0 ∷ 0 ∷ []; useds = true ∷ false ∷ false ∷ []; len = 1 }, some 9)
unfolding pop
popped = refl

push-place_example :
    (f' : FixVec bit_list ℕ) × (push bit_list 0 three 8
      ≡ some (f', free_slot (view bit_list bit_list-IsLawful 0 three)))
    × IsValid bit_list bit_list-IsLawful 0 f'
    × (view bit_list bit_list-IsLawful 0 f' ≡ place (view bit_list bit_list-IsLawful 0 three) 8)
push-place_example = push-place bit_list bit_list-IsLawful 0 three 8 three-IsValid (omega arith)

remove-free_example :
    (f' : FixVec bit_list ℕ) × (remove bit_list 0 three 2 ≡ some (f', some 9))
    × IsValid bit_list bit_list-IsLawful 0 f'
    × (view bit_list bit_list-IsLawful 0 f' ≡ some 7 ∷ none ∷ none ∷ [])
remove-free_example = remove-free bit_list bit_list-IsLawful 0 three 2 three-IsValid

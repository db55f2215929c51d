-- ===== src/Root/Bits.antt =====
-- Facts of Boolean tests, for the proofs about root/src.
use zust.Prelude.{ℕ, ◌≡◌, arith, refl, Bool, true, false, not, ◌&&◌, ◌||◌, ◌==◌}

pub rest_bit : (a b : Bool) → (a && b) ≡ true → b ≡ true
rest_bit a b h = ground arith

pub clash : (a : Bool) → a ≡ true → a ≡ false → ⊥
clash a h k = cc

pub both_bits : (a b : Bool) → (a && b) ≡ true → (a ≡ true) × (b ≡ true)
both_bits true b h = (refl, h)
both_bits false b h = absurd (cc)

pub kept_bit : (a b : Bool) → (a ≡ true → ⊥) → b ≡ true → (not a && b) ≡ true
kept_bit true b h k = absurd (h refl)
kept_bit false b h k = k

pub left_bits : (a b : Bool) → (not a && b) ≡ true → (a ≡ false) × (b ≡ true)
left_bits true b h = absurd (cc)
left_bits false b h = (refl, h)

pub later_bit : (a b : Bool) → b ≡ true → (a || b) ≡ true
later_bit a b h = ground arith

pub stays_false : (a b : Bool) → b ≡ false → (a && b) ≡ false
stays_false a b h = ground arith

pub zero_lem : (n : ℕ) → (n == 0) ≡ true → n ≡ 0
zero_lem n h = ground arith

pub negated_bit : (a : Bool) → not a ≡ true → a ≡ false
negated_bit a h = ground arith

pub unnegated_bit : (a : Bool) → not a ≡ false → a ≡ true
unnegated_bit a h = ground arith

pub absent_bit : (i p : Bool) → i ≡ true → false ≡ (i && p) → p ≡ false
absent_bit i p h e = ground arith

pub deleted_bit :
    (m i p h : Bool) → i ≡ true → m ≡ (i && p) → (h ≡ true → p ≡ true) → (not m && h) ≡ false
deleted_bit m i p true e k f = rw (k, e, f refl) refl
deleted_bit m i p false e k f = ground arith

pub usable_bit :
    (m i p u : Bool) → i ≡ true → m ≡ (i && p) → (p ≡ false → u ≡ true) → (m || u) ≡ true
usable_bit m i true u e k f = rw (k, e) refl
usable_bit m i false u e k f = rw (k, f refl) (ground arith)

pub one_bit : (e h : Bool) → (e || h) ≡ (((not false && e) || false) || h)
one_bit e h = ground arith

pub later_entry : (a b h : Bool) → (a || ((b || false) || h)) ≡ ((b || a) || h)
later_entry a b h = ground arith

pub first_member : (a b : Bool) → a ≡ true → (a || b) ≡ true
first_member a b h = ground arith

pub behind_first : (a b : Bool) → (a || b) ≡ true → a ≡ false → b ≡ true
behind_first a b h n = ground arith

pub first_bits : (i e r : Bool) → ((not i && e) || r) ≡ true → r ≡ false → (i ≡ false) × (e ≡ true)
first_bits true e r h n = absurd (cc)
first_bits false e r h n = (refl, ground arith)

pub other_bits :
    (i m p : Bool) → ◌≡◌ {A = Bool} true (not i && m) → m ≡ p → (p ≡ true) × (i ≡ false)
other_bits true m p h a = absurd (cc)
other_bits false m p h a = (cc, refl)

pub alone_bit : (a b : Bool) → b ≡ false → (a || b) ≡ a
alone_bit a b h = ground arith

-- ===== src/Dynamic/Json/Lists.antt =====
-- dynamic/src/json.rs: the loop of a list reads the items that are written with commas between.
use zust.Prelude.{
  ℕ, zero, suc, ◌+◌, ◌≤◌, ◌≡◌, refl, ap, ◌∙◌, arith, false, List, [], ◌∷◌, ◌++◌, append_assoc,
  length, length-append, drop-zero, drop-length-append, le→leb, ◌==◌,
}
use zust.Prelude.Outcome.{ok, ◌>>=◌}
use zust.Dynamic.Value.{Bytes, Dynamic, list, Items, nil, cons}
use zust.Dynamic.Json.Buffer.{Read, is_white, white_run, skip_white, from, skip}
use zust.Dynamic.Json.Numbers.{contains}
use zust.Dynamic.Json.Read.{comma, next_item, list_loop, list_at}
use zust.Dynamic.Json.Tokens.{Ends}

-- What the text of a value starts with: no white space, and not the end of a list.
abbrev pub StartsValue : Bytes → Type 0
StartsValue [] = ⊥
StartsValue (c ∷ rest) = (is_white c ≡ false) × ((c == b']') ≡ false)

abbrev pub ReadsAs : (Bytes → Read Dynamic) → Bytes → Dynamic → Type 0
ReadsAs dec bs v =
    StartsValue bs × ((rest : Bytes) → Ends rest → dec (bs ++ rest) ≡ ok (v, length bs))

pub skip_white-here : (c : ℕ) (rest : Bytes) → is_white c ≡ false → skip_white (c ∷ rest) ≡ ok 0
unfolding skip_white white_run
skip_white-here c rest h = rw h (ground arith)

pub skip-here :
    (bs : Bytes) (c : ℕ) (rest : Bytes) (at : ℕ)
    → is_white c ≡ false
    → skip (bs ++ c ∷ rest) at (length bs) ≡ ok (c ∷ rest, at + length bs)
unfolding skip from
skip-here bs c rest at h =
    rw
      (
        le→leb (length bs) (length (bs ++ c ∷ rest)) (omega (arith, length-append bs (c ∷ rest))),
        drop-length-append bs (c ∷ rest),
        skip_white-here c rest h,
        drop-zero (c ∷ rest),
      )
      (ap (λ n. ok (c ∷ rest, n)) (omega arith))

-- Behind an item stands the end of the collection, or a comma and the next item.
pub next_item-close :
    (bs : Bytes) (c : ℕ) (rest : Bytes) (at : ℕ)
    → is_white c ≡ false
    → (c == b',') ≡ false
    → next_item (bs ++ c ∷ rest) at (length bs) ≡ ok (c ∷ rest, at + length bs)
unfolding next_item comma
next_item-close bs c rest at h e = rw (skip-here bs c rest at h, e) refl

pub next_item-comma :
    (bs : Bytes) (c : ℕ) (rest : Bytes) (at : ℕ)
    → is_white c ≡ false
    → next_item (bs ++ b',' ∷ c ∷ rest) at (length bs) ≡ ok (c ∷ rest, at + length bs + 1)
unfolding next_item comma is_white
next_item-comma bs c rest at h =
    rw (skip-here bs b',' (c ∷ rest) at refl) (skip-here (b',' ∷ []) c rest (at + length bs) h)

-- The texts of the items with what they are read as.
abbrev pub Chunks : Type 0
Chunks = List (Bytes × Dynamic)

abbrev pub values : Chunks → Items
values [] = nil
values ((bs, v) ∷ rest) = cons v (values rest)

abbrev pub more_items : Chunks → Bytes
more_items [] = []
more_items ((bs, v) ∷ rest) = b',' ∷ (bs ++ more_items rest)

abbrev pub all_items : Chunks → Bytes
all_items [] = []
all_items ((bs, v) ∷ rest) = bs ++ more_items rest

module _ (dec : Bytes → Read Dynamic) where
  abbrev pub AllRead : Chunks → Type 0
  AllRead [] = Unit
  AllRead ((bs, v) ∷ rest) = ReadsAs dec bs v × AllRead rest

  -- A round of the loop, when the item is read.
  list_loop-item :
      (fuel : ℕ) (bs rest : Bytes) (at : ℕ) (v : Dynamic)
      → ReadsAs dec bs v
      → Ends rest
      → list_loop dec (suc fuel) (bs ++ rest) at ≡ (
          next_item (bs ++ rest) at (length bs) >>= λ (here, next).
          list_loop dec fuel here next >>= λ (items, stop). ok (cons v items, stop))
  unfolding list_loop
  list_loop-item fuel [] rest at v h e = absurd h.0
  list_loop-item fuel (c ∷ bs) rest at v h e = rw (h.0.1, h.1 rest e) refl

  list_loop-last :
      (fuel : ℕ) (bs rest : Bytes) (at : ℕ) (v : Dynamic)
      → ReadsAs dec bs v
      → list_loop dec (suc (suc fuel)) (bs ++ b']' ∷ rest) at ≡ ok (cons v nil, at + length bs + 1)
  unfolding list_loop is_white contains
  list_loop-last fuel bs rest at v h =
      rw
        (
          list_loop-item (suc fuel) bs (b']' ∷ rest) at v h refl,
          next_item-close bs b']' rest at refl refl,
        )
        refl

  list_loop-next :
      (fuel : ℕ) (bs bs' rest : Bytes) (at : ℕ) (v : Dynamic)
      → ReadsAs dec bs v
      → StartsValue bs'
      → list_loop dec (suc fuel) (bs ++ b',' ∷ (bs' ++ rest)) at ≡ (
          list_loop dec fuel (bs' ++ rest) (at + length bs + 1) >>= λ (items, stop).
          ok (cons v items, stop))
  unfolding contains
  list_loop-next fuel bs [] rest at v h s = absurd s
  list_loop-next fuel bs (c ∷ bs') rest at v h s =
      rw
        (
          list_loop-item fuel bs (b',' ∷ c ∷ (bs' ++ rest)) at v h refl,
          next_item-comma bs c (bs' ++ rest) at s.0,
        )
        refl

  pub list_loop-chunks :
      (cs : Chunks) (bs rest : Bytes) (v : Dynamic) (fuel at : ℕ)
      → ReadsAs dec bs v
      → AllRead cs
      → length cs + 2 ≤ fuel
      → list_loop dec fuel (bs ++ (more_items cs ++ b']' ∷ rest)) at
        ≡ ok (cons v (values cs), at + length bs + length (more_items cs) + 1)
  list_loop-chunks cs bs rest v zero at h a f = absurd (omega arith)
  list_loop-chunks cs bs rest v (suc zero) at h a f = absurd (omega arith)
  list_loop-chunks [] bs rest v (suc (suc fuel)) at h a f =
      list_loop-last fuel bs rest at v h ∙ ap (λ n. ok (cons v nil, n)) (omega arith)
  list_loop-chunks ((bs', v') ∷ cs) bs rest v (suc (suc fuel)) at h a f =
      rw
        (
          append_assoc bs' (more_items cs) (b']' ∷ rest),
          list_loop-next (suc fuel) bs bs' (more_items cs ++ b']' ∷ rest) at v h a.0.0,
          list_loop-chunks cs bs' rest v' (suc fuel) (at + length bs + 1) a.0 a.1 (omega arith),
          length-append bs' (more_items cs),
        )
        (ap (λ n. ok (cons v (cons v' (values cs)), n)) (omega arith))

  length-more_items : (cs : Chunks) → length cs ≤ length (more_items cs)
  length-more_items [] = omega arith
  length-more_items ((bs, v) ∷ cs) =
      omega (arith, length-more_items cs, length-append bs (more_items cs))

  list_at-open :
      (c : ℕ) (rest : Bytes)
      → is_white c ≡ false
      → list_at dec (b'[' ∷ c ∷ rest) 0 ≡ (
          list_loop dec (suc (suc (length rest))) (c ∷ rest) 1 >>= λ (items, stop).
          ok (list items, stop))
  unfolding list_at
  list_at-open c rest h = rw (skip-here (b'[' ∷ []) c rest 0 h) (
      ap
        (λ n. list_loop dec (suc (suc (length rest))) (c ∷ rest) n >>= λ (items, stop).
          ok (list items, stop))
        (omega arith))

  -- A list, from its bracket on.
  pub list_at-chunks :
      (cs : Chunks) (rest : Bytes)
      → AllRead cs
      → list_at dec (b'[' ∷ (all_items cs ++ b']' ∷ rest)) 0
        ≡ ok (list (values cs), length (all_items cs) + 2)
  unfolding list_loop is_white
  list_at-chunks [] rest a = rw (list_at-open b']' rest refl) refl
  list_at-chunks (([], v) ∷ cs) rest a = absurd a.0.0
  list_at-chunks ((c ∷ bs, v) ∷ cs) rest a =
      let text = bs ++ (more_items cs ++ b']' ∷ rest) in
      rw
        (
          append_assoc bs (more_items cs) (b']' ∷ rest),
          list_at-open c text a.0.0.0,
          list_loop-chunks cs (c ∷ bs) rest v (suc (suc (length text))) 1 a.0 a.1 (
              omega (
                arith,
                length-more_items cs,
                length-append bs (more_items cs ++ b']' ∷ rest),
                length-append (more_items cs) (b']' ∷ rest),
              )),
          length-append bs (more_items cs),
        )
        (ap (λ n. ok (list (cons v (values cs)), n)) (omega arith))

-- ===== src/Root/Redis.antt =====
-- The commands of redis that root/src/directory.rs sends, over an unknown state of the server, and
-- what the code relies on.
pub mod Memory
use zust.Prelude.{ℕ, ◌≡◌, Bool, true, false, not, ◌&&◌, ◌||◌, List, [], ◌∷◌, ◌==◌}
use zust.Prelude.Outcome.{Outcome, ok, err, panic, stuck, ◌>>=◌}
use zust.Dynamic.Value.{Bytes, same_text}

pub data RedisErr : Type 0 where
  wrong_type lost : RedisErr

abbrev pub Reply : Type 0 → Type 0
Reply A = Outcome RedisErr A

-- `sadd`, `srem` and `del` also reply the number of things that they changed.
pub record Redis : Type 1 where
  pub State : Type 0
  pub sadd : Bytes → Bytes → State → Reply (State × ℕ)
  pub srem : Bytes → Bytes → State → Reply (State × ℕ)
  pub scard : Bytes → State → Reply ℕ
  pub smembers : Bytes → State → Reply (List Bytes)
  pub del : List Bytes → State → Reply (State × ℕ)
  pub exists_key : Bytes → State → Reply Bool
  pub scan : State → Reply (List Bytes)
  pub set_text : Bytes → Bytes → State → Reply State

unfoldable pub member : Bytes → List Bytes → Bool
member x [] = false
member x (y ∷ ys) = same_text y x || member x ys

-- The command is answered, with a reply that has the property.
abbrev pub Replies : {A : Type 0} → (A → Type 0) → Reply A → Type 0
Replies P (ok a) = P a
Replies P _ = ⊥

pub bind-Replies :
    {A B : Type 0} (P : A → Type 0) (Q : B → Type 0) (r : Reply A) (f : A → Reply B)
    → Replies P r
    → ((a : A) → P a → Replies Q (f a))
    → Replies Q (r >>= f)
bind-Replies P Q (ok a) f h k = k a h
bind-Replies P Q (err e) f h k = h
bind-Replies P Q panic f h k = h
bind-Replies P Q stuck f h k = h

pub Replies-mono :
    {A : Type 0} (P Q : A → Type 0) (r : Reply A)
    → Replies P r
    → ((a : A) → P a → Q a)
    → Replies Q r
Replies-mono P Q (ok a) h k = k a h
Replies-mono P Q (err e) h k = h
Replies-mono P Q panic h k = h
Replies-mono P Q stuck h k = h

-- What the state of a server shows: the members of sets, the keys that there are, and the keys that
-- may hold a set (they are absent or hold one).
pub record View (R : Redis) : Type 0 where
  pub holds : R.State → Bytes → Bytes → Bool
  pub present : R.State → Bytes → Bool
  pub is_set : R.State → Bytes → Bool

module _ (R : Redis) (V : View R) where
  -- A server that answers. A set without members is no key.
  pub record IsRedis : Type 0 where
    pub sadd_lem :
        (s : R.State) (k c : Bytes)
        → V.is_set s k ≡ true
        → Replies
            (λ (s', n).
              ((j d : Bytes) → V.holds s' j d ≡ ((same_text k j && same_text c d) || V.holds s j d))
              × ((j : Bytes) → V.present s' j ≡ (same_text k j || V.present s j))
              × ((j : Bytes) → V.is_set s' j ≡ V.is_set s j))
            (R.sadd k c s)
    pub srem_lem :
        (s : R.State) (k c : Bytes)
        → V.is_set s k ≡ true
        → Replies
            (λ (s', n).
              ((j d : Bytes)
                → V.holds s' j d ≡ (not (same_text k j && same_text c d) && V.holds s j d))
              × ((j : Bytes) → same_text k j ≡ false → V.present s' j ≡ V.present s j)
              × ((j : Bytes) → V.is_set s' j ≡ V.is_set s j))
            (R.srem k c s)
    pub scard_lem :
        (s : R.State) (k : Bytes)
        → V.is_set s k ≡ true
        → Replies
            (λ n.
              (n ≡ 0 → (c : Bytes) → V.holds s k c ≡ false)
              × ((n == 0) ≡ false → (c : Bytes) × (V.holds s k c ≡ true)))
            (R.scard k s)
    pub smembers_lem :
        (s : R.State) (k : Bytes)
        → V.is_set s k ≡ true
        → Replies (λ cs. (c : Bytes) → member c cs ≡ V.holds s k c) (R.smembers k s)
    pub del_lem :
        (s : R.State) (keys : List Bytes)
        → Replies
            (λ (s', n).
              ((j d : Bytes) → V.holds s' j d ≡ (not (member j keys) && V.holds s j d))
              × ((j : Bytes) → V.present s' j ≡ (not (member j keys) && V.present s j))
              × ((j : Bytes) → V.is_set s' j ≡ (member j keys || V.is_set s j)))
            (R.del keys s)
    pub exists_lem : (s : R.State) (k : Bytes) → Replies (λ b. b ≡ V.present s k) (R.exists_key k s)
    pub scan_lem :
        (s : R.State) → Replies (λ keys. (j : Bytes) → member j keys ≡ V.present s j) (R.scan s)
    pub holds→present : (s : R.State) (k c : Bytes) → V.holds s k c ≡ true → V.present s k ≡ true
    pub absent→is_set : (s : R.State) (k : Bytes) → V.present s k ≡ false → V.is_set s k ≡ true

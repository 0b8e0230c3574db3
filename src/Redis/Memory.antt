-- ===== src/Redis/Memory.antt =====
-- A server that keeps its hashes and sets in memory: it meets what `Redis` asks for.
use jinbe.Prelude.{
  String, ◌≡◌, refl, not, ◌&&◌, ◌||◌, ◌==◌, eq_iff, eq_refl, if◌then◌else◌, some, List, [], ◌∷◌,
  arith, Entries, lookup, insert, erase, lookup-insert, lookup-erase, All, includes, filter,
  includes-filter, Bool-cases, inl, inr,
}
use jinbe.Redis.{Redis}

module _ {V : Type 0} where
  -- one entry for each key
  abbrev pub distinct : Entries V → Entries V
  distinct [] = []
  distinct ((k, v) ∷ m) = (k, v) ∷ erase k (distinct m)

  pub lookup-distinct : (k : String) (m : Entries V) → lookup k (distinct m) ≡ lookup k m
  lookup-distinct k [] = refl
  lookup-distinct k ((j, v) ∷ m) =
      ground (arith, lookup-erase j k (distinct m), lookup-distinct k m)

  abbrev IsEntry : Entries V → String × V → Type 0
  IsEntry m (k, v) = lookup k m ≡ some v

  IsEntry-erase :
      (j : String) (w : V) (m xs : Entries V)
      → All (IsEntry m) xs
      → All (IsEntry ((j, w) ∷ m)) (erase j xs)
  IsEntry-erase j w m [] h = tt
  IsEntry-erase j w m ((k, v) ∷ xs) (e, h) = elim (Bool-cases (k == j)) [
    | inl same ↦ rw same (IsEntry-erase j w m xs h)
    | inr other ↦ rw other (ground (arith, eq_iff k j, eq_iff j k), IsEntry-erase j w m xs h)
  ]

  pub distinct-IsEntry : (m : Entries V) → All (λ (k, v). lookup k m ≡ some v) (distinct m)
  distinct-IsEntry [] = tt
  distinct-IsEntry ((k, v) ∷ m) =
      (rw eq_refl, IsEntry-erase k v m (distinct m) (distinct-IsEntry m))

abbrev pub add_member : List String → String → List String
add_member m a = if includes m a then m else a ∷ m

pub includes-add_member :
    (m : List String) (a b : String) → includes (add_member m a) b ≡ (a == b || includes m b)
includes-add_member m a b = ground (arith, eq_iff a b)

pub includes-remove_member :
    (m : List String) (a b : String)
    → includes (filter (λ x. not (a == x)) m) b ≡ (not (a == b) && includes m b)
includes-remove_member m a b = includes-filter (λ x. not (a == x)) m b

abbrev pub memory : Redis
memory = record {
  Hash = Entries;
  hget = λ V h k. lookup k h;
  hset = λ V h k v. insert k v h;
  hdel = λ V h k. erase k h;
  hgetall = λ V h. distinct h;
  hget-hset = λ V h k j v. lookup-insert k j v h;
  hget-hdel = λ V h k j. lookup-erase k j h;
  lookup-hgetall = λ V h k. lookup-distinct k h;
  empty = λ V. [];
  hget-empty = λ V k. refl;
  hgetall-hget = λ V h. distinct-IsEntry h;
  Members = List String;
  smembers = λ m. m;
  sadd = add_member;
  srem = λ m a. filter (λ x. not (a == x)) m;
  smembers-sadd = includes-add_member;
  smembers-srem = includes-remove_member;
}

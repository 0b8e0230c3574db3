-- ===== src/Recert/Sweep.antt =====
-- A walk over all items of a campaign that stores some of them again: the loops of `closeCampaign`
-- and of `finalize`, as far as the hash of items is concerned.
use jinbe.Prelude.{
  String, ◌≡◌, refl, sym, ap, ◌∙◌, Bool, eq_iff, if◌then◌else◌, Option, none, some, List, [], ◌∷◌,
  arith, inl, inr, ◌⊎◌, All, Entries, lookup,
}
use jinbe.Redis.{Redis}
use jinbe.Recert.{RecertItem, values}

module _ (redis : Redis) where
  -- Each item is stored under its own id.
  unfoldable pub AreKeyed : redis.Hash RecertItem → Type 0
  AreKeyed h = (k : String) (i : RecertItem) → redis.hget RecertItem h k ≡ some i → i.id ≡ k

module _ (redis : Redis) (test : RecertItem → Bool) (next : RecertItem → RecertItem) where
  unfoldable pub sweep : List RecertItem → redis.Hash RecertItem → redis.Hash RecertItem
  sweep [] h = h
  sweep (i ∷ is) h = sweep is (if test i then redis.hset RecertItem h i.id (next i) else h)

  -- what becomes of one item
  abbrev pub swept : Option RecertItem → Option RecertItem
  swept none = none
  swept (some i) = if test i then some (next i) else some i

  module _ (h0 : redis.Hash RecertItem) (keyed : AreKeyed redis h0) (k : String) where
    -- the entry of k is done, or it is still to come
    abbrev IsOnTheWay : redis.Hash RecertItem → Entries RecertItem → Type 0
    IsOnTheWay h m =
        (redis.hget RecertItem h k ≡ swept (redis.hget RecertItem h0 k))
        ⊎ ((redis.hget RecertItem h k ≡ redis.hget RecertItem h0 k)
            × (lookup k m ≡ redis.hget RecertItem h0 k))

    step_at :
        (j : String) (v : RecertItem) (m : Entries RecertItem) (h : redis.Hash RecertItem)
        → redis.hget RecertItem h0 j ≡ some v
        → v.id ≡ j
        → IsOnTheWay h ((j, v) ∷ m)
        → IsOnTheWay (if test v then redis.hset RecertItem h v.id (next v) else h) m
    step_at j v m h held same w =
        ground (arith, eq_iff j k, redis.hget-hset RecertItem h v.id k (next v))

    sweep_at :
        (m : Entries RecertItem) (h : redis.Hash RecertItem)
        → All (λ (j, v). redis.hget RecertItem h0 j ≡ some v) m
        → IsOnTheWay h m
        → redis.hget RecertItem (sweep (values m) h) k ≡ swept (redis.hget RecertItem h0 k)
    unfolding sweep AreKeyed
    sweep_at [] h a (inl e) = e
    sweep_at [] h a (inr (e, absent)) = e ∙ sym absent ∙ ap swept absent
    sweep_at ((j, v) ∷ m) h (held, a) w =
        sweep_at m (if test v then redis.hset RecertItem h v.id (next v) else h) a
          (step_at j v m h held (keyed j v held) w)

  -- A walk over the whole hash treats each item once.
  pub hget-sweep :
      (h : redis.Hash RecertItem) (k : String)
      → AreKeyed redis h
      → redis.hget RecertItem (sweep (values (redis.hgetall RecertItem h)) h) k
        ≡ swept (redis.hget RecertItem h k)
  hget-sweep h k keyed =
      sweep_at h keyed k (redis.hgetall RecertItem h) h (redis.hgetall-hget RecertItem h)
        (inr (refl, redis.lookup-hgetall RecertItem h k))

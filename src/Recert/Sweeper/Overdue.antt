-- ===== src/Recert/Sweeper/Overdue.antt =====
-- What a sweep leaves active.
use jinbe.Prelude.{
  TextOps, ℕ, String, ◌≡◌, refl, sym, ap, subst, ◌∙◌, ◌⊎◌, inl, inr, Bool, true, false, ◌&&◌, ◌==◌,
  eq_iff, if◌then◌else◌, leb, Option, some, List, [], ◌∷◌, Result, ok, err, arith, Bool-cases,
  Option-cases, Entries, lookup,
}
use jinbe.Redis.{Redis}
use jinbe.Kratos.{Kratos}
use jinbe.Recert.{
  RecertState, RecertCampaign, Error, completed, is_active, values, get_campaign, get_items,
  set_campaign, finalize,
}
use jinbe.Recert.Closing.{close_items, close_campaign, close_under_lock, finish}
use jinbe.Recert.Frames.{close_items-campaigns, finalize-campaigns}
use jinbe.Recert.Lifecycle.{IsKeyed, IsStep-IsKeyed}
use jinbe.Recert.Lifecycle.Closing.{closing_campaign, close_campaign-IsStep}
use jinbe.Recert.Sweeper.{is_due, close_due, run_recert_sweep}

module _ {A : Type 0} where
  Mem : A → List A → Type 0
  Mem a [] = ⊥
  Mem a (x ∷ xs) = (x ≡ a) ⊎ Mem a xs

  Mem-values : (m : Entries A) (k : String) (a : A) → lookup k m ≡ some a → Mem a (values m)
  unfolding Mem
  Mem-values [] k a h = cc
  Mem-values ((j, v) ∷ m) k a h = elim (Bool-cases (j == k)) [
    | inl e ↦ inl (cc (rw e at h))
    | inr e ↦ inr (Mem-values m k a (rw e at h))
  ]

module _ (redis : Redis) (kratos : Kratos) (js : TextOps) (now : ℕ) where
  abbrev St : Type 0
  St = RecertState redis kratos

  -- no active campaign there
  IsQuiet : Option RecertCampaign → Type 0
  IsQuiet o = (c : RecertCampaign) → o ≡ some c → is_active c.status ≡ false

  -- what closing the campaign `id` does to the campaign at `j`
  IsClosedAt : String → St → St → String → Type 0
  IsClosedAt id s t j =
      IsQuiet (get_campaign redis kratos t j)
      ⊎ ((get_campaign redis kratos t j ≡ get_campaign redis kratos s j) × (id == j ≡ false))

  replaced-IsClosedAt :
      (s t : St) (id : String) (o : RecertCampaign) (j : String)
      → is_active o.status ≡ false
      → get_campaign redis kratos t j ≡ (if id == j then some o else get_campaign redis kratos s j)
      → IsClosedAt id s t j
  unfolding IsClosedAt IsQuiet
  replaced-IsClosedAt s t id o j q h = elim (Bool-cases (id == j)) [
    | inl e ↦ let here = rw e at h in inl (λ c k. ground (arith, here, k, q))
    | inr e ↦ inr (rw e at h, e)
  ]

  same-IsClosedAt :
      (s : St) (id j : String) → IsQuiet (get_campaign redis kratos s id) → IsClosedAt id s s j
  unfolding IsClosedAt
  same-IsClosedAt s id j q = elim (Bool-cases (id == j)) [
    | inl e ↦ inl (subst (λ i. IsQuiet (get_campaign redis kratos s i)) ((eq_iff id j).0 e) q)
    | inr e ↦ inr (refl, e)
  ]

  finish-IsClosedAt :
      (s : St) (id : String) (c : RecertCampaign) (p : Result Error (Unit {0}) × St) (j : String)
      → p.1.campaigns ≡ redis.hset RecertCampaign s.campaigns id (closing_campaign c)
      → c.id ≡ id
      → IsClosedAt id s (finish redis kratos js now (closing_campaign c) p).1 j
  unfolding finish
  finish-IsClosedAt s id c (err e, t) j h same =
      replaced-IsClosedAt s t id (closing_campaign c) j refl (
        ap (λ m. redis.hget RecertCampaign m j) h
        ∙ redis.hget-hset RecertCampaign s.campaigns id j (closing_campaign c))
  finish-IsClosedAt s id c (ok u, t) j h same =
      let done = record c { status = completed; closed_at = some now } in
      let f = finalize redis kratos now (closing_campaign c) t in
      let at_f : f.campaigns ≡ redis.hset RecertCampaign t.campaigns id done =
        subst (λ i. f.campaigns ≡ redis.hset RecertCampaign t.campaigns i done) same
          (finalize-campaigns redis kratos js now (closing_campaign c) t) in
      replaced-IsClosedAt s f id done j refl (
        ap (λ m. redis.hget RecertCampaign m j) at_f
        ∙ ground (
          arith,
          redis.hget-hset RecertCampaign t.campaigns id j done,
          ap (λ m. redis.hget RecertCampaign m j) h,
          redis.hget-hset RecertCampaign s.campaigns id j (closing_campaign c),
        ))

  close_campaign-IsClosedAt :
      (id : String) (s : St) (j : String)
      → IsKeyed redis kratos s
      → IsClosedAt id s (close_campaign redis kratos js now id s).1 j
  unfolding close_campaign IsQuiet IsKeyed
  close_campaign-IsClosedAt id s j k = elim (Option-cases (get_campaign redis kratos s id)) [
    | inl missing ↦ rw (missing, close_campaign) (same-IsClosedAt s id j (λ c h. cc))
    | inr (c, found) ↦ elim (Bool-cases (is_active c.status)) [
      | inr other ↦
          rw (found, other, close_campaign)
            (same-IsClosedAt s id j (λ c' h. ground (arith, found, h, other)))
      | inl is_open ↦
          let s' = set_campaign redis kratos (closing_campaign c) s in
          let p =
            close_items redis kratos js now id c.on_expiry (get_items redis kratos s' id) s' in
          let kept : p.1.campaigns ≡ redis.hset RecertCampaign s.campaigns id (closing_campaign c) =
            close_items-campaigns redis kratos js now id c.on_expiry (get_items redis kratos s' id)
              s'
            ∙ ap (λ i. redis.hset RecertCampaign s.campaigns i (closing_campaign c))
                (k id c found) in
          rw (found, is_open, close_campaign) (finish-IsClosedAt s id c p j kept (k id c found))
    ]
  ]

  -- Each campaign that is due, and whose lock is granted, is among those that are still to come.
  AreListed : (String → Bool) → List RecertCampaign → St → Type 0
  AreListed granted cs s =
      (j : String) (c : RecertCampaign)
      → granted j ≡ true
      → get_campaign redis kratos s j ≡ some c
      → is_due redis kratos js now c ≡ true
      → Mem c cs

  close_one-AreListed :
      (granted : String → Bool) (c : RecertCampaign) (cs : List RecertCampaign) (s t : St)
      → IsKeyed redis kratos s
      → ((j : String) → IsClosedAt c.id s t j)
      → AreListed granted (c ∷ cs) s
      → AreListed granted cs t
  unfolding AreListed IsClosedAt IsQuiet IsKeyed Mem
  close_one-AreListed granted c cs s t k closed listed j d free held due = elim (closed j) [
    | inl quiet ↦ ground (arith, quiet d held, due)
    | inr (same, other) ↦
        let before = sym same ∙ held in
        elim (listed j d free before due) [
          | inr later ↦ later
          | inl this ↦
              let at_j : c.id ≡ j = ap (λ (x : RecertCampaign). x.id) this ∙ k j d before in
              cc ((eq_iff c.id j).1 at_j)
        ]
  ]

  skip_one-AreListed :
      (granted : String → Bool) (c : RecertCampaign) (cs : List RecertCampaign) (s : St)
      → IsKeyed redis kratos s
      → (is_due redis kratos js now c ≡ false) ⊎ (granted c.id ≡ false)
      → AreListed granted (c ∷ cs) s
      → AreListed granted cs s
  unfolding AreListed Mem IsKeyed
  skip_one-AreListed granted c cs s k skipped listed j d free held due =
      elim (listed j d free held due) [
        | inr later ↦ later
        | inl this ↦ elim skipped [
          | inl early ↦ cc (ap (is_due redis kratos js now) this)
          | inr refused ↦
              let at_j : c.id ≡ j = ap (λ (x : RecertCampaign). x.id) this ∙ k j d held in
              cc (ap granted at_j)
        ]
      ]

  close_due-AreListed :
      (granted : String → Bool) (cs : List RecertCampaign) (s : St)
      → IsKeyed redis kratos s
      → AreListed granted cs s
      → AreListed granted [] (close_due redis kratos js now granted cs s)
  unfolding close_due close_under_lock
  close_due-AreListed granted [] s k listed = listed
  close_due-AreListed granted (c ∷ cs) s k listed =
      elim (Bool-cases (is_due redis kratos js now c)) [
        | inr early ↦
            rw (early, close_due)
              (close_due-AreListed granted cs s k
                (skip_one-AreListed granted c cs s k (inl early) listed))
        | inl due ↦ elim (Bool-cases (granted c.id)) [
          | inr refused ↦
              rw (due, close_due)
                (rw (refused, close_due)
                  (close_due-AreListed granted cs s k
                    (skip_one-AreListed granted c cs s k (inr refused) listed)))
          | inl free ↦
              let t = (close_campaign redis kratos js now c.id s).1 in
              rw (due, close_due)
                (rw (free, close_due)
                  (close_due-AreListed granted cs t
                    (IsStep-IsKeyed redis kratos now s t
                      (close_campaign-IsStep redis kratos js now c.id s k) k)
                    (close_one-AreListed granted c cs s t k
                      (λ j. close_campaign-IsClosedAt c.id s j k) listed)))
        ]
      ]

  -- After a sweep whose run was claimed, no campaign is active whose deadline is over, whatever Kratos
  -- answered, except one whose lock was refused to the sweep. The state before stores each campaign
  -- under its own id.
  pub run_recert_sweep-is_due :
      (granted : String → Bool) (s : St) (id : String) (c : RecertCampaign)
      → IsKeyed redis kratos s
      → granted id ≡ true
      → get_campaign redis kratos (run_recert_sweep redis kratos js now true granted s) id ≡ some c
      → is_active c.status && leb c.deadline now ≡ false
  unfolding run_recert_sweep AreListed Mem
  run_recert_sweep-is_due granted s id c k free held =
      let all_listed : AreListed granted (values (redis.hgetall RecertCampaign s.campaigns)) s =
        λ j d g h due.
          Mem-values (redis.hgetall RecertCampaign s.campaigns) j d
            (redis.lookup-hgetall RecertCampaign s.campaigns j ∙ h) in
      let none_left =
        close_due-AreListed granted (values (redis.hgetall RecertCampaign s.campaigns)) s k
          all_listed in
      elim (Bool-cases (is_due redis kratos js now c)) [
        | inr early ↦ early
        | inl due ↦ absurd (none_left id c free held due)
      ]
